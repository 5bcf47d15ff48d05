-- ===== src/Chunking/Markdown/Bounds.antt =====
-- chunking.py: the chunks of a Markdown text, by number and size.
use cogno_engram.Prelude.{
  ℕ, ◌+◌, ◌≤◌, ◌≡◌, refl, sym, ◌∙◌, subst, Option, none, List, [], ◌∷◌, ◌++◌, map, length, inl, inr,
  Bool-cases, Option-cases, All, All-append,
}
use cogno_engram.Text.{Str, is_empty}
use cogno_engram.Folding.{Unicode}
use cogno_engram.Errors.{ok}
use cogno_engram.Documents.State.{KbChunk}
use cogno_engram.Chunking.Config.{ChunkingConfig, IsValid}
use cogno_engram.Chunking.Pack.{pack, content_of}
use cogno_engram.Chunking.Pack.Fit.{pack-le}
use cogno_engram.Chunking.Lines.{
  normalise, split_lines, paragraphs, is_code, fence_after, heading_of,
}
use cogno_engram.Chunking.Emit.{new_chunk, root_of}
use cogno_engram.Chunking.Emit.Limited.{Piece, piece_of, numbered, limited-eq-ok}
use cogno_engram.Chunking.Markdown.{Stack, pop_to, chunk_markdown}
use cogno_engram.Chunking.Markdown.Sections.{section_pieces, md_pieces, chunk_markdown-limited}

-- The ordinals go up by one from `n` on.
abbrev pub InOrder : ℕ → List KbChunk → Type 0
InOrder n [] = Unit
InOrder n (c ∷ cs) = (c.ordinal ≡ n) × InOrder (n + 1) cs

-- The chunk is a body of at most the target's size behind its path.
abbrev pub HasBody : ChunkingConfig → KbChunk → Type 0
HasBody config c =
    (body : Str) × (c.content ≡ content_of c.heading_path body config)
    × (length body ≤ config.target_chars)

abbrev pub Short : ChunkingConfig → Piece → Type 0
Short config p = length p.body ≤ config.target_chars

pub numbered-InOrder :
    (config : ChunkingConfig) (n : ℕ) (ps : List Piece) → InOrder n (numbered config n ps)
unfolding new_chunk
numbered-InOrder config n [] = tt
numbered-InOrder config n (p ∷ ps) = (refl, numbered-InOrder config (n + 1) ps)

pub numbered-HasBody :
    (config : ChunkingConfig) (n : ℕ) (ps : List Piece)
    → All (Short config) ps
    → All (HasBody config) (numbered config n ps)
unfolding new_chunk
numbered-HasBody config n [] h = tt
numbered-HasBody config n (p ∷ ps) h = ((p.body, refl, h.0), numbered-HasBody config (n + 1) ps h.1)

pub pieces-Short :
    (config : ChunkingConfig) (path : List Str) (page : Option ℕ) (bodies : List Str)
    → All (λ b. length b ≤ config.target_chars) bodies
    → All (Short config) (map (piece_of path page) bodies)
pieces-Short config path page [] h = tt
pieces-Short config path page (b ∷ bs) h = (h.0, pieces-Short config path page bs h.1)

module _ (uni : Unicode) (config : ChunkingConfig) (root : List Str) (v : IsValid config) where
  section_pieces-Short :
      (stack : Stack) (section : List Str)
      → All (Short config) (section_pieces uni config root stack section)
  section_pieces-Short stack section =
      pieces-Short config _ none (pack (paragraphs section) config)
        (pack-le (paragraphs section) config v)

  md_pieces-Short :
      (lines : List Str) (stack : Stack) (section : List Str) (fence : Str)
      → All (Short config) (md_pieces uni config root lines stack section fence)
  md_pieces-Short [] stack section fence = section_pieces-Short stack section
  md_pieces-Short (line ∷ lines) stack section fence = elim (Bool-cases (is_code fence line)) [
    | inl e ↦ rw e (md_pieces-Short lines stack (section ++ line ∷ []) (fence_after fence line))
    | inr e ↦ elim (Option-cases (heading_of line)) [
      | inl n ↦ rw (e, n) (md_pieces-Short lines stack (section ++ line ∷ []) fence)
      | inr (h, s) ↦ elim (Bool-cases (is_empty h.1)) [
        | inl t ↦ rw (e, s, t) (md_pieces-Short lines stack section fence)
        | inr t ↦
            rw (e, s, t)
              (All-append (Short config) (section_pieces uni config root stack section) _
                (section_pieces-Short stack section)
                (md_pieces-Short lines (h ∷ pop_to h.0 stack) [] fence))
      ]
    ]
  ]

-- The chunks of a Markdown text are at most `max_chunks`, have the ordinals from 0 on, and each is a
-- body of at most `target_chars` characters behind its heading path.
pub chunk_markdown-HasBody :
    (uni : Unicode) (title text : Str) (config : ChunkingConfig) (chunks : List KbChunk)
    → IsValid config
    → chunk_markdown uni title text config ≡ ok chunks
    → (length chunks ≤ config.max_chunks) × InOrder 0 chunks × All (HasBody config) chunks
chunk_markdown-HasBody uni title text config chunks v h =
    let lines = split_lines (normalise text) in
    let ps = md_pieces uni config (root_of title) lines [] [] [] in
    let (same, few) =
      limited-eq-ok config ps (sym (chunk_markdown-limited uni title text config) ∙ h) in
    (
      few,
      subst (InOrder 0) (sym same) (numbered-InOrder config 0 ps),
      subst (All (HasBody config)) (sym same) (
          numbered-HasBody config 0 ps
            (md_pieces-Short uni config (root_of title) v lines [] [] [])),
    )
