-- ===== src/Chunking/Markdown/Sections.antt =====
-- chunking.py: the sections that `chunk_markdown` cuts a text into.
use cogno_engram.Prelude.{
  ◌≡◌, refl, ap, ◌∙◌, none, some, List, [], ◌∷◌, ◌++◌, map, ◌≤◌, if◌then◌else◌, length, arith, inl,
  inr, Bool-cases, Option-cases,
}
use cogno_engram.Text.{Str, is_empty}
use cogno_engram.Folding.{Unicode}
use cogno_engram.Errors.{Result, ok, raise, ◌>>=◌}
use cogno_engram.Documents.State.{KbChunk}
use cogno_engram.Chunking.Config.{ChunkingConfig}
use cogno_engram.Chunking.Pack.{pack, path_of}
use cogno_engram.Chunking.Lines.{
  normalise, split_lines, paragraphs, is_code, fence_after, heading_of,
}
use cogno_engram.Chunking.Emit.{root_of}
use cogno_engram.Chunking.Emit.Limited.{Piece, piece_of, limited, emit-limited, limited-then}
use cogno_engram.Chunking.Markdown.{
  Stack, trail_of, pop_to, flush, md_line, md_lines, chunk_markdown,
}

bind-chain {ℓ} :
    {A B C : Type ℓ} (r : Result A) (f : A → B) (g : B → Result B) (h : B → Result C)
    → ((r >>= λ a. ok (f a)) >>= g >>= h) ≡ (r >>= λ a. (g (f a) >>= h))
bind-chain (ok a) f g h = refl
bind-chain (raise e) f g h = refl

module _ (uni : Unicode) (config : ChunkingConfig) (root : List Str) where
  -- The pieces of one section.
  abbrev pub section_pieces : Stack → List Str → List Piece
  section_pieces stack section =
      map (piece_of (path_of uni root (trail_of stack)) none) (pack (paragraphs section) config)

  -- The pieces of all the sections that begin in the lines, with what is under way before them.
  abbrev pub md_pieces : List Str → Stack → List Str → Str → List Piece
  md_pieces [] stack section fence = section_pieces stack section
  md_pieces (line ∷ lines) stack section fence =
      let goes_on = md_pieces lines stack (section ++ line ∷ []) fence in
      let in_code = md_pieces lines stack (section ++ line ∷ []) (fence_after fence line) in
      let skipped = md_pieces lines stack section fence in
      if is_code fence line then in_code else elim (heading_of line) [
        | none ↦ goes_on
        | some h ↦
            let opened = md_pieces lines (h ∷ pop_to h.0 stack) [] fence in
            if is_empty h.1 then skipped else section_pieces stack section ++ opened
      ]

  md_lines-limited :
      (lines : List Str) (chunks : List KbChunk) (stack : Stack) (section : List Str) (fence : Str)
      → length chunks ≤ config.max_chunks
      → (md_lines uni config root lines
            (record { chunks = chunks; stack = stack; section = section; fence = fence })
          >>= flush uni config root)
        ≡ limited config chunks (md_pieces lines stack section fence)
  unfolding md_lines md_line flush
  md_lines-limited [] chunks stack section fence h =
      emit-limited config (path_of uni root (trail_of stack)) (pack (paragraphs section) config)
        none chunks h
  md_lines-limited (line ∷ lines) chunks stack section fence h =
      elim (Bool-cases (is_code fence line)) [
        | inl e ↦
            rw e (
              md_lines-limited lines chunks stack (section ++ line ∷ []) (fence_after fence line) h)
        | inr e ↦ elim (Option-cases (heading_of line)) [
          | inl n ↦ rw (e, n) (md_lines-limited lines chunks stack (section ++ line ∷ []) fence h)
          | inr (a, s) ↦ elim (Bool-cases (is_empty a.1)) [
            | inl t ↦ rw (e, s, t) (md_lines-limited lines chunks stack section fence h)
            | inr t ↦
                rw (e, s, t)
                  (bind-chain
                      (flush uni config root (record {
                        chunks = chunks;
                        stack = stack;
                        section = section;
                        fence = fence;
                      }))
                      _ _ _
                    ∙ ap
                        (λ r. r >>= λ cs.
                          (md_lines uni config root lines (record {
                            chunks = cs;
                            stack = a ∷ pop_to a.0 stack;
                            section = [];
                            fence = fence;
                          })
                            >>= flush uni config root))
                        (emit-limited config (path_of uni root (trail_of stack))
                          (pack (paragraphs section) config) none chunks h)
                    ∙ limited-then config chunks (section_pieces stack section)
                        (md_pieces lines (a ∷ pop_to a.0 stack) [] fence) _
                        (λ cs k. md_lines-limited lines cs (a ∷ pop_to a.0 stack) [] fence k))
          ]
        ]
      ]

-- A Markdown text becomes the bodies of its sections in order, each behind its headings and numbered
-- from 0 on, or the error of too many chunks exactly where there are more than `max_chunks`.
pub chunk_markdown-limited :
    (uni : Unicode) (title text : Str) (config : ChunkingConfig)
    → chunk_markdown uni title text config
      ≡ limited config []
          (md_pieces uni config (root_of title) (split_lines (normalise text)) [] [] [])
unfolding chunk_markdown
chunk_markdown-limited uni title text config =
    md_lines-limited uni config (root_of title) (split_lines (normalise text)) [] [] [] []
      (omega arith)
