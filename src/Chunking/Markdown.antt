-- ===== src/Chunking/Markdown.antt =====
-- chunking.py, `chunk_markdown`: a text cut by heading, then by paragraph.
pub mod Sections
pub mod Bounds
use mathlib.Core.List.{reverse}
use cogno_engram.Prelude.{ℕ, ◌+◌, Option, none, some, List, [], ◌∷◌, ◌++◌, if◌then◌else◌, leb, map}
use cogno_engram.Text.{Str, is_empty}
use cogno_engram.Folding.{Unicode}
use cogno_engram.Errors.{Result, ok, raise, ◌>>=◌}
use cogno_engram.Documents.State.{KbChunk}
use cogno_engram.Chunking.Config.{ChunkingConfig}
use cogno_engram.Chunking.Pack.{pack, path_of}
use cogno_engram.Chunking.Lines.{
  normalise, split_lines, paragraphs, is_code, fence_after, heading_of,
}
use cogno_engram.Chunking.Emit.{emit, root_of}

-- The headings in force, the innermost one first.
abbrev pub Stack : Type 0
Stack = List (ℕ × Str)

-- `[t for _, t in stack]`
unfoldable pub trail_of : Stack → List Str
trail_of stack = map (λ e. e.1) (reverse stack)

-- A heading closes those of its level and below.
unfoldable pub pop_to : ℕ → Stack → Stack
pop_to level [] = []
pop_to level (e ∷ stack) =
    let rest = pop_to level stack in if leb level e.0 then rest else e ∷ stack

-- What the loop over the lines changes.
pub record MdState : Type 0 where
  pub chunks : List KbChunk
  pub stack : Stack
  pub section : List Str
  pub fence : Str

module _ (uni : Unicode) where
  unfoldable pub flush : ChunkingConfig → List Str → MdState → Result (List KbChunk)
  unfolding path_of pack paragraphs trail_of emit
  flush config root st =
      emit config (path_of uni root (trail_of st.stack)) (pack (paragraphs st.section) config) none
        st.chunks

  unfoldable pub md_line : ChunkingConfig → List Str → Str → MdState → Result MdState
  unfolding flush is_code fence_after heading_of pop_to
  md_line config root line st =
      if is_code st.fence line
      then ok (record st { section = st.section ++ line ∷ []; fence = fence_after st.fence line })
      else elim (heading_of line) [
        | none ↦ ok (record st { section = st.section ++ line ∷ [] })
        | some h ↦ if is_empty h.1 then ok st else (do
          chunks ← flush config root st
          ok (record st { chunks = chunks; stack = h ∷ pop_to h.0 st.stack; section = [] }))
      ]

  unfoldable pub md_lines : ChunkingConfig → List Str → List Str → MdState → Result MdState
  unfolding md_line
  md_lines config root [] st = ok st
  md_lines config root (line ∷ lines) st = do
    next ← md_line config root line st
    md_lines config root lines next

  unfoldable pub chunk_markdown : Str → Str → ChunkingConfig → Result (List KbChunk)
  unfolding normalise split_lines md_lines flush root_of
  chunk_markdown title text config = do
    st ←
        md_lines config (root_of title) (split_lines (normalise text))
          (record { chunks = []; stack = []; section = []; fence = [] })
    flush config (root_of title) st
