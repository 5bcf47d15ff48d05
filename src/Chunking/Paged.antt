-- ===== src/Chunking/Paged.antt =====
-- chunking.py, `_outline_paths` and `chunk_pages`: pages cut by page, then by paragraph.
pub mod Outline
pub mod Pieces
use cogno_engram.Prelude.{
  ℕ, ◌+◌, Option, none, some, List, [], ◌∷◌, ◌++◌, if◌then◌else◌, leb, ◌==◌, map, any, find?,
  sort_by,
}
use cogno_engram.Text.{Str, words}
use cogno_engram.Folding.{Unicode}
use cogno_engram.Errors.{Result, ok, raise, ◌>>=◌}
use cogno_engram.Documents.Rules.{ExtractedPage, OutlineEntry}
use cogno_engram.Documents.State.{KbChunk}
use cogno_engram.Chunking.Config.{ChunkingConfig}
use cogno_engram.Chunking.Passage.{join}
use cogno_engram.Chunking.Pack.{pack, path_of}
use cogno_engram.Chunking.Lines.{normalise, split_lines, paragraphs}
use cogno_engram.Chunking.Emit.{emit, root_of}
use cogno_engram.Chunking.Markdown.{Stack, trail_of, pop_to}

-- The entry comes into force.
unfoldable pub enter : OutlineEntry → Stack → Stack
unfolding pop_to words join
enter entry stack = (entry.level, join (32 ∷ []) (words entry.title)) ∷ pop_to entry.level stack

-- The entries up to a page come into force; the others are left.
unfoldable pub advance : ℕ → List OutlineEntry → Stack → List OutlineEntry × Stack
unfolding enter
advance number [] stack = ([], stack)
advance number (entry ∷ entries) stack =
    let rest = advance number entries (enter entry stack) in
    if leb entry.page number then rest else (entry ∷ entries, stack)

unfoldable pub outline_loop : List ℕ → List OutlineEntry → Stack → List (ℕ × List Str)
unfolding advance trail_of
outline_loop [] entries stack = []
outline_loop (number ∷ numbers) entries stack =
    let (left, now) = advance number entries stack in
    (number, trail_of now) ∷ outline_loop numbers left now

-- `set(pages)`
abbrev pub distinct_pages : List ℕ → List ℕ
distinct_pages [] = []
distinct_pages (n ∷ ns) =
    let rest = distinct_pages ns in if any (λ m. m == n) ns then rest else n ∷ rest

unfoldable pub outline_paths : List OutlineEntry → List ℕ → List (ℕ × List Str)
unfolding outline_loop
outline_paths outline pages =
    outline_loop (sort_by leb (distinct_pages pages)) (sort_by (λ a b. leb a.page b.page) outline)
      []

-- `trail.get(page.number, ())`
unfoldable pub trail_at : ℕ → List (ℕ × List Str) → List Str
trail_at number paths = elim (find? (λ e. e.0 == number) paths) [ none ↦ [] | some e ↦ e.1 ]

module _ (uni : Unicode) where
  unfoldable pub page_loop :
      ChunkingConfig
      → List Str
      → List (ℕ × List Str)
      → List ExtractedPage
      → List KbChunk
      → Result (List KbChunk)
  unfolding path_of pack paragraphs trail_at emit normalise split_lines
  page_loop config root trail [] chunks = ok chunks
  page_loop config root trail (page ∷ pages) chunks = do
    next ←
        emit config (path_of uni root (trail_at page.number trail))
          (pack (paragraphs (split_lines (normalise page.text))) config) (some page.number) chunks
    page_loop config root trail pages next

  unfoldable pub chunk_pages :
      Str → List ExtractedPage → List OutlineEntry → ChunkingConfig → Result (List KbChunk)
  unfolding outline_paths page_loop root_of
  chunk_pages title pages outline config =
      page_loop config (root_of title) (outline_paths outline (map (λ p. p.number) pages)) pages []
