-- ===== src/Chunking/Paged/Pieces.antt =====
-- chunking.py: the pieces that `chunk_pages` cuts the pages into.
use cogno_engram.Prelude.{ℕ, ◌≤◌, ◌≡◌, ap, ◌∙◌, some, List, [], ◌∷◌, ◌++◌, map, length, arith}
use mathlib.Core.List.{append-nil}
use cogno_engram.Text.{Str}
use cogno_engram.Folding.{Unicode}
use cogno_engram.Errors.{◌>>=◌}
use cogno_engram.Documents.Rules.{ExtractedPage, OutlineEntry}
use cogno_engram.Documents.State.{KbChunk}
use cogno_engram.Chunking.Config.{ChunkingConfig}
use cogno_engram.Chunking.Pack.{pack, path_of}
use cogno_engram.Chunking.Lines.{normalise, split_lines, paragraphs}
use cogno_engram.Chunking.Emit.{root_of}
use cogno_engram.Chunking.Emit.Limited.{Piece, piece_of, limited, emit-limited, limited-then}
use cogno_engram.Chunking.Paged.{outline_paths, trail_at, page_loop, chunk_pages}

module _ (uni : Unicode) (config : ChunkingConfig) (root : List Str)
    (trail : List (ℕ × List Str)) where
  abbrev pub one_page : ExtractedPage → List Piece
  one_page page =
      map (piece_of (path_of uni root (trail_at page.number trail)) (some page.number))
        (pack (paragraphs (split_lines (normalise page.text))) config)

  abbrev pub page_pieces : List ExtractedPage → List Piece
  page_pieces [] = []
  page_pieces (page ∷ pages) = one_page page ++ page_pieces pages

  page_loop-limited :
      (pages : List ExtractedPage) (chunks : List KbChunk)
      → length chunks ≤ config.max_chunks
      → page_loop uni config root trail pages chunks ≡ limited config chunks (page_pieces pages)
  unfolding page_loop
  page_loop-limited [] chunks h = ground (arith, append-nil chunks)
  page_loop-limited (page ∷ pages) chunks h =
      ap (λ r. r >>= page_loop uni config root trail pages)
        (emit-limited config (path_of uni root (trail_at page.number trail))
          (pack (paragraphs (split_lines (normalise page.text))) config) (some page.number) chunks
          h)
      ∙ limited-then config chunks (one_page page) (page_pieces pages) _
          (λ cs k. page_loop-limited pages cs k)

-- Pages become the bodies of their paragraphs, page after page, numbered from 0 on, or the error of
-- too many chunks exactly where there are more than `max_chunks`.
pub chunk_pages-limited :
    (uni : Unicode) (title : Str) (pages : List ExtractedPage) (outline : List OutlineEntry)
    (config : ChunkingConfig)
    → chunk_pages uni title pages outline config
      ≡ limited config [] (
          page_pieces uni config
            (root_of title)
            (outline_paths outline (map (λ p. p.number) pages))
            pages)
unfolding chunk_pages
chunk_pages-limited uni title pages outline config =
    page_loop-limited uni config (root_of title) (outline_paths outline (map (λ p. p.number) pages))
      pages [] (omega arith)
