-- ===== src/Tests/Passages.antt =====
-- The theorems of Chunking at sample data.
use cogno_engram.Prelude.{
  map, ◌≡◌, ◌≤◌, refl, none, List, [], ◌∷◌, arith, length, All, sort_by, leb,
}
use cogno_engram.Chunking.Split.Sizes.{concat}
use cogno_engram.Text.{solid, Str, codes, is_space, str_eq, starts_with}
use cogno_engram.Errors.{ok}
use cogno_engram.Documents.Rules.{OutlineEntry}
use cogno_engram.Documents.State.{KbChunk}
use cogno_engram.Chunking.Config.{ChunkingConfig}
use cogno_engram.Chunking.Passage.{find_text, join, chunk_text}
use cogno_engram.Chunking.Split.{split_long}
use cogno_engram.Chunking.Pack.{content_of, units, pack}
use cogno_engram.Chunking.Emit.{new_chunk}
use cogno_engram.Chunking.Markdown.{chunk_markdown, trail_of}
use cogno_engram.Chunking.Join.{join_passages}
use cogno_engram.Chunking.Join.Whole.{section_chunks, passages_of, pack-join_passages}
use cogno_engram.Chunking.Pack.Solid.{IsSolid}
use cogno_engram.Chunking.Content.{OneLine, IsReadable, content_of-chunk_text}
use cogno_engram.Chunking.Markdown.Bounds.{InOrder, HasBody, chunk_markdown-HasBody}
use cogno_engram.Chunking.Paged.{outline_paths, trail_at}
use cogno_engram.Chunking.Paged.Outline.{replay, upto, outline_paths-at}
use cogno_engram.Tests.Samples.{plain}

abbrev pub small : ChunkingConfig
small = record {
  target_chars = 50;
  overlap_chars = 10;
  max_chunks = 3;
  path_separator = codes " > ";
}

-- Two paragraphs of which the first does not fit in one body.
abbrev story : List Str
story =
    codes "one two three four five six seven eight nine ten eleven twelve" ∷ codes "the end" ∷ []

story_pieces :
    pack story small
    ≡ codes "one two three four five six seven"
      ∷ codes "six seven eight nine ten eleven twelve\n\nthe end"
      ∷ []
unfolding pack units split_long
story_pieces = refl

story-IsSolid : All IsSolid story
unfolding is_space
story-IsSolid = (refl, (refl, tt))

pack-join_passages_example :
    (join_passages (section_chunks 0 none [] (pack story small)) none small
      ≡ passages_of 0 none [] (units small story))
    × (solid (concat (map (λ c. c.text) (passages_of 0 none [] (units small story))))
        ≡ solid (concat story))
pack-join_passages_example =
    pack-join_passages small (omega arith, omega arith, omega arith) (omega arith) story 0 none []
      (story-IsSolid)

abbrev manual_path : List Str
manual_path = codes "Manual" ∷ codes "Hours" ∷ []

separator_line : OneLine small.path_separator
separator_line = (refl, (refl, (refl, tt)))

path_line : All OneLine manual_path
path_line = (
  (refl, (refl, (refl, (refl, (refl, (refl, tt)))))),
  ((refl, (refl, (refl, (refl, (refl, tt))))), tt),
)

path-IsReadable : IsReadable small.path_separator manual_path
unfolding find_text join starts_with
path-IsReadable = (refl, refl, refl)

content_of-chunk_text_example :
    chunk_text (content_of manual_path (codes "from 8\n\nto 12") small) manual_path
    ≡ codes "from 8\n\nto 12"
content_of-chunk_text_example =
    content_of-chunk_text manual_path (codes "from 8\n\nto 12") small separator_line path_line
      path-IsReadable

-- A heading within the title, and a line under it.
abbrev hours : List KbChunk
hours = new_chunk small 0 (codes "Manual" ∷ codes "Hours" ∷ []) none (codes "open") ∷ []

hours_text :
    chunk_markdown plain (codes "Manual") (codes "# Manual\n## Hours\nopen") small ≡ ok hours
unfolding chunk_markdown str_eq
hours_text = refl

chunk_markdown-HasBody_example : (length hours ≤ 3) × InOrder 0 hours × All (HasBody small) hours
chunk_markdown-HasBody_example =
    chunk_markdown-HasBody plain (codes "Manual") (codes "# Manual\n## Hours\nopen") small hours
      (omega arith, omega arith, omega arith) hours_text

abbrev bookmarks : List OutlineEntry
bookmarks =
    record { level = 1; title = codes "Two"; page = 2 }
    ∷ record { level = 1; title = codes "One"; page = 1 }
    ∷ []

outline_paths-at_example :
    trail_at 2 (outline_paths bookmarks (2 ∷ 1 ∷ []))
    ≡ trail_of (replay (upto 2 (sort_by (λ a b. leb a.page b.page) bookmarks)) [])
outline_paths-at_example = outline_paths-at bookmarks (2 ∷ 1 ∷ []) 2 refl
