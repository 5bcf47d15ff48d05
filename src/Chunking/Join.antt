-- ===== src/Chunking/Join.antt =====
-- chunking.py, `_overlap_length` and `join_passages`: chunks that are read back, as passages.
pub mod Marks
pub mod Whole
use mathlib.Core.List.{reverse}
use cogno_engram.Prelude.{
  ℕ, ◌+◌, Bool, true, false, not, ◌&&◌, ◌||◌, Option, none, some, List, [], ◌∷◌, ◌++◌,
  if◌then◌else◌, length, drop, leb, ltb, ◌==◌,
}
use cogno_engram.Text.{Str, is_empty, starts_with, lstrip, texts_eq}
use cogno_engram.Documents.State.{KbTextChunk}
use cogno_engram.Chunking.Config.{ChunkingConfig}
use cogno_engram.Chunking.Split.{tail}
use cogno_engram.Chunking.Passage.{blank_line}

abbrev pub same_page : Option ℕ → Option ℕ → Bool
same_page none none = true
same_page none (some q) = false
same_page (some p) none = false
same_page (some p) (some q) = p == q

-- How many leading characters repeat the tail of the chunk before.
unfoldable pub overlap_length : Str → Str → ChunkingConfig → ℕ
unfolding tail starts_with
overlap_length prev nxt config =
    let most = config.overlap_chars in
    let head = tail prev most in
    let rest = drop (length head) nxt in
    if (most == 0) || leb (length prev) most || is_empty nxt
    then 0
    else (if not (is_empty head)
          && starts_with nxt head
          && (starts_with rest blank_line || starts_with rest (32 ∷ []))
          && ltb config.target_chars (length prev + length rest)
        then length head
        else 0)

-- The chunk follows the last one in the same section and on the same page.
unfoldable pub same_run : KbTextChunk → KbTextChunk → Bool
unfolding texts_eq
same_run last chunk =
    (chunk.ordinal == last.ordinal + 1)
    && texts_eq chunk.heading_path last.heading_path
    && same_page chunk.page last.page

-- `text[cut:] if cut else "\n\n" + text`
abbrev pub added : ℕ → Str → Str
added cut text = if cut == 0 then blank_line ++ text else drop cut text

-- `text[cut:].lstrip() if cut else text`
abbrev pub cut_head : ℕ → Str → Str
cut_head cut text = if cut == 0 then text else lstrip (drop cut text)

-- A chunk that goes on with the run of the last one. `out` is kept from its end, so that its first
-- passage is `out[-1]`.
unfoldable pub append_chunk :
    ChunkingConfig → KbTextChunk → KbTextChunk → List KbTextChunk → List KbTextChunk
unfolding overlap_length
append_chunk config last chunk [] =
    record chunk { text = cut_head (overlap_length last.text chunk.text config) chunk.text } ∷ []
append_chunk config last chunk (p ∷ out) =
    let cut = overlap_length last.text chunk.text config in
    if leb p.ordinal last.ordinal
    then record p { text = p.text ++ added cut chunk.text } ∷ out
    else record chunk { text = cut_head cut chunk.text } ∷ p ∷ out

-- One chunk more.
unfoldable pub join_chunk :
    ChunkingConfig → Option KbTextChunk → KbTextChunk → List KbTextChunk → List KbTextChunk
unfolding same_run append_chunk
join_chunk config none chunk out = chunk ∷ out
join_chunk config (some last) chunk out =
    if same_run last chunk then append_chunk config last chunk out else chunk ∷ out

unfoldable pub join_loop :
    ChunkingConfig → Option KbTextChunk → List KbTextChunk → List KbTextChunk → List KbTextChunk
unfolding join_chunk
join_loop config last [] out = reverse out
join_loop config last (chunk ∷ chunks) out =
    join_loop config (some chunk) chunks (join_chunk config last chunk out)

unfoldable pub join_passages :
    List KbTextChunk → Option KbTextChunk → ChunkingConfig → List KbTextChunk
unfolding join_loop
join_passages chunks previous config = join_loop config previous chunks []
