-- ===== src/Ingestion/Extract.antt =====
-- ingest.py, `_clean` and `_extract`; documents.py, `read_extracted`. The extractor is a parameter.
use cogno_engram.Prelude.{
  ℕ, Bool, true, false, not, Option, none, some, List, [], ◌∷◌, if◌then◌else◌, length, filter, any,
  ltb, ◌==◌, max,
}
use cogno_engram.Text.{Str, codes, strip, is_empty}
use cogno_engram.Folding.{Unicode}
use cogno_engram.Errors.{
  Result, ok, raise, ◌>>=◌, ◌>>◌, refuse_if, extraction_error, cancelled_error,
}
use cogno_engram.Documents.Rules.{
  MediaType, media_markdown, media_pdf, ExtractedPage, OutlineEntry, sanitize_reason,
  reason_over_limit,
}
use cogno_engram.Ingestion.Decode.{decode_utf8_sig}

-- `ExtractionLimits`. A deadline is kept by the extractor and by `asyncio.wait_for`.
pub record ExtractionLimits : Type 0 where
  pub max_bytes : ℕ
  pub max_pages : ℕ

-- What an extractor answers: a page, where the text may be something else than a text.
pub record RawPage : Type 0 where
  pub number : ℕ
  pub text : Option Str

pub record RawEntry : Type 0 where
  pub level : ℕ
  pub title : Str
  pub page : ℕ

pub data Answer : Type 0 where
  -- the deadline passed
  timed_out : Answer
  -- an `ExtractionError`, and any other exception, by its reason
  failed_with : Str → Answer
  failed_otherwise : Str → Answer
  -- something that has no pages to read
  unreadable : Answer
  -- the task is cancelled
  cancelled_reading : Answer
  read_pages : List RawPage → List RawEntry → Answer

pub record Extractor : Type 0 where
  pub media_types : List MediaType
  pub extract : List ℕ → MediaType → ExtractionLimits → Answer

pub record ExtractedText : Type 0 where
  pub pages : List ExtractedPage
  pub outline : List OutlineEntry

-- What `_extract` returns: a text in Markdown, or the pages.
pub data Extracted : Type 0 where
  markdown : Str → Extracted
  paged : ExtractedText → Extracted

abbrev pub reason_invalid : Str
reason_invalid = codes "invalid"

abbrev pub reason_timeout : Str
reason_timeout = codes "timeout"

abbrev pub reason_extractor_unavailable : Str
reason_extractor_unavailable = codes "extractor_unavailable"

-- `text.replace("\x00", "")`
abbrev pub clean : Str → Str
clean text = filter (λ c. not (c == 0)) text

unfoldable pub read_page : RawPage → Result ExtractedPage
read_page page = elim page.text [
  | none ↦ raise (extraction_error reason_invalid)
  | some text ↦
      if page.number == 0
      then raise (extraction_error reason_invalid)
      else ok (record { number = page.number; text = text })
]

unfoldable pub read_pages_of : List RawPage → Result (List ExtractedPage)
unfolding read_page
read_pages_of [] = ok []
read_pages_of (page ∷ pages) = do p ← read_page page; ps ← read_pages_of pages; ok (p ∷ ps)

-- An entry without a title is passed over; a level or a page below 1 is 1.
unfoldable pub read_outline : List RawEntry → List OutlineEntry
unfolding strip
read_outline [] = []
read_outline (entry ∷ entries) =
    let rest = read_outline entries in
    if is_empty (strip entry.title)
    then rest
    else record { level = max 1 entry.level; title = strip entry.title; page = max 1 entry.page }
      ∷ rest

unfoldable pub read_extracted : List RawPage → List RawEntry → Result ExtractedText
unfolding read_pages_of read_outline
read_extracted pages entries = do
  read ← read_pages_of pages
  ok (record { pages = read; outline = read_outline entries })

abbrev pub same_media : MediaType → MediaType → Bool
same_media media_markdown media_markdown = true
same_media media_pdf media_pdf = true
same_media _ _ = false

module _ (uni : Unicode) where
  unfoldable pub read_answer : ExtractionLimits → Answer → Result Extracted
  unfolding read_extracted sanitize_reason
  read_answer limits timed_out = raise (extraction_error reason_timeout)
  read_answer limits (failed_with reason) = raise (extraction_error (sanitize_reason uni reason))
  read_answer limits (failed_otherwise reason) =
      raise (extraction_error (sanitize_reason uni reason))
  read_answer limits cancelled_reading = raise cancelled_error
  read_answer limits unreadable = raise (extraction_error reason_invalid)
  read_answer limits (read_pages pages outline) = do
    extracted ← read_extracted pages outline
    refuse_if (ltb limits.max_pages (length extracted.pages)) (extraction_error reason_over_limit)
    ok (paged extracted)

  unfoldable pub extract :
      List ℕ → MediaType → Option Extractor → ExtractionLimits → Result Extracted
  unfolding read_answer decode_utf8_sig
  extract bytes media_markdown extractor limits = elim (decode_utf8_sig bytes) [
    | none ↦ raise (extraction_error reason_invalid)
    | some text ↦ ok (markdown (clean text))
  ]
  extract bytes media_pdf none limits = raise (extraction_error reason_extractor_unavailable)
  extract bytes media_pdf (some e) limits =
      if any (same_media media_pdf) e.media_types
      then read_answer limits (e.extract bytes media_pdf limits)
      else raise (extraction_error reason_extractor_unavailable)
