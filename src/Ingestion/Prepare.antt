-- ===== src/Ingestion/Prepare.antt =====
-- ingest.py, `prepare`: an upload is extracted, cut and estimated, and parked as a draft.
use cogno_engram.Prelude.{
  ℕ, ◌+◌, Bool, true, false, not, ◌&&◌, Option, none, some, List, [], ◌∷◌, if◌then◌else◌, length,
  ltb, map,
}
use cogno_engram.Text.{Str, codes}
use cogno_engram.Folding.{Unicode}
use cogno_engram.Errors.{
  is_cancelled, Error, Result, ok, raise, ◌>>=◌, ◌>>◌, original_too_large, extraction_error,
}
use cogno_engram.Types.{Date}
use cogno_engram.Store.State.{date_or}
use cogno_engram.Chunking.Config.{ChunkingConfig}
use cogno_engram.Chunking.Markdown.{chunk_markdown}
use cogno_engram.Chunking.Paged.{chunk_pages}
use cogno_engram.Documents.Rules.{
  require_owner, require_model, same_state, kb_ready, MediaType, ExtractedPage, reason_over_limit,
}
use cogno_engram.Documents.State.{Documents, KbChunk, KbVersion, KbDocument}
use cogno_engram.Documents.Manage.{get_document}
use cogno_engram.Documents.Ingest.{begin_version}
use cogno_engram.Documents.Drafts.{save_draft}
use cogno_engram.Ingestion.Outcome.{
  ingest_unchanged, ingest_deleted, ingest_superseded, ingest_awaiting, Ended, returned, raised,
  outcome, no_usage, estimate_tokens,
}
use cogno_engram.Ingestion.Extract.{ExtractionLimits, Extractor, markdown, paged, clean, extract}
use cogno_engram.Ingestion.Failing.{attempt, gone, fail, fail_internally}

abbrev pub reason_no_text : Str
reason_no_text = codes "no_text"

-- What a host hands over with the bytes.
pub record Upload : Type 0 where
  pub bytes : List ℕ
  pub embed_model : Str
  pub extractor : Option Extractor
  pub limits : ExtractionLimits
  pub chunking : ChunkingConfig
  pub keep_bytes : Bool
  pub ttl : ℕ

abbrev pub is_too_large : Error → Bool
is_too_large original_too_large = true
is_too_large _ = false

abbrev clean_page : ExtractedPage → ExtractedPage
clean_page p = record p { text = clean p.text }

-- The reason of an `ExtractionError`.
abbrev pub reason_of : Error → Option Str
reason_of (extraction_error reason) = some reason
reason_of _ = none

-- The version that the upload is, and whether the upload is too large for it.
pub record Begun : Type 0 where
  pub store : Documents
  pub version : Option KbVersion
  pub oversize : Bool

abbrev pub begun_with : Bool → Documents × Option KbVersion → Begun
begun_with oversize answer = record { store = answer.0; version = answer.1; oversize = oversize }

module _ (sha256 : List ℕ → Str) (clock : Date) where
  -- An original that the store refuses for its size is begun again without it.
  unfoldable pub begin_upload : Date → Str → Str → Upload → Documents → Result Begun
  unfolding begin_version
  begin_upload moment owner_key document_id u st =
      let oversize = ltb u.limits.max_bytes (length u.bytes) in
      let begin = λ (original : Option (List ℕ)).
        begin_version clock owner_key document_id (sha256 u.bytes) u.embed_model (length u.bytes)
          original (some moment) st in
      elim (begin (if u.keep_bytes && not oversize then some u.bytes else none)) [
        | ok answer ↦ ok (begun_with oversize answer)
        | raise e ↦
            if is_too_large e
            then (begin none >>= λ answer. ok (begun_with true answer))
            else raise e
      ]

module _ (uni : Unicode) where
  -- The chunks of the upload, and its pages.
  unfoldable pub chunk_upload : Str → MediaType → Upload → Result (List KbChunk × ℕ)
  unfolding extract chunk_markdown chunk_pages
  chunk_upload title media_type u = do
    extracted ← extract uni u.bytes media_type u.extractor u.limits
    elim extracted [
      | markdown text ↦ (do chunks ← chunk_markdown uni title text u.chunking; ok (chunks, 0))
      | paged read ↦ (do
        chunks ← chunk_pages uni title (map clean_page read.pages) read.outline u.chunking
        ok (chunks, length (map clean_page read.pages)))
    ]

module _ (uni : Unicode) (clock : Date) where
  unfoldable pub park : Str → Str → ℕ → List KbChunk → ℕ → Date → Documents → Documents × Ended
  unfolding save_draft fail_internally gone estimate_tokens
  park owner_key document_id number chunks pages expires_at st =
      elim (save_draft clock owner_key document_id number chunks pages (estimate_tokens chunks)
        expires_at st) [
          | raise e ↦ fail_internally uni clock owner_key document_id number (raised e) st
          | ok saved ↦ (
            saved.0,
            returned (
                if saved.1
                then record (outcome ingest_awaiting document_id (some number)) {
                  chunks = length chunks;
                  pages = pages;
                  estimated_tokens = estimate_tokens chunks;
                  expires_at = some expires_at;
                }
                else outcome
                    (if gone owner_key document_id saved.0
                      then ingest_deleted
                      else ingest_superseded)
                    document_id (some number)),
          )
        ]

  -- From the version that was begun on. `meanwhile` is what others do to the store while the
  -- extractor is waited for.
  unfoldable pub prepare_begun :
      (Documents → Documents)
      → Date
      → Str
      → Str
      → KbDocument
      → ℕ
      → Upload
      → Documents
      → Documents × Ended
  unfolding chunk_upload fail fail_internally park
  prepare_begun meanwhile moment owner_key document_id doc number u st =
      elim (chunk_upload uni doc.row.title doc.row.media_type u) [
        | raise e ↦ elim (reason_of e) [
          | none ↦
              if is_cancelled e
              then (meanwhile st, raised e)
              else fail_internally uni clock owner_key document_id number (raised e) (meanwhile st)
          | some reason ↦
              fail uni clock owner_key document_id number reason (no_usage 0 0) (meanwhile st)
        ]
        | ok cut ↦ elim cut.0 [
          | [] ↦
              fail uni clock owner_key document_id number reason_no_text (no_usage cut.1 0)
                (meanwhile st)
          | c ∷ cs ↦
              park owner_key document_id number (c ∷ cs) cut.1 (moment + u.ttl) (meanwhile st)
        ]
      ]

module _ (uni : Unicode) (sha256 : List ℕ → Str) (clock : Date) where
  -- The version that was begun on, if there is one.
  unfoldable pub prepare_version :
      (Documents → Documents)
      → Date
      → Str
      → Str
      → KbDocument
      → Upload
      → Bool
      → Documents
      → Option KbVersion
      → Documents × Ended
  unfolding prepare_begun fail
  prepare_version meanwhile moment owner_key document_id doc u oversize st none =
      (st, returned (outcome ingest_deleted document_id none))
  prepare_version meanwhile moment owner_key document_id doc u oversize st (some v) =
      if same_state v.row.state kb_ready
      then (
        st,
        returned (record (outcome ingest_unchanged document_id (some v.row.version)) {
          chunks = v.row.chunks;
          pages = v.row.pages;
        }),
      )
      else (if oversize
          then fail uni clock owner_key document_id v.row.version reason_over_limit (no_usage 0 0)
              st
          else prepare_begun uni clock meanwhile moment owner_key document_id doc v.row.version u
              st)

  -- The document as it was read, if it was found.
  unfoldable pub prepare_document :
      (Documents → Documents)
      → Date
      → Str
      → Str
      → Upload
      → Documents
      → Option KbDocument
      → Documents × Ended
  unfolding begin_upload prepare_version
  prepare_document meanwhile moment owner_key document_id u st none =
      (st, returned (outcome ingest_deleted document_id none))
  prepare_document meanwhile moment owner_key document_id u st (some doc) =
      attempt (begin_upload sha256 clock moment owner_key document_id u st) st λ b.
        prepare_version meanwhile moment owner_key document_id doc u b.oversize b.store b.version

  unfoldable pub prepare :
      (Documents → Documents) → Str → Str → Upload → Option Date → Documents → Documents × Ended
  unfolding require_owner require_model get_document prepare_document
  prepare meanwhile owner_key document_id u now st =
      attempt (require_owner owner_key >> require_model u.embed_model st.embedding_dim) st λ _.
        attempt (get_document owner_key document_id st) st
          (prepare_document meanwhile (date_or clock now) owner_key document_id u st)
