-- ===== src/Ingestion/Whole.antt =====
-- ingest.py: `ingest`, `reindex`, `discard_draft`, `interrupt_stale` and `expire_drafts`.
use cogno_engram.Prelude.{ℕ, ◌-◌, ◌*◌, Bool, true, false, Option, none, some, List, if◌then◌else◌}
use cogno_engram.Text.{Str}
use cogno_engram.Folding.{Unicode}
use cogno_engram.Errors.{Result, ◌>>◌}
use cogno_engram.Types.{Date}
use cogno_engram.Store.State.{date_or}
use cogno_engram.Documents.Rules.{require_owner, DiscardOutcome}
use cogno_engram.Documents.State.{Documents}
use cogno_engram.Documents.Manage.{get_original}
use cogno_engram.Documents.Drafts
use cogno_engram.Ingestion.Outcome.{
  IngestStatus, ingest_awaiting, ingest_deleted, ingest_no_original, Ended, returned, outcome,
}
use cogno_engram.Ingestion.Failing.{attempt, gone}
use cogno_engram.Ingestion.Prepare.{Upload, prepare}
use cogno_engram.Ingestion.Commit.{Host, commit}

abbrev pub is_awaiting : IngestStatus → Bool
is_awaiting ingest_awaiting = true
is_awaiting _ = false

-- The version of a draft that is ready to be confirmed.
abbrev pub awaiting_number : Ended → Option ℕ
awaiting_number (returned o) = if is_awaiting o.status then o.version else none
awaiting_number _ = none

module _ (uni : Unicode) (sha256 : List ℕ → Str) (clock : Date) where
  -- What others do while the file is read, and while it is embedded.
  unfoldable pub ingest :
      (Documents → Documents)
      → (Documents → Documents)
      → Host
      → Str
      → Str
      → Upload
      → Documents
      → Documents × Ended
  unfolding prepare commit
  ingest reading embedding host owner_key document_id u st =
      let prepared = prepare uni sha256 clock reading owner_key document_id u none st in
      elim (awaiting_number prepared.1) [
        | none ↦ prepared
        | some number ↦
            commit uni clock embedding host owner_key document_id number u.embed_model none
              prepared.0
      ]

  -- The upload's bytes are the stored original.
  unfoldable pub reindex :
      (Documents → Documents)
      → (Documents → Documents)
      → Host
      → Str
      → Str
      → Upload
      → Documents
      → Documents × Ended
  unfolding get_original gone ingest
  reindex reading embedding host owner_key document_id u st =
      attempt (get_original owner_key document_id none st) st λ read. elim read.1 [
        | none ↦ (
          read.0,
          returned (
              outcome
                (if gone owner_key document_id read.0 then ingest_deleted else ingest_no_original)
                document_id none),
        )
        | some bytes ↦
            ingest reading embedding host owner_key document_id (record u { bytes = bytes }) read.0
      ]

unfoldable pub withdraw_draft :
    Date → Str → Str → ℕ → Str → Documents → Result (Documents × DiscardOutcome)
unfolding require_owner Drafts.discard_draft
withdraw_draft clock owner_key document_id version actor st = do
  require_owner owner_key
  Drafts.discard_draft clock owner_key document_id version actor st

-- `STALE_PROCESSING`, in microseconds
abbrev pub stale_processing : ℕ
stale_processing = 30 * 60 * 1000000

unfoldable pub sweep_stale : Date → Option Date → ℕ → Documents → Documents × ℕ
unfolding Drafts.interrupt_stale
sweep_stale clock older_than limit st =
    Drafts.interrupt_stale clock (elim older_than [ none ↦ clock - stale_processing | some d ↦ d ])
      limit st

unfoldable pub sweep_expired : Date → Option Date → ℕ → Documents → Documents × ℕ
unfolding Drafts.expire_drafts
sweep_expired clock now limit st = Drafts.expire_drafts (date_or clock now) limit st
