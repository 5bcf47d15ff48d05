-- ===== src/Ingestion/Failing.antt =====
-- ingest.py, `_fail`, and how a call goes on where a call of the store raises.
use cogno_engram.Prelude.{ℕ, Bool, true, false, not, ◌&&◌, none, some, if◌then◌else◌}
use cogno_engram.Text.{Str}
use cogno_engram.Folding.{Unicode}
use cogno_engram.Errors.{Result, ok, raise}
use cogno_engram.Types.{Date}
use cogno_engram.Documents.Rules.{reason_internal}
use cogno_engram.Documents.State.{Documents}
use cogno_engram.Documents.Manage.{get_document}
use cogno_engram.Documents.Ingest.{fail_version}
use cogno_engram.Ingestion.Outcome.{
  ingest_error, ingest_deleted, Usage, Ended, returned, raised, outcome_of_failure,
}

-- A call that raises ends the call around it.
abbrev pub attempt {ℓ} :
    {A : Type ℓ} → Result A → Documents → (A → Documents × Ended) → Documents × Ended
attempt (raise e) st go_on = (st, raised e)
attempt (ok a) st go_on = go_on a

-- `await store.get_document(owner_key, document_id) is None`
unfoldable pub gone : Str → Str → Documents → Bool
unfolding get_document
gone owner_key document_id st = elim (get_document owner_key document_id st) [
  | raise _ ↦ false
  | ok found ↦ elim found [ none ↦ true | some _ ↦ false ]
]

module _ (uni : Unicode) (clock : Date) where
  unfoldable pub fail : Str → Str → ℕ → Str → Usage → Documents → Documents × Ended
  unfolding fail_version gone outcome_of_failure
  fail owner_key document_id version reason usage st =
      attempt (fail_version uni clock owner_key document_id version reason st) st λ ended.
        let status =
          if not ended.1 && gone owner_key document_id ended.0
          then ingest_deleted
          else ingest_error in
        (ended.0, returned (outcome_of_failure uni status document_id version reason usage))

  -- `await store.fail_version(…, reason=REASON_INTERNAL)`, and what was raised is raised again.
  unfoldable pub fail_internally : Str → Str → ℕ → Ended → Documents → Documents × Ended
  unfolding fail_version
  fail_internally owner_key document_id version again st =
      attempt (fail_version uni clock owner_key document_id version reason_internal st) st
        λ ended. (ended.0, again)
