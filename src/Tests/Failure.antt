-- ===== src/Tests/Failure.antt =====
-- The theorems of Documents.Ingest.Failure at sample data.
use cogno_engram.Prelude.{◌≡◌, ◌⊎◌, true, false, some, [], ◌∷◌, ◌++◌, if◌then◌else◌, any}
use cogno_engram.Text.{Str, str_eq, codes}
use cogno_engram.Errors.{ok}
use cogno_engram.Types.{Date}
use cogno_engram.Documents.Rules.{
  same_state, kb_ready, kb_error, valid_kb_reasons, tombstone_failed,
}
use cogno_engram.Documents.State.{VersionRow, Documents, owned_version, chunks_at}
use cogno_engram.Documents.Ingest.{fail_version}
use cogno_engram.Tests.Samples.{plain}
use cogno_engram.Tests.DocumentSamples.{owner, doc_id, library, owner_allowed}
use cogno_engram.Documents.Ingest.Failure.{failed, fail_version-ends}

fail_version-ends_example :
    ((fail_version plain 9 owner doc_id 2 (codes "timeout") library ≡ ok (library, false))
      × ((v : VersionRow)
          → owned_version owner doc_id 2 library ≡ some v
          → same_state v.state kb_ready ≡ true))
    ⊎ ((v : VersionRow) × (st' : Documents) × (kept : Str) × (owned_version owner doc_id 2 library
          ≡ some v)
        × (same_state v.state kb_ready ≡ false)
        × (fail_version plain 9 owner doc_id 2 (codes "timeout") library ≡ ok (st', true))
        × (any (str_eq kept) valid_kb_reasons ≡ true)
        × (owned_version owner doc_id 2 st' ≡ some (failed 9 kept v))
        × (chunks_at v.document_id v.version st' ≡ [])
        × (st'.tombstones ≡ (
            if same_state v.state kb_error
            then library.tombstones
            else library.tombstones
              ++ record {
                owner_key = owner;
                document_id = v.document_id;
                versions = v.version ∷ [];
                kind = tombstone_failed;
                actor = [];
                removed_at = 9;
                reason = kept;
              }
                ∷ []))
        × ((later : Date) (other : Str)
            → (st'' : Documents) × (fail_version plain later owner doc_id 2 other st'
                ≡ ok (st'', true))
              × (st''.tombstones ≡ st'.tombstones)))
fail_version-ends_example =
    fail_version-ends plain 9 owner doc_id 2 (codes "timeout") library owner_allowed
