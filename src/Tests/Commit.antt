-- ===== src/Tests/Commit.antt =====
-- The theorems of Documents.Ingest.Commit at sample data.
use cogno_engram.Prelude.{
  ◌≡◌, refl, ◌⊎◌, true, false, not, ◌&&◌, some, if◌then◌else◌, filter, length, leb, All,
}
use cogno_engram.Text.{str_eq}
use cogno_engram.Errors.{ok}
use cogno_engram.Documents.Rules.{
  kb_processing, kb_ready, same_state, commit_ready, commit_superseded,
}
use cogno_engram.Documents.State.{Documents, is_version, owned, version_at, chunks_at}
use cogno_engram.Documents.Ingest.{is_newest, is_active, commit_version}
use cogno_engram.Tests.DocumentSamples.{owner, doc_id, manual, version_row, library, owner_allowed}
use cogno_engram.Documents.Ingest.Swap.{ready_version}
use cogno_engram.Documents.Ingest.Commit.{commit_version-serves}

owned-manual : owned owner doc_id library ≡ some manual
unfolding owned str_eq
owned-manual = refl

second_version : version_at doc_id 2 library ≡ some (version_row 2 kb_processing)
unfolding version_at str_eq
second_version = refl

commit_version-serves_example :
    (st' : Documents) × (((commit_version 9 owner doc_id 2 0 library ≡ ok (st', commit_ready))
        × (is_newest manual.id (version_row 2 kb_processing) library ≡ true)
        × (same_state (version_row 2 kb_processing).state kb_processing ≡ true)
        × (owned owner doc_id st'
            ≡ some (record manual {
              active_version = some (version_row 2 kb_processing).version;
              updated_at = some 9;
            }))
        × (version_at manual.id (version_row 2 kb_processing).version st'
            ≡ some (
                ready_version 9 0
                  (length (chunks_at manual.id (version_row 2 kb_processing).version library))
                  (version_row 2 kb_processing)))
        × All
            (λ w.
              str_eq w.document_id manual.id ≡ true
              → leb (version_row 2 kb_processing).version w.version ≡ true)
            st'.versions
        × (chunks_at manual.id (version_row 2 kb_processing).version st'
            ≡ chunks_at manual.id (version_row 2 kb_processing).version library))
      ⊎ ((commit_version 9 owner doc_id 2 0 library ≡ ok (st', commit_superseded))
          × (is_newest manual.id (version_row 2 kb_processing) library ≡ false)
          × (st'.docs ≡ library.docs)
          × (st'.versions
              ≡ filter
                  (λ w. not (is_version manual.id (version_row 2 kb_processing).version w))
                  library.versions))
      ⊎ ((is_newest manual.id (version_row 2 kb_processing) library ≡ true)
          × (same_state (version_row 2 kb_processing).state kb_processing ≡ false)
          × (st' ≡ library)
          × (commit_version 9 owner doc_id 2 0 library
              ≡ ok (
                st',
                if same_state (version_row 2 kb_processing).state kb_ready
                      && is_active manual (version_row 2 kb_processing)
                    then commit_ready
                    else commit_superseded,
              ))))
commit_version-serves_example =
    commit_version-serves 9 owner doc_id 2 0 manual (version_row 2 kb_processing) library
      owner_allowed owned-manual second_version
