-- ===== src/Tests/Complete.antt =====
-- The theorems of Documents.Removal.Complete at sample data.
use cogno_engram.Prelude.{◌≡◌, true, false, not, none, some, [], ◌∷◌, ◌++◌, filter, ◌⊎◌}
use cogno_engram.Text.{str_eq, codes}
use cogno_engram.Errors.{ok}
use cogno_engram.Documents.Rules.{tombstone_deleted}
use cogno_engram.Documents.State.{DocRow, Documents, owned}
use cogno_engram.Documents.Removal.{delete_document}
use cogno_engram.Tests.DocumentSamples.{owner, doc_id, library, owner_allowed, library-Attached}
use cogno_engram.Documents.Removal.Complete.{Attached, numbers, delete_document_complete}

delete_document_complete_example :
    (st' : Documents) × Attached st'
    × (((owned owner doc_id library ≡ none)
          × (st' ≡ library)
          × (delete_document 9 owner doc_id (codes "ana") library ≡ ok (st', false)))
        ⊎ ((row : DocRow) × (owned owner doc_id library ≡ some row)
            × (delete_document 9 owner doc_id (codes "ana") library ≡ ok (st', true))
            × (st'.docs ≡ filter (λ d. not (str_eq d.id row.id)) library.docs)
            × (st'.versions ≡ filter (λ v. not (str_eq v.document_id row.id)) library.versions)
            × (st'.chunks ≡ filter (λ c. not (str_eq c.document_id row.id)) library.chunks)
            × (st'.originals ≡ filter (λ o. not (str_eq o.document_id row.id)) library.originals)
            × (st'.drafts ≡ filter (λ d. not (str_eq d.document_id row.id)) library.drafts)
            × (st'.tombstones
                ≡ library.tombstones
                  ++ record {
                    owner_key = row.owner_key;
                    document_id = row.id;
                    versions = numbers row.id library.versions;
                    kind = tombstone_deleted;
                    actor = (codes "ana");
                    removed_at = 9;
                    reason = [];
                  }
                    ∷ [])))
delete_document_complete_example =
    delete_document_complete 9 owner doc_id (codes "ana") library owner_allowed library-Attached
