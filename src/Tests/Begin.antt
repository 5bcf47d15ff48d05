-- ===== src/Tests/Begin.antt =====
-- The theorems of Documents.Ingest.Begin at sample data.
use cogno_engram.Prelude.{
  ℕ, ◌≡◌, refl, ◌⊎◌, true, Option, none, some, [], ◌∷◌, ◌++◌, find?, ltb, All,
}
use cogno_engram.Text.{str_eq, codes, is_space}
use cogno_engram.Errors.{ok}
use cogno_engram.Store.State.{date_or}
use cogno_engram.Documents.Rules.{require_model, model_dimensions, split_last_at}
use cogno_engram.Documents.State.{
  version_at, kb_version, VersionRow, Documents, owned, versions_of, KbVersion,
}
use cogno_engram.Documents.Ingest.{begin_version, new_version, same_upload}
use cogno_engram.Tests.DocumentSamples.{owner, doc_id, manual, library, owner_allowed}
use cogno_engram.Documents.Ingest.Numbers.{KeysUnique}
use cogno_engram.Documents.Ingest.Reuse.{Reused}
use cogno_engram.Documents.Ingest.Begin.{begin_version_unique}

model_allowed : require_model (codes "m@1") library.embedding_dim ≡ ok tt
unfolding require_model model_dimensions split_last_at is_space
model_allowed = refl

found_manual : owned owner doc_id library ≡ some manual
unfolding owned str_eq
found_manual = refl

library-KeysUnique : KeysUnique library.versions
unfolding str_eq
library-KeysUnique = ((refl, tt), (tt, tt))

begin_version_unique_example :
    (st' : Documents) × (answer : Option KbVersion) × (begin_version 9 owner doc_id
        (codes "cd")
        (codes "m@1")
        3
        none
        none
        library
      ≡ ok (st', answer))
    × KeysUnique st'.versions
    × (((v : VersionRow) × (find?
              (same_upload (codes "cd") (codes "m@1"))
              (versions_of manual.id library)
            ≡ some v)
          × (w : VersionRow) × (version_at manual.id v.version st' ≡ some w)
          × (answer ≡ some (kb_version st' w))
          × Reused (date_or 9 none) manual v w library st')
        ⊎ ((n : ℕ) × (find? (same_upload (codes "cd") (codes "m@1")) (versions_of manual.id library)
              ≡ none)
            × (st'.versions
                ≡ library.versions
                  ++ new_version manual.id n (codes "cd") (codes "m@1") 3 9 (date_or 9 none) ∷ [])
            × (answer
                ≡ some (
                    kb_version st'
                      (new_version manual.id n (codes "cd") (codes "m@1") 3 9 (date_or 9 none))))
            × All
                (λ w. str_eq w.document_id manual.id ≡ true → ltb w.version n ≡ true)
                library.versions))
begin_version_unique_example =
    begin_version_unique 9 owner doc_id (codes "cd") (codes "m@1") 3 none none library manual
      owner_allowed model_allowed refl found_manual library-KeysUnique
