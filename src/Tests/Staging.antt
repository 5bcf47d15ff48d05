-- ===== src/Tests/Staging.antt =====
-- The theorems of Documents.Ingest.Staging at sample data.
use cogno_engram.Prelude.{◌≡◌, refl, ◌⊎◌, true, false, not, some, List, [], ◌∷◌, any}
use cogno_engram.Text.{codes}
use cogno_engram.Errors.{ok, raise, bad_vector}
use cogno_engram.Documents.Rules.{same_state, kb_processing}
use cogno_engram.Documents.State.{VersionRow, KbChunk, Documents, owned_version, chunks_at}
use cogno_engram.Documents.Ingest.{put_chunks, add_chunks, is_vector}
use cogno_engram.Prelude.Int.{pos}
use cogno_engram.Tests.DocumentSamples.{owner, doc_id, chunk, library, owner_allowed}
use cogno_engram.Documents.Ingest.Staging.{ChunksDistinct, add_chunks-ChunksDistinct}

abbrev one_chunk : List KbChunk
one_chunk = record (chunk 5 (codes "x")) { embedding = some (pos 1 ∷ []) } ∷ []

add_chunks-ChunksDistinct_example :
    ((add_chunks owner doc_id 2 one_chunk library ≡ (library, ok false))
      × ((v : VersionRow)
          → owned_version owner doc_id 2 library ≡ some v
          → same_state v.state kb_processing ≡ false))
    ⊎ ((v : VersionRow) × (owned_version owner doc_id 2 library ≡ some v)
        × (same_state v.state kb_processing ≡ true)
        × (((any (λ c. not (is_vector library.embedding_dim c.embedding)) one_chunk ≡ true)
              × (add_chunks owner doc_id 2 one_chunk library ≡ (library, raise bad_vector)))
            ⊎ ((st' : Documents) × (add_chunks owner doc_id 2 one_chunk library ≡ (st', ok true))
                × (any (λ c. not (is_vector library.embedding_dim c.embedding)) one_chunk ≡ false)
                × (chunks_at v.document_id v.version st'
                    ≡ put_chunks one_chunk (chunks_at v.document_id v.version library))
                × ChunksDistinct st'.chunks
                × (st'.docs ≡ library.docs)
                × (st'.versions ≡ library.versions))))
add_chunks-ChunksDistinct_example =
    add_chunks-ChunksDistinct owner doc_id 2 one_chunk library owner_allowed
      (((refl, (refl, tt)), ((refl, tt), (tt, tt))), ((tt, tt), tt))
