-- ===== src/Ingestion/Staged.antt =====
-- ingest.py, `commit`: the loops over the chunks of a draft, embedding and staging.
use cogno_engram.Prelude.{
  ◌≤◌, length-drop, take-drop, map, ℕ, zero, suc, ◌+◌, ◌≡◌, refl, sym, ◌∙◌, ap, Bool, true, not,
  some, List, [], ◌∷◌, arith, length, ◌==◌, All, take, drop, any_of_All-not, All-take, All-map,
}
use cogno_engram.Text.{Str}
use cogno_engram.Errors.{ok}
use cogno_engram.Types.{Vector}
use cogno_engram.Documents.Rules.{require_owner, same_state, kb_processing}
use cogno_engram.Documents.State.{
  Documents, VersionRow, KbChunk, owned, owned_version, version_at, chunks_at,
}
use cogno_engram.Documents.Ingest.{add_chunks, is_vector, stage, put_chunks}
use cogno_engram.Documents.Ingest.Staging.{chunks_at-stage, put_chunks-append}
use cogno_engram.Documents.Drafts.{without_vector}
use cogno_engram.Ingestion.Outcome.{Usage, tokens_of, replied}
use cogno_engram.Ingestion.Commit.{
  Host, counted, embedded, embed_chunks, stage_batch, stage_batches,
}
use cogno_engram.Ingestion.Settled.{HasVector, All-drop}

-- Every call of the embedder answers a vector of the width, and the pace lets every call through.
abbrev pub Embeds : Host → ℕ → Type 0
Embeds host dim =
    (k : ℕ) (text : Str)
    → (host.paces k (tokens_of text) ≡ replied tt)
      × (answer : Vector × ℕ × Bool) × (host.embed k text ≡ replied answer)
      × ((length answer.0 == dim) ≡ true)

-- Each chunk with the vector that the embedder answered for its text, the calls numbered from `k` on.
abbrev pub AreEmbedded : Host → ℕ → ℕ → List KbChunk → List KbChunk → Type 0
AreEmbedded host dim k [] [] = Unit
AreEmbedded host dim k (c ∷ cs) (e ∷ es) =
    ((answer : Vector × ℕ × Bool) × (host.embed k c.content ≡ replied answer)
      × (e ≡ record c { embedding = some answer.0 })
      × (HasVector dim e))
    × AreEmbedded host dim (k + 1) cs es
AreEmbedded host dim k cs es = ⊥

-- One call for each chunk, and every chunk gets its vector.
pub embed_chunks-embedded :
    (host : Host) (dim : ℕ) (cs : List KbChunk) (u : Usage)
    → Embeds host dim
    → (es : List KbChunk) × (w : Usage) × (embed_chunks host dim cs u ≡ embedded es w)
      × (map without_vector es ≡ map without_vector cs)
      × (length es ≡ length cs)
      × (w.embedding_calls ≡ u.embedding_calls + length cs)
      × (w.pages ≡ u.pages)
      × All (HasVector dim) es
      × AreEmbedded host dim u.embedding_calls cs es
unfolding embed_chunks
embed_chunks-embedded host dim [] u h = ([], u, refl, refl, refl, omega arith, refl, tt, tt)
embed_chunks-embedded host dim (c ∷ cs) u h =
    let (paced, answer, answered, wide) = h u.embedding_calls c.content in
    let (es, w, rest, texts, same, calls, pages, vectors, embeds) =
      embed_chunks-embedded host dim cs (counted u answer.1 answer.2) h in
    (
      record c { embedding = some answer.0 } ∷ es,
      w,
      rw (embed_chunks, paced, answered, wide, rest) refl,
      ap (λ t. without_vector c ∷ t) texts,
      omega (arith, same),
      omega (arith, calls),
      pages,
      (wide, vectors),
      ((answer, answered, refl, wide), embeds),
    )

-- Batch after batch is staged while the version is in progress, and documents and versions stay.
pub stage_batches-stages :
    (fuel : ℕ) (owner document_id : Str) (n : ℕ) (cs : List KbChunk) (st : Documents)
    {v : VersionRow}
    → require_owner owner ≡ ok tt
    → owned_version owner document_id n st ≡ some v
    → same_state v.state kb_processing ≡ true
    → All (HasVector st.embedding_dim) cs
    → length cs ≤ fuel
    → (st' : Documents) × (stage_batches fuel owner document_id n cs st ≡ (st', ok true))
      × (st'.docs ≡ st.docs)
      × (st'.versions ≡ st.versions)
      × (chunks_at v.document_id v.version st'
          ≡ put_chunks cs (chunks_at v.document_id v.version st))
unfolding put_chunks stage_batches add_chunks stage owned_version owned version_at
stage_batches-stages zero owner document_id n [] st allowed found processing h k =
    (st, refl, refl, refl, refl)
stage_batches-stages zero owner document_id n (c ∷ cs) st allowed found processing h k =
    absurd (omega arith)
stage_batches-stages (suc fuel) owner document_id n [] st allowed found processing h k =
    (st, refl, refl, refl, refl)
stage_batches-stages (suc fuel) owner document_id n (c ∷ cs) st {v} allowed found processing h k =
    let batch = take stage_batch (c ∷ cs) in
    let good =
      any_of_All-not (λ c. not (is_vector st.embedding_dim c.embedding)) batch
        (All-map (HasVector st.embedding_dim) _ batch (λ c k. ap not k)
          (All-take (HasVector st.embedding_dim) stage_batch (c ∷ cs) h)) in
    let st1 = stage v.document_id v.version batch st in
    let rest = drop stage_batch (c ∷ cs) in
    let (st', answer, docs, versions, chunks) =
      stage_batches-stages fuel owner document_id n (drop stage_batch (c ∷ cs)) st1 {v = v} allowed
        found processing (All-drop (HasVector st.embedding_dim) stage_batch (c ∷ cs) h)
        (omega (arith, length-drop stage_batch (c ∷ cs), k)) in
    let first : add_chunks owner document_id n batch st ≡ (st1, ok true) =
      rw (add_chunks, allowed, found, processing, good) refl in
    (
      st',
      rw (stage_batches, first, first) answer,
      docs,
      versions,
      chunks
          ∙ ap (put_chunks rest) (chunks_at-stage v.document_id v.version batch st)
          ∙ sym (put_chunks-append batch rest (chunks_at v.document_id v.version st))
          ∙ ap (λ xs. put_chunks xs (chunks_at v.document_id v.version st))
              (sym (take-drop stage_batch (c ∷ cs))),
    )
