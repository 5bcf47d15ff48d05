-- ===== src/Ingestion/Serving.antt =====
-- ingest.py, `commit`: a draft that is confirmed in time is served.
use cogno_engram.Prelude.{
  map, ℕ, ◌≡◌, refl, ◌∙◌, ap, true, false, Option, some, List, length, leb, find?,
}
use cogno_engram.Text.{Str, str_eq}
use cogno_engram.Folding.{Unicode}
use cogno_engram.Errors.{ok, ◌>>◌}
use cogno_engram.Types.{Date}
use cogno_engram.Store.State.{date_or}
use cogno_engram.Documents.Rules.{
  require_owner, require_model, kb_awaiting_confirmation, kb_ready, claim_ok,
}
use cogno_engram.Documents.State.{
  Documents, DocRow, DraftRow, VersionRow, KbChunk, KbDocument, owned, owned_version, version_at,
  is_draft, kb_version, kb_document, chunks_at,
}
use cogno_engram.Documents.Manage.{get_document}
use cogno_engram.Documents.Ingest.{get_version, put_chunks, is_newest}
use cogno_engram.Documents.Drafts.{KbDraft, without_vector, claim_draft}
use cogno_engram.Ingestion.Outcome.{IngestOutcome, ingest_ready, returned}
use cogno_engram.Ingestion.Failing.{attempt}
use cogno_engram.Ingestion.Commit.{
  Host, approved, approves, commit_claimed, commit_awaiting, commit_prepared, commit_read,
  commit_document, commit,
}
use cogno_engram.Ingestion.Staged.{AreEmbedded, Embeds}
use cogno_engram.Ingestion.Claimed.{
  handed_over, claimed, claim_draft-claims, found, commit_claimed-ready,
}

module _ (uni : Unicode) (clock : Date) (meanwhile : Documents → Documents) (host : Host)
    (owner document_id : Str) (n : ℕ) (embed_model : Str) (now : Option Date) (st : Documents) where
  commit_reads :
      (row : DocRow) (v : VersionRow)
      → require_owner owner ≡ ok tt
      → require_model embed_model st.embedding_dim ≡ ok tt
      → owned owner document_id st ≡ some row
      → owned_version owner document_id n st ≡ some v
      → commit uni clock meanwhile host owner document_id n embed_model now st
        ≡ commit_prepared uni clock meanwhile host owner document_id n embed_model now
            (kb_document st row)
            (kb_version st v)
            st
  unfolding commit commit_document commit_read get_document get_version
  commit_reads row v allowed fits owns there =
      let doc : get_document owner document_id st ≡ ok (some (kb_document st row)) =
        rw (get_document, allowed, owns) refl in
      let version : get_version owner document_id n st ≡ ok (some (kb_version st v)) =
        rw (get_version, allowed, there) refl in
      ap
        (λ r. attempt (r >> require_model embed_model st.embedding_dim) st (λ _.
          attempt (get_document owner document_id st) st
            (commit_document uni clock meanwhile host owner document_id n embed_model now st)))
        allowed
      ∙ ap
          (λ r. attempt r st (λ _.
            attempt (get_document owner document_id st) st
              (commit_document uni clock meanwhile host owner document_id n embed_model now st)))
          fits
      ∙ ap
          (λ r.
            attempt r st
              (commit_document uni clock meanwhile host owner document_id n embed_model now st))
          doc
      ∙ ap
          (λ r. attempt r st (
            commit_read uni clock meanwhile host owner document_id n embed_model now st
              (kb_document st row)))
          version

  commit_prepared-claims :
      (doc : KbDocument) (v : VersionRow) (claimed : Documents) (draft : KbDraft)
      → str_eq v.embed_model embed_model ≡ true
      → v.state ≡ kb_awaiting_confirmation
      → claim_draft owner document_id n (date_or clock now) st ≡ ok (claimed, claim_ok, some draft)
      → commit_prepared uni clock meanwhile host owner document_id n embed_model now doc
          (kb_version st v)
          st
        ≡ commit_claimed uni clock meanwhile host owner document_id n draft claimed
  unfolding commit_prepared commit_awaiting kb_version
  commit_prepared-claims doc v claimed draft same waiting claim =
      rw (commit_prepared, same, waiting, commit_awaiting, claim) refl

-- A draft that is awaiting confirmation, of the newest version, is served by a commit before it
-- expires: where the gate approves the estimate, the pace lets every call through, the embedder
-- answers vectors of the store's width, and nobody changes the store meanwhile, the commit answers
-- ready with one call of the embedder for each chunk of the draft, the document serves the version,
-- the version is ready, and onto what was staged for it before the chunks of the draft are put under
-- their ordinals, each with the vector of the store's width that the embedder answered for its text.
pub commit-serves :
    (uni : Unicode) (clock : Date) (meanwhile : Documents → Documents) (host : Host)
    (owner document_id : Str) (n : ℕ) (embed_model : Str) (now : Option Date) (st : Documents)
    (row : DocRow) (v : VersionRow) (d : DraftRow) (e : Date)
    → require_owner owner ≡ ok tt
    → require_model embed_model st.embedding_dim ≡ ok tt
    → owned owner document_id st ≡ some row
    → version_at row.id n st ≡ some v
    → str_eq v.embed_model embed_model ≡ true
    → v.state ≡ kb_awaiting_confirmation
    → find? (is_draft v.document_id v.version) st.drafts ≡ some d
    → v.expires_at ≡ some e
    → leb e (date_or clock now) ≡ false
    → is_newest row.id v st ≡ true
    → approves host v.estimated_tokens ≡ approved
    → Embeds host st.embedding_dim
    → ((s : Documents) → meanwhile s ≡ s)
    → (st' : Documents) × (o : IngestOutcome) × (commit uni clock meanwhile host owner document_id n
          embed_model now st
        ≡ (st', returned o))
      × (o.status ≡ ingest_ready)
      × (o.chunks ≡ length d.chunks)
      × (o.embedding_calls ≡ length d.chunks)
      × (owned owner document_id st'
          ≡ some (record row { active_version = some n; updated_at = some clock }))
      × (w : VersionRow) × (version_at row.id n st' ≡ some w)
      × (w.state ≡ kb_ready)
      × (es : List KbChunk) × AreEmbedded host st.embedding_dim 0 d.chunks es
      × (map without_vector es ≡ map without_vector d.chunks)
      × (chunks_at row.id n st' ≡ put_chunks es (chunks_at row.id n st))
commit-serves uni clock meanwhile host owner document_id n embed_model now st row v d e allowed fits
      owns there same waiting drafted expires young newest approves_it embeds alone =
    let (st', o, ends, status, chunks, calls, served, w, there', ready, es, made, texts, staged) =
      commit_claimed-ready owner document_id n (date_or clock now) st row v d e allowed owns there
        drafted expires young newest uni clock meanwhile host approves_it embeds alone in
    let claim =
      claim_draft-claims owner document_id n (date_or clock now) st row v d e allowed owns there
        drafted expires young newest in
    let read =
      found owner document_id n (date_or clock now) st row v d e allowed owns there drafted expires
        young newest in
    (
      st',
      o,
      commit_reads uni clock meanwhile host owner document_id n embed_model now st row v allowed
            fits owns read
          ∙ commit_prepared-claims uni clock meanwhile host owner document_id n embed_model now st
              (kb_document st row) v (claimed (date_or clock now) v st) (handed_over v d e) same
              waiting claim
          ∙ ends,
      status,
      chunks,
      calls,
      served,
      w,
      there',
      ready,
      es,
      made,
      texts,
      staged,
    )
