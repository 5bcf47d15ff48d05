-- ===== src/Ingestion/Claimed.antt =====
-- ingest.py, `commit`: from the claim of the draft to the version that is served.
use cogno_engram.Prelude.{
  map, ℕ, ◌≡◌, refl, sym, ◌∙◌, ap, true, false, not, some, List, arith, length, leb, All, find?,
  filter, inl, inr,
}
use cogno_engram.Text.{Str}
use cogno_engram.Folding.{Unicode}
use cogno_engram.Errors.{ok}
use cogno_engram.Types.{Date}
use cogno_engram.Documents.Rules.{require_owner, kb_processing, kb_ready, claim_ok}
use cogno_engram.Documents.State.{
  Documents, DocRow, DraftRow, VersionRow, KbChunk, owned, owned_version, version_at, is_version,
  is_draft, drop_draft, set_version, chunks_at,
}
use cogno_engram.Documents.State.Ownership.{
  find?-set_version, owned_version-set, owned_version-drafts,
}
use cogno_engram.Documents.State.Dropping.{version_at-number, version_at-document}
use cogno_engram.Documents.Ingest.{put_chunks, is_newest}
use cogno_engram.Documents.Ingest.Begun.{owned-docs}
use cogno_engram.Documents.Ingest.Newest.{is_newest-set}
use cogno_engram.Documents.Ingest.Swap.{ready_version}
use cogno_engram.Documents.Ingest.Commit.{commit_version-serves}
use cogno_engram.Documents.Drafts.{KbDraft, without_vector, claim_draft, draft_of, has_expired}
use cogno_engram.Ingestion.Outcome.{
  IngestOutcome, ingest_ready, Usage, no_usage, with_usage, returned, outcome,
}
use cogno_engram.Ingestion.Commit.{
  Host, approved, approves, serve, serve_staged, conclude, commit_claimed, done,
}
use cogno_engram.Ingestion.Settled.{HasVector}
use cogno_engram.Ingestion.Staged.{AreEmbedded, Embeds, embed_chunks-embedded, stage_batches-stages}

pub reopened : Date → VersionRow → VersionRow
reopened moment v = record v { state = kb_processing; claimed_at = some moment }

-- The draft of a row, as it is handed over.
pub handed_over : VersionRow → DraftRow → Date → KbDraft
handed_over v d e = record {
  document_id = v.document_id;
  version = v.version;
  embed_model = v.embed_model;
  chunk_count = length d.chunks;
  pages = v.pages;
  estimated_tokens = v.estimated_tokens;
  expires_at = e;
  chunks = d.chunks;
  created_at = d.created_at;
}

pub claimed : Date → VersionRow → Documents → Documents
claimed moment v st =
    set_version v.document_id v.version (reopened moment) (drop_draft v.document_id v.version st)

true_is_not_false : true ≡ false → ⊥
true_is_not_false h = cc

module _ (owner document_id : Str) (n : ℕ) (moment : Date) (st : Documents) (row : DocRow)
    (v : VersionRow) (d : DraftRow) (e : Date) (allowed : require_owner owner ≡ ok tt)
    (owns : owned owner document_id st ≡ some row) (there : version_at row.id n st ≡ some v)
    (drafted : find? (is_draft v.document_id v.version) st.drafts ≡ some d)
    (expires : v.expires_at ≡ some e) (young : leb e moment ≡ false)
    (newest : is_newest row.id v st ≡ true) where
  pub found : owned_version owner document_id n st ≡ some v
  unfolding owned_version
  found = rw (owned_version, owns) there

  pub claim_draft-claims :
      claim_draft owner document_id n moment st
      ≡ ok (claimed moment v st, claim_ok, some (handed_over v d e))
  unfolding claim_draft draft_of claimed reopened handed_over
  claim_draft-claims = rw (claim_draft, allowed, found, drafted, has_expired, expires, young) refl

  claimed-found : owned_version owner document_id n (claimed moment v st) ≡ some (reopened moment v)
  unfolding claimed reopened drop_draft
  claimed-found =
      let dropped = filter (λ x. not (is_draft v.document_id v.version x)) st.drafts in
      owned_version-set owner document_id n (reopened moment) (record st { drafts = dropped })
        (λ d m w. refl) (owned_version-drafts owner document_id n dropped st ∙ found)

  claimed-there : version_at row.id n (claimed moment v st) ≡ some (reopened moment v)
  unfolding claimed reopened drop_draft version_at
  claimed-there = find?-set_version row.id n (reopened moment) st.versions (λ d m w. refl) there

  -- What is staged for the claimed version is served.
  serve-ready :
      (uni : Unicode) (clock : Date) (cs : List KbChunk) (u : Usage)
      → All (HasVector st.embedding_dim) cs
      → (st' : Documents) × (serve uni clock owner document_id n cs u (claimed moment v st)
          ≡ (st', done document_id n u ingest_ready (length cs)))
        × (owned owner document_id st'
            ≡ some (record row { active_version = some n; updated_at = some clock }))
        × (w : VersionRow) × (version_at row.id n st' ≡ some w)
        × (w.state ≡ kb_ready)
        × (chunks_at row.id n st' ≡ put_chunks cs (chunks_at row.id n st))
  unfolding serve serve_staged claimed reopened drop_draft version_at chunks_at
  serve-ready uni clock cs u vectors =
      let (st2, staged, docs, versions, chunks) =
        stage_batches-stages (length cs) owner document_id n cs (claimed moment v st)
          {v = reopened moment v} allowed claimed-found refl vectors (omega arith) in
      let owns2 = owned-docs owner document_id st st2 docs ∙ owns in
      let there2 : version_at row.id n st2 ≡ some (reopened moment v) =
        ap (λ vs. find? (is_version row.id n) vs) versions ∙ claimed-there in
      let newest2 =
        is_newest-set row.id v (reopened moment v) v.document_id v.version (reopened moment) st st2
          (λ w. refl) (λ w. refl) refl versions
        ∙ newest in
      let number = version_at-number row.id n st there in
      let document = version_at-document row.id n st there in
      let (st', cases) =
        commit_version-serves clock owner document_id n u.pages row (reopened moment v) st2 allowed
          owns2 there2 in
      elim cases [
        | inl (answer, _, _, served, ready, _, kept) ↦ (
          st',
          ap (λ s. serve_staged uni clock owner document_id n cs u s.0 s.1) staged
              ∙ (rw (serve_staged, answer) refl),
          served
              ∙ ap (λ k. some (record row { active_version = some k; updated_at = some clock }))
                  number,
          ready_version clock u.pages (length (chunks_at row.id v.version st2)) (reopened moment v),
          ap (λ k. version_at row.id k st') (sym number) ∙ ready,
          refl,
          ap (λ k. chunks_at row.id k st') (sym number)
              ∙ kept
              ∙ ap (λ i. chunks_at i v.version st2) (sym document)
              ∙ chunks
              ∙ ap (λ i. put_chunks cs (chunks_at i v.version st)) document
              ∙ ap (λ k. put_chunks cs (chunks_at row.id k st)) number,
        )
        | inr (inl (_, old, _, _)) ↦ absurd (true_is_not_false (sym newest2 ∙ old))
        | inr (inr (_, other, _, _)) ↦ absurd (true_is_not_false other)
      ]

  -- From the claim on, where the gate approves and the embedder answers.
  pub commit_claimed-ready :
      (uni : Unicode) (clock : Date) (meanwhile : Documents → Documents) (host : Host)
      → approves host v.estimated_tokens ≡ approved
      → Embeds host st.embedding_dim
      → ((s : Documents) → meanwhile s ≡ s)
      → (st' : Documents) × (o : IngestOutcome) × (commit_claimed uni clock meanwhile host owner
            document_id n
            (handed_over v d e)
            (claimed moment v st)
          ≡ (st', returned o))
        × (o.status ≡ ingest_ready)
        × (o.chunks ≡ length d.chunks)
        × (o.embedding_calls ≡ length d.chunks)
        × (owned owner document_id st'
            ≡ some (record row { active_version = some n; updated_at = some clock }))
        × (w : VersionRow) × (version_at row.id n st' ≡ some w)
        × (w.state ≡ kb_ready)
        × (es : List KbChunk) × AreEmbedded host st.embedding_dim 0 d.chunks es
        × (map without_vector es ≡ map without_vector d.chunks)
        × (chunks_at row.id n st' ≡ put_chunks es (chunks_at row.id n st))
  unfolding commit_claimed conclude handed_over claimed drop_draft
  commit_claimed-ready uni clock meanwhile host approves_it embeds alone =
      let u = no_usage v.pages v.estimated_tokens in
      let (es, w, answered, texts, same, calls, pages, vectors, made) =
        embed_chunks-embedded host st.embedding_dim d.chunks u embeds in
      let (st', ends, owns', x, there', ready, staged) = serve-ready uni clock es w vectors in
      (
        st',
        with_usage w (record (outcome ingest_ready document_id (some n)) { chunks = length es }),
        rw (commit_claimed, approves_it, answered, alone (claimed moment v st)) ends,
        refl,
        same,
        omega (arith, calls),
        owns',
        x,
        there',
        ready,
        es,
        made,
        texts,
        staged,
      )
