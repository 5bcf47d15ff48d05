-- ===== src/Ingestion/Settled.antt =====
-- ingest.py: no ending of `prepare` or of a claimed `commit` leaves its version in progress.
use cogno_engram.Prelude.{
  ℕ, zero, suc, ◌≡◌, refl, sym, ap, subst, ◌⊎◌, inl, inr, Bool, true, false, not, some, List, [],
  ◌∷◌, length, ◌==◌, Bool-cases, Option-cases, All, take, drop, any_of_All-not, All-take, All-map,
}
use cogno_engram.Text.{Str}
use cogno_engram.Folding.{Unicode}
use cogno_engram.Errors.{ok, cancelled_error}
use cogno_engram.Types.{Date}
use cogno_engram.Documents.Rules.{require_owner, same_state, kb_processing}
use cogno_engram.Documents.State.{Documents, KbChunk, owned_version}
use cogno_engram.Documents.Ingest.{add_chunks, is_vector, stage}
use cogno_engram.Ingestion.Outcome.{
  Usage, no_usage, tokens_of, Ended, raised, raised_outside, Reply, Reply-cases, replied, threw,
  interrupted,
}
use cogno_engram.Ingestion.Settling.{
  in_progress, Ends, fail-Ends, fail_internally-Ends, commit_version-idle,
}
use cogno_engram.Ingestion.Commit.{
  Host, counted, Embedding, embedded, embed_failed, pace_raised, embedding_cancelled, Approval,
  approved, refused, gate_cancelled, approval_of, onto_embedded, embed_chunks, stage_batch,
  stage_batches, serve, serve_staged, conclude, commit_claimed, approves, reason_gate_refused,
  reason_embed_failed,
}
use cogno_engram.Documents.Drafts.{KbDraft}

-- A chunk with a vector of the width `dim`.
abbrev pub HasVector : ℕ → KbChunk → Type 0
HasVector dim c = is_vector dim c.embedding ≡ true

-- What is embedded has vectors of the width that was asked for.
abbrev pub AllVectors : ℕ → Embedding → Type 0
AllVectors dim (embedded cs u) = All (HasVector dim) cs
AllVectors dim other = Unit

onto-AllVectors :
    (dim : ℕ) (c : KbChunk) (e : Embedding)
    → HasVector dim c
    → AllVectors dim e
    → AllVectors dim (onto_embedded c e)
onto-AllVectors dim c (embedded cs u) h k = (h, k)
onto-AllVectors dim c (embed_failed u) h k = tt
onto-AllVectors dim c pace_raised h k = tt
onto-AllVectors dim c embedding_cancelled h k = tt

pub embed_chunks-AllVectors :
    (host : Host) (dim : ℕ) (cs : List KbChunk) (u : Usage)
    → AllVectors dim (embed_chunks host dim cs u)
unfolding embed_chunks
embed_chunks-AllVectors host dim [] u = tt
embed_chunks-AllVectors host dim (c ∷ cs) u =
    elim (Reply-cases (host.paces u.embedding_calls (tokens_of c.content))) [
      | inr (inl e) ↦ rw (embed_chunks, e) tt
      | inr (inr e) ↦ rw (embed_chunks, e) tt
      | inl (_, e) ↦ elim (Reply-cases (host.embed u.embedding_calls c.content)) [
        | inr (inl f) ↦ rw (embed_chunks, e, f) tt
        | inr (inr f) ↦ rw (embed_chunks, e, f) tt
        | inl (answer, f) ↦ elim (Bool-cases (length answer.0 == dim)) [
          | inr g ↦ rw (embed_chunks, e, f, g) tt
          | inl g ↦
              rw (embed_chunks, e, f, g)
                (onto-AllVectors dim (record c { embedding = some answer.0 }) _ g
                  (embed_chunks-AllVectors host dim cs (counted u answer.1 answer.2)))
        ]
      ]
    ]

pub All-drop {ℓ κ} :
    {A : Type ℓ} (P : A → Type κ) (n : ℕ) (xs : List A) → All P xs → All P (drop n xs)
All-drop P zero xs h = h
All-drop P (suc n) [] h = tt
All-drop P (suc n) (x ∷ xs) h = All-drop P n xs h.1

-- Chunks with vectors of the store's width are staged, or the version is in progress no longer.
add_chunks-answer :
    (owner document_id : Str) (n : ℕ) (cs : List KbChunk) (st : Documents)
    → require_owner owner ≡ ok tt
    → All (HasVector st.embedding_dim) cs
    → ((add_chunks owner document_id n cs st ≡ (st, ok false))
        × (in_progress owner document_id n st ≡ false))
      ⊎ ((st' : Documents) × (add_chunks owner document_id n cs st ≡ (st', ok true))
          × (st'.embedding_dim ≡ st.embedding_dim))
unfolding add_chunks stage in_progress
add_chunks-answer owner document_id n cs st allowed h =
    let good =
      any_of_All-not (λ c. not (is_vector st.embedding_dim c.embedding)) cs
        (All-map (HasVector st.embedding_dim) _ cs (λ c k. ap not k) h) in
    elim (Option-cases (owned_version owner document_id n st)) [
      | inl e ↦ inl (rw (add_chunks, allowed, e) refl, rw (in_progress, e) refl)
      | inr (v, e) ↦ elim (Bool-cases (same_state v.state kb_processing)) [
        | inr f ↦ inl (rw (add_chunks, allowed, e, f) refl, rw (in_progress, e) f)
        | inl f ↦
            inr
              (stage v.document_id v.version cs st, rw (add_chunks, allowed, e, f, good) refl, refl)
      ]
    ]

stage_batches-answer :
    (fuel : ℕ) (owner document_id : Str) (n : ℕ) (cs : List KbChunk) (st : Documents)
    → require_owner owner ≡ ok tt
    → All (HasVector st.embedding_dim) cs
    → (st' : Documents) × (all : Bool) × (stage_batches fuel owner document_id n cs st
        ≡ (st', ok all))
      × ((all ≡ true) ⊎ (in_progress owner document_id n st' ≡ false))
unfolding stage_batches
stage_batches-answer zero owner document_id n cs st allowed h = (st, true, refl, inl refl)
stage_batches-answer (suc fuel) owner document_id n [] st allowed h = (st, true, refl, inl refl)
stage_batches-answer (suc fuel) owner document_id n (c ∷ cs) st allowed h =
    elim (add_chunks-answer owner document_id n (take stage_batch (c ∷ cs)) st allowed
      (All-take (HasVector st.embedding_dim) stage_batch (c ∷ cs) h)) [
        | inl (answer, idle) ↦ (st, false, rw (stage_batches, answer, answer) refl, inr idle)
        | inr (st1, answer, dim) ↦
            let rest = drop stage_batch (c ∷ cs) in
            let (st', all, ends, outcome) =
              stage_batches-answer fuel owner document_id n rest st1 allowed (
                subst (λ d. All (HasVector d) rest) (sym dim)
                  (All-drop (HasVector st.embedding_dim) stage_batch (c ∷ cs) h)) in
            (st', all, rw (stage_batches, answer, answer) ends, outcome)
      ]

serve-Ends :
    (uni : Unicode) (clock : Date) (owner document_id : Str) (n : ℕ) (cs : List KbChunk) (u : Usage)
    (st : Documents)
    → require_owner owner ≡ ok tt
    → All (HasVector st.embedding_dim) cs
    → Ends owner document_id n (serve uni clock owner document_id n cs u st)
unfolding serve serve_staged
serve-Ends uni clock owner document_id n cs u st allowed h =
    let (st1, all, answer, outcome) =
      stage_batches-answer (length cs) owner document_id n cs st allowed h in
    subst (λ s. Ends owner document_id n (serve_staged uni clock owner document_id n cs u s.0 s.1))
      (sym answer)
      (elim (Bool-cases all) [
        | inr e ↦
            rw (serve_staged, e) (elim outcome [ inl t ↦ absurd (cc) | inr idle ↦ (idle, refl) ])
        | inl e ↦
            let (st2, o, ends, idle) =
              commit_version-idle clock owner document_id n u.pages st1 allowed in
            rw (serve_staged, e, ends) (idle, refl)
      ])

onto-cancelled :
    (c : KbChunk) (e : Embedding)
    → onto_embedded c e ≡ embedding_cancelled
    → e ≡ embedding_cancelled
onto-cancelled c (embedded cs u) h = absurd (cc)
onto-cancelled c (embed_failed u) h = h
onto-cancelled c pace_raised h = h
onto-cancelled c embedding_cancelled h = h

-- A call of the pace or of the embedder was cancelled.
abbrev pub CallCancelled : Host → Type 0
CallCancelled host =
    (k : ℕ) × (text : Str) × ((host.paces k (tokens_of text) ≡ interrupted)
      ⊎ (host.embed k text ≡ interrupted))

-- The gate, the pace or the embedder was cancelled.
abbrev pub HostCancelled : Host → ℕ → Type 0
HostCancelled host estimated =
    ((ask : ℕ → Reply Bool) × (host.gate ≡ some ask) × (ask estimated ≡ interrupted))
    ⊎ CallCancelled host

embed_chunks-CallCancelled :
    (host : Host) (dim : ℕ) (cs : List KbChunk) (u : Usage)
    → embed_chunks host dim cs u ≡ embedding_cancelled
    → CallCancelled host
unfolding embed_chunks
embed_chunks-CallCancelled host dim [] u h = absurd (cc)
embed_chunks-CallCancelled host dim (c ∷ cs) u h =
    elim (Reply-cases (host.paces u.embedding_calls (tokens_of c.content))) [
      | inr (inl e) ↦ absurd (not_raised (rw (embed_chunks, e) at h))
      | inr (inr e) ↦ (u.embedding_calls, c.content, inl e)
      | inl (_, e) ↦ elim (Reply-cases (host.embed u.embedding_calls c.content)) [
        | inr (inl f) ↦ absurd (not_failed (rw (embed_chunks, e, f) at h))
        | inr (inr f) ↦ (u.embedding_calls, c.content, inr f)
        | inl (answer, f) ↦ elim (Bool-cases (length answer.0 == dim)) [
          | inr g ↦ absurd (not_failed (rw (embed_chunks, e, f, g) at h))
          | inl g ↦ embed_chunks-CallCancelled host dim cs (counted u answer.1 answer.2) (
              onto-cancelled (record c { embedding = some answer.0 }) _
                (rw (embed_chunks, e, f, g) at h))
        ]
      ]
    ]
  where
    not_raised : pace_raised ≡ embedding_cancelled → ⊥
    not_raised h = cc

    not_failed : {w : Usage} → embed_failed w ≡ embedding_cancelled → ⊥
    not_failed h = cc

approves-cancelled :
    (host : Host) (estimated : ℕ)
    → approves host estimated ≡ gate_cancelled
    → (ask : ℕ → Reply Bool) × (host.gate ≡ some ask) × (ask estimated ≡ interrupted)
approves-cancelled host estimated h = elim (Option-cases host.gate) [
  | inl e ↦ absurd (approved_not (rw e at h))
  | inr (ask, e) ↦ (ask, e, asked (ask estimated) (rw e at h))
]
  where
    approved_not : approved ≡ gate_cancelled → ⊥
    approved_not h = cc

    asked : (r : Reply Bool) → approval_of r ≡ gate_cancelled → r ≡ interrupted
    asked (replied true) h = absurd (cc)
    asked (replied false) h = absurd (cc)
    asked threw h = absurd (cc)
    asked interrupted h = refl

-- A cancelled call leaves the store that the others made, and raises the cancellation; every other
-- ending leaves the version in progress no longer.
abbrev pub Leaves : Type 0 → Documents → Str → Str → ℕ → Documents × Ended → Type 0
Leaves Cancelled st owner document_id n end =
    (Cancelled × (end ≡ (st, raised cancelled_error))) ⊎ Ends owner document_id n end

conclude-Leaves :
    (uni : Unicode) (clock : Date) (owner document_id : Str) (n : ℕ) (e : Embedding)
    (st : Documents)
    → require_owner owner ≡ ok tt
    → AllVectors st.embedding_dim e
    → Leaves
        (e ≡ embedding_cancelled)
        st
        owner
        document_id
        n
        (conclude uni clock owner document_id n e st)
unfolding conclude
conclude-Leaves uni clock owner document_id n embedding_cancelled st allowed h = inl (refl, refl)
conclude-Leaves uni clock owner document_id n pace_raised st allowed h =
    inr (fail_internally-Ends uni clock owner document_id n raised_outside st allowed tt)
conclude-Leaves uni clock owner document_id n (embed_failed u) st allowed h =
    inr (fail-Ends uni clock owner document_id n reason_embed_failed u st allowed)
conclude-Leaves uni clock owner document_id n (embedded cs u) st allowed h =
    inr (serve-Ends uni clock owner document_id n cs u st allowed h)

Approval-cases : (a : Approval) → (a ≡ approved) ⊎ ((a ≡ refused) ⊎ (a ≡ gate_cancelled))
Approval-cases approved = inl refl
Approval-cases refused = inr (inl refl)
Approval-cases gate_cancelled = inr (inr refl)

pub commit_claimed-Leaves :
    (uni : Unicode) (clock : Date) (meanwhile : Documents → Documents) (host : Host)
    (owner document_id : Str) (n : ℕ) (draft : KbDraft) (st : Documents)
    → require_owner owner ≡ ok tt
    → (meanwhile st).embedding_dim ≡ st.embedding_dim
    → Leaves
        (HostCancelled host draft.estimated_tokens)
        (meanwhile st)
        owner
        document_id
        n
        (commit_claimed uni clock meanwhile host owner document_id n draft st)
unfolding commit_claimed
commit_claimed-Leaves uni clock meanwhile host owner document_id n draft st allowed dim =
    let u = no_usage draft.pages draft.estimated_tokens in
    let e = embed_chunks host st.embedding_dim draft.chunks u in
    elim (Approval-cases (approves host draft.estimated_tokens)) [
      | inr (inl refuses) ↦
          rw (commit_claimed, refuses)
            (inr (
              fail-Ends uni clock owner document_id n reason_gate_refused u (meanwhile st) allowed))
      | inr (inr cancels) ↦
          rw (commit_claimed, cancels)
            (inl (inl (approves-cancelled host draft.estimated_tokens cancels), refl))
      | inl approves_it ↦
          rw (commit_claimed, approves_it)
            (elim (conclude-Leaves uni clock owner document_id n e (meanwhile st) allowed
              (rw dim (embed_chunks-AllVectors host st.embedding_dim draft.chunks u))) [
                | inl (cancels, same) ↦ inl (
                  inr (embed_chunks-CallCancelled host st.embedding_dim draft.chunks u cancels),
                  same,
                )
                | inr ends ↦ inr ends
              ])
    ]
