-- ===== src/Ingestion/Committed.antt =====
-- ingest.py, `commit`: what it leaves on every branch.
use cogno_engram.Prelude.{
  ℕ, ◌≡◌, refl, ◌⊎◌, inl, inr, true, false, ◌&&◌, Option, none, some, Bool-cases, Option-cases,
  find?,
}
use cogno_engram.Text.{Str, str_eq}
use cogno_engram.Folding.{Unicode}
use cogno_engram.Errors.{Error, Result, ok, raise, ◌>>◌, bind-returned, cancelled_error}
use cogno_engram.Types.{Date}
use cogno_engram.Store.State.{date_or}
use cogno_engram.Documents.Rules.{
  require_owner, require_model, same_state, kb_processing, kb_ready, kb_awaiting_confirmation,
  claim_ok, claim_expired, claim_missing,
}
use cogno_engram.Documents.State.{
  Documents, DraftRow, VersionRow, KbVersion, KbDocument, owned_version, is_draft, drop_draft,
  set_version,
}
use cogno_engram.Documents.Manage.{get_document}
use cogno_engram.Documents.Ingest.{get_version}
use cogno_engram.Documents.Drafts.{KbDraft, claim_draft, draft_of, has_expired}
use cogno_engram.Ingestion.Outcome.{Ended, raised}
use cogno_engram.Ingestion.Failing.{attempt}
use cogno_engram.Ingestion.Settling.{in_progress, Names}
use cogno_engram.Ingestion.Commit.{
  Host, commit_awaiting, commit_prepared, commit_read, commit_document, commit, is_served,
}
use cogno_engram.Ingestion.Settled.{commit_claimed-Leaves}

-- A claim takes the draft, and keeps the width of the store; or it leaves the store.
claim_draft-cases :
    (owner document_id : Str) (n : ℕ) (now : Date) (st : Documents)
    → require_owner owner ≡ ok tt
    → ((e : Error) × (claim_draft owner document_id n now st ≡ raise e))
      ⊎ (claim_draft owner document_id n now st ≡ ok (st, claim_missing, none))
      ⊎ (claim_draft owner document_id n now st ≡ ok (st, claim_expired, none))
      ⊎ ((st' : Documents) × (draft : KbDraft) × (claim_draft owner document_id n now st
            ≡ ok (st', claim_ok, some draft))
          × (st'.embedding_dim ≡ st.embedding_dim))
unfolding claim_draft drop_draft
claim_draft-cases owner document_id n now st allowed =
    elim (Option-cases (owned_version owner document_id n st)) [
      | inl e ↦ inr (inl (rw (allowed, e) refl))
      | inr (v, e) ↦ elim (Option-cases (find? (is_draft v.document_id v.version) st.drafts)) [
        | inl f ↦ inr (inl (rw (allowed, e, f) refl))
        | inr (d, f) ↦ elim (Bool-cases (has_expired now v)) [
          | inl g ↦ inr (inr (inl (rw (allowed, e, f, g) refl)))
          | inr g ↦ drafted v d e f g (draft_of v d true) refl
        ]
      ]
    ]
  where
    drafted :
        (v : VersionRow) (d : DraftRow)
        → owned_version owner document_id n st ≡ some v
        → find? (is_draft v.document_id v.version) st.drafts ≡ some d
        → has_expired now v ≡ false
        → (r : Result KbDraft) → draft_of v d true ≡ r
        → ((e : Error) × (claim_draft owner document_id n now st ≡ raise e))
          ⊎ (claim_draft owner document_id n now st ≡ ok (st, claim_missing, none))
          ⊎ (claim_draft owner document_id n now st ≡ ok (st, claim_expired, none))
          ⊎ ((st' : Documents) × (draft : KbDraft) × (claim_draft owner document_id n now st
                ≡ ok (st', claim_ok, some draft))
              × (st'.embedding_dim ≡ st.embedding_dim))
    drafted v d e f g (raise x) h = inl (x, rw (claim_draft, allowed, e, f, g, h) refl)
    drafted v d e f g (ok draft) h = inr (
        inr (
          inr (
            set_version v.document_id v.version
                (λ w. record w { state = kb_processing; claimed_at = some now })
                (drop_draft v.document_id v.version st),
            draft,
            rw (claim_draft, allowed, e, f, g, h) refl,
            refl,
          )))

-- The store is as it was, or the version is being processed no longer, or the call was cancelled; and
-- an outcome names the version.
abbrev pub Concluded : Str → Str → ℕ → Documents → Documents × Ended → Type 0
Concluded owner document_id n st end =
    ((end.0 ≡ st)
      ⊎ ((in_progress owner document_id n end.0 ≡ false) ⊎ (end.1 ≡ raised cancelled_error)))
    × Names n end.1

attempt-Concluded {ℓ} :
    {A : Type ℓ} (owner document_id : Str) (n : ℕ) (st : Documents) (r : Result A)
    (k : A → Documents × Ended)
    → ((a : A) → r ≡ ok a → Concluded owner document_id n st (k a))
    → Concluded owner document_id n st (attempt r st k)
attempt-Concluded owner document_id n st (raise e) k h = (inl refl, tt)
attempt-Concluded owner document_id n st (ok a) k h = h a refl

commit_awaiting-Concluded :
    (uni : Unicode) (clock : Date) (meanwhile : Documents → Documents) (host : Host) (moment : Date)
    (owner document_id : Str) (found : KbVersion) (n : ℕ) (st : Documents)
    → require_owner owner ≡ ok tt
    → ((s : Documents) → (meanwhile s).embedding_dim ≡ s.embedding_dim)
    → Concluded owner document_id n st
        (commit_awaiting uni clock meanwhile host moment owner document_id found n st)
unfolding commit_awaiting
commit_awaiting-Concluded uni clock meanwhile host moment owner document_id found n st allowed
      keeps =
    elim (claim_draft-cases owner document_id n moment st allowed) [
      | inl (e, answer) ↦ rw answer (inl refl, tt)
      | inr (inl answer) ↦ rw answer (inl refl, refl)
      | inr (inr (inl answer)) ↦ rw answer (inl refl, refl)
      | inr (inr (inr (st', draft, answer, dim))) ↦
          rw answer
            (elim (commit_claimed-Leaves uni clock meanwhile host owner document_id n draft st'
              allowed (keeps st')) [
                | inl (_, same) ↦ rw same (inr (inr refl), tt)
                | inr (idle, named) ↦ (inr (inl idle), named)
              ])
    ]

commit_prepared-Concluded :
    (uni : Unicode) (clock : Date) (meanwhile : Documents → Documents) (host : Host)
    (owner document_id : Str) (n : ℕ) (embed_model : Str) (now : Option Date) (doc : KbDocument)
    (found : KbVersion) (st : Documents)
    → require_owner owner ≡ ok tt
    → ((s : Documents) → (meanwhile s).embedding_dim ≡ s.embedding_dim)
    → Concluded owner document_id n st
        (commit_prepared uni clock meanwhile host owner document_id n embed_model now doc found st)
unfolding commit_prepared
commit_prepared-Concluded uni clock meanwhile host owner document_id n embed_model now doc found st
      allowed keeps =
    elim (Bool-cases (str_eq found.row.embed_model embed_model)) [
      | inr e ↦ rw e (inl refl, tt)
      | inl e ↦ elim (Bool-cases (same_state found.row.state kb_ready && is_served doc n)) [
        | inl f ↦ rw (e, f) (inl refl, refl)
        | inr f ↦ elim (Bool-cases (same_state found.row.state kb_awaiting_confirmation)) [
          | inr g ↦ rw (e, f, g) (inl refl, refl)
          | inl g ↦
              rw (e, f, g)
                (commit_awaiting-Concluded uni clock meanwhile host (date_or clock now) owner
                  document_id found n st allowed keeps)
        ]
      ]
    ]

module _ (uni : Unicode) (clock : Date) (meanwhile : Documents → Documents) (host : Host)
    (owner document_id : Str) (n : ℕ) (embed_model : Str) (now : Option Date) (st : Documents)
    (allowed : require_owner owner ≡ ok tt)
    (keeps : (s : Documents) → (meanwhile s).embedding_dim ≡ s.embedding_dim) where
  commit_read-Concluded :
      (doc : KbDocument) (version : Option KbVersion)
      → Concluded owner document_id n st
          (commit_read uni clock meanwhile host owner document_id n embed_model now st doc version)
  unfolding commit_read
  commit_read-Concluded doc none = (inl refl, refl)
  commit_read-Concluded doc (some found) =
      commit_prepared-Concluded uni clock meanwhile host owner document_id n embed_model now doc
        found st allowed keeps

  commit_document-Concluded :
      (doc : Option KbDocument)
      → Concluded owner document_id n st
          (commit_document uni clock meanwhile host owner document_id n embed_model now st doc)
  unfolding commit_document
  commit_document-Concluded none = (inl refl, refl)
  commit_document-Concluded (some doc) =
      attempt-Concluded owner document_id n st (get_version owner document_id n st)
        (commit_read uni clock meanwhile host owner document_id n embed_model now st doc)
        (λ version _. commit_read-Concluded doc version)

-- Unless it is cancelled, a commit leaves the store, or leaves its version in progress no longer, whatever the gate, the pace
-- and the embedder do, and whatever others do to the store meanwhile, as long as its vectors keep
-- their width; and the outcome names the version.
pub commit-Concluded :
    (uni : Unicode) (clock : Date) (meanwhile : Documents → Documents) (host : Host)
    (owner document_id : Str) (n : ℕ) (embed_model : Str) (now : Option Date) (st : Documents)
    → ((s : Documents) → (meanwhile s).embedding_dim ≡ s.embedding_dim)
    → Concluded owner document_id n st
        (commit uni clock meanwhile host owner document_id n embed_model now st)
unfolding commit
commit-Concluded uni clock meanwhile host owner document_id n embed_model now st keeps =
    let go_on = commit_document uni clock meanwhile host owner document_id n embed_model now st in
    attempt-Concluded owner document_id n st
      (require_owner owner >> require_model embed_model st.embedding_dim)
      (λ _. attempt (get_document owner document_id st) st go_on)
      (λ _ through.
        let (_, _, allowed) =
          bind-returned (require_owner owner)
            {rest = λ _. require_model embed_model st.embedding_dim} through in
        attempt-Concluded owner document_id n st (get_document owner document_id st) go_on (λ doc _.
          commit_document-Concluded uni clock meanwhile host owner document_id n embed_model now st
            allowed keeps doc))
