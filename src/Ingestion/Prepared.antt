-- ===== src/Ingestion/Prepared.antt =====
-- ingest.py, `prepare`: what it leaves of the version that its outcome names.
use cogno_engram.Prelude.{
  ℕ, ◌+◌, ◌≡◌, refl, sym, ◌∙◌, ap, inl, inr, Bool, true, false, not, ◌&&◌, Option, none, some, List,
  ◌∷◌, map, if◌then◌else◌, Bool-cases, Option-cases, length, ltb, List-cases,
}
use cogno_engram.Text.{Str}
use cogno_engram.Folding.{Unicode}
use cogno_engram.Errors.{
  is_cancelled, cancelled_error, Error, Result, ok, raise, ◌>>◌, bind-returned, Result-cases,
  ok-injective,
}
use cogno_engram.Types.{Date}
use cogno_engram.Store.State.{date_or}
use cogno_engram.Documents.Rules.{
  require_owner, require_model, same_state, kb_processing, kb_ready, reason_over_limit,
}
use cogno_engram.Documents.State.{
  Documents, DraftRow, KbChunk, KbVersion, KbDocument, owned_version, set_version,
}
use cogno_engram.Documents.State.Ownership.{owned_version-set, owned_version-drafts}
use cogno_engram.Documents.Manage.{get_document}
use cogno_engram.Documents.Ingest.{begin_version}
use cogno_engram.Documents.Ingest.Begun.{begin_version-found}
use cogno_engram.Documents.Drafts.{save_draft, put_draft, without_vector}
use cogno_engram.Documents.Drafts.Claim.{awaiting}
use cogno_engram.Ingestion.Outcome.{
  Ended, returned, raised, raised_outside, no_usage, estimate_tokens,
}
use cogno_engram.Ingestion.Failing.{attempt}
use cogno_engram.Ingestion.Settling.{
  in_progress, Ends, Names, fail-Ends, fail_internally-Ends, ready_version-idle,
}
use cogno_engram.Ingestion.Settled.{Leaves}
use cogno_engram.Ingestion.Prepare.{
  Upload, Begun, begun_with, begin_upload, is_too_large, reason_of, reason_no_text, chunk_upload,
  park, prepare_begun, prepare_version, prepare_document, prepare,
}

is_cancelled-same : (e : Error) → is_cancelled e ≡ true → e ≡ cancelled_error
is_cancelled-same cancelled_error h = refl
is_cancelled-same _ h = absurd (cc)

-- The store and the answer of a save: parked, or not in progress.
save_draft-idle :
    (clock : Date) (owner document_id : Str) (n : ℕ) (cs : List KbChunk) (pages tokens : ℕ)
    (expires_at : Date) (st : Documents)
    → require_owner owner ≡ ok tt
    → (st' : Documents) × (saved : Bool) × (save_draft clock owner document_id n cs pages tokens
          expires_at st
        ≡ ok (st', saved))
      × (in_progress owner document_id n st' ≡ false)
unfolding save_draft in_progress
save_draft-idle clock owner document_id n cs pages tokens expires_at st allowed =
    elim (Option-cases (owned_version owner document_id n st)) [
      | inl e ↦ (st, false, rw (allowed, e) refl, rw (in_progress, e) refl)
      | inr (v, e) ↦ elim (Bool-cases (same_state v.state kb_processing)) [
        | inr f ↦ (st, false, rw (allowed, e, f) refl, rw (in_progress, e) f)
        | inl f ↦
            let draft : DraftRow = record {
              document_id = v.document_id;
              version = v.version;
              chunks = map without_vector cs;
              created_at = clock;
            } in
            let kept : Documents = record st { drafts = put_draft draft st.drafts } in
            let saved =
              set_version v.document_id v.version (awaiting pages tokens expires_at) kept in
            let found =
              owned_version-set owner document_id n (awaiting pages tokens expires_at) kept
                (λ d m w. refl)
                (owned_version-drafts owner document_id n (put_draft draft st.drafts) st ∙ e) in
            (saved, true, rw (allowed, e, f) refl, rw (in_progress, found) refl)
      ]
    ]

park-Ends :
    (uni : Unicode) (clock : Date) (owner document_id : Str) (n : ℕ) (cs : List KbChunk) (pages : ℕ)
    (expires_at : Date) (st : Documents)
    → require_owner owner ≡ ok tt
    → Ends owner document_id n (park uni clock owner document_id n cs pages expires_at st)
unfolding park
park-Ends uni clock owner document_id n cs pages expires_at st allowed =
    let (st', saved, answer, idle) =
      save_draft-idle clock owner document_id n cs pages (estimate_tokens cs) expires_at st
        allowed in
    elim (Bool-cases saved) [
      | inl e ↦ rw (park, answer, e) (idle, refl)
      | inr e ↦ rw (park, answer, e) (idle, refl)
    ]

pub prepare_begun-Leaves :
    (uni : Unicode) (clock : Date) (meanwhile : Documents → Documents) (moment : Date)
    (owner document_id : Str) (doc : KbDocument) (n : ℕ) (u : Upload) (st : Documents)
    → require_owner owner ≡ ok tt
    → Leaves
        (chunk_upload uni doc.row.title doc.row.media_type u ≡ raise cancelled_error)
        (meanwhile st)
        owner
        document_id
        n
        (prepare_begun uni clock meanwhile moment owner document_id doc n u st)
unfolding prepare_begun
prepare_begun-Leaves uni clock meanwhile moment owner document_id doc n u st allowed =
    elim (Result-cases (chunk_upload uni doc.row.title doc.row.media_type u)) [
      | inl (e, broken) ↦ elim (Option-cases (reason_of e)) [
        | inl f ↦ elim (Bool-cases (is_cancelled e)) [
          | inl g ↦
              rw (prepare_begun, broken, f, g)
                (inl (
                  ap raise (is_cancelled-same e g),
                  ap (λ x. (meanwhile st, raised x)) (is_cancelled-same e g),
                ))
          | inr g ↦
              rw (prepare_begun, broken, f, g)
                (inr (
                  fail_internally-Ends uni clock owner document_id n (raised e) (meanwhile st)
                    allowed tt))
        ]
        | inr (reason, f) ↦
            rw (prepare_begun, broken, f)
              (inr (
                fail-Ends uni clock owner document_id n reason (no_usage 0 0) (meanwhile st)
                  allowed))
      ]
      | inr ((cs, pages), cut) ↦ elim (List-cases cs) [
        | inl f ↦
            rw (prepare_begun, cut, f)
              (inr (
                fail-Ends uni clock owner document_id n reason_no_text (no_usage pages 0)
                  (meanwhile st) allowed))
        | inr (d, ds, f) ↦
            rw (prepare_begun, cut, f)
              (inr (
                park-Ends uni clock owner document_id n (d ∷ ds) pages (moment + u.ttl)
                  (meanwhile st) allowed))
      ]
    ]

-- The version that an outcome names is in progress no longer; an exception names none.
abbrev pub Settles : Str → Str → Documents × Ended → Type 0
Settles owner document_id (st, returned o) = elim o.version [
  | none ↦ Unit
  | some n ↦ in_progress owner document_id n st ≡ false
]
Settles owner document_id (st, other) = Unit

pub Ends-Settles :
    (owner document_id : Str) (n : ℕ) (st : Documents) (e : Ended)
    → in_progress owner document_id n st ≡ false
    → Names n e
    → Settles owner document_id (st, e)
Ends-Settles owner document_id n st (returned o) idle named = rw named idle
Ends-Settles owner document_id n st (raised x) idle named = tt
Ends-Settles owner document_id n st raised_outside idle named = tt

-- What is begun on is the row of the store that is left, under its number.
begun_with-found :
    (clock moment : Date) (owner document_id sha embed_model : Str) (size : ℕ)
    (original : Option (List ℕ)) (st : Documents) (oversize : Bool) (b : Begun) (kv : KbVersion)
    (answer : Documents × Option KbVersion)
    → begin_version clock owner document_id sha embed_model size original (some moment) st
      ≡ ok answer
    → begun_with oversize answer ≡ b
    → b.version ≡ some kv
    → owned_version owner document_id kv.row.version b.store ≡ some kv.row
begun_with-found clock moment owner document_id sha embed_model size original st oversize b kv
      answer e same named =
    let version = ap (λ x. x.version) same ∙ named in
    ap (λ s. owned_version owner document_id kv.row.version s) (sym (ap (λ x. x.store) same))
    ∙ begin_version-found clock owner document_id sha embed_model size original (some moment) st
        answer.0 kv (e ∙ ap (λ a. ok (answer.0, a)) version)

begin_upload-found :
    (sha256 : List ℕ → Str) (clock moment : Date) (owner document_id : Str) (u : Upload)
    (st : Documents) (b : Begun) (kv : KbVersion)
    → begin_upload sha256 clock moment owner document_id u st ≡ ok b
    → b.version ≡ some kv
    → owned_version owner document_id kv.row.version b.store ≡ some kv.row
unfolding begin_upload
begin_upload-found sha256 clock moment owner document_id u st b kv h named =
    let oversize = ltb u.limits.max_bytes (length u.bytes) in
    let first = if u.keep_bytes && not oversize then some u.bytes else none in
    let sha = sha256 u.bytes in
    let size = length u.bytes in
    elim (Result-cases
      (begin_version clock owner document_id sha u.embed_model size first (some moment) st)) [
        | inr (answer, e) ↦
            begun_with-found clock moment owner document_id sha u.embed_model size first st oversize
              b kv answer e (ok-injective (rw (begin_upload, e) at h)) named
        | inl (x, e) ↦ elim (Bool-cases (is_too_large x)) [
          | inr f ↦ absurd (no_answer (rw (begin_upload, e, f) at h))
          | inl f ↦
              let (answer, same, again) =
                bind-returned
                  (begin_version clock owner document_id sha u.embed_model size none (some moment)
                    st)
                  {rest = λ answer. ok (begun_with true answer)} (rw (begin_upload, e, f) at h) in
              begun_with-found clock moment owner document_id sha u.embed_model size none st true b
                kv answer again (ok-injective same) named
        ]
      ]
  where
    no_answer : {x : Error} → raise x ≡ ok b → ⊥
    no_answer h = cc

prepare_version-Settles :
    (uni : Unicode) (sha256 : List ℕ → Str) (clock : Date) (meanwhile : Documents → Documents)
    (moment : Date) (owner document_id : Str) (doc : KbDocument) (u : Upload) (oversize : Bool)
    (st : Documents) (version : Option KbVersion)
    → require_owner owner ≡ ok tt
    → ((kv : KbVersion)
        → version ≡ some kv
        → owned_version owner document_id kv.row.version st ≡ some kv.row)
    → Settles owner document_id (
        prepare_version uni sha256 clock meanwhile moment owner document_id doc u oversize st
          version)
unfolding prepare_version
prepare_version-Settles uni sha256 clock meanwhile moment owner document_id doc u oversize st none
      allowed found =
    tt
prepare_version-Settles uni sha256 clock meanwhile moment owner document_id doc u oversize st
      (some v) allowed found =
    elim (Bool-cases (same_state v.row.state kb_ready)) [
      | inl e ↦ rw e (ready_version-idle owner document_id v.row.version st (found v refl) e)
      | inr e ↦ elim (Bool-cases oversize) [
        | inl f ↦
            let (idle, named) =
              fail-Ends uni clock owner document_id v.row.version reason_over_limit (no_usage 0 0)
                st allowed in
            rw (e, f) (Ends-Settles owner document_id v.row.version _ _ idle named)
        | inr f ↦
            rw (e, f)
              (elim (prepare_begun-Leaves uni clock meanwhile moment owner document_id doc
                v.row.version u st allowed) [
                  | inl (_, same) ↦ rw same tt
                  | inr (idle, named) ↦ Ends-Settles owner document_id v.row.version _ _ idle named
                ])
      ]
    ]

attempt-Settles {ℓ} :
    {A : Type ℓ} (owner document_id : Str) (st : Documents) (r : Result A)
    (k : A → Documents × Ended)
    → ((a : A) → r ≡ ok a → Settles owner document_id (k a))
    → Settles owner document_id (attempt r st k)
attempt-Settles owner document_id st (raise e) k h = tt
attempt-Settles owner document_id st (ok a) k h = h a refl

prepare_document-Settles :
    (uni : Unicode) (sha256 : List ℕ → Str) (clock : Date) (meanwhile : Documents → Documents)
    (moment : Date) (owner document_id : Str) (u : Upload) (st : Documents)
    (doc : Option KbDocument)
    → require_owner owner ≡ ok tt
    → Settles owner document_id
        (prepare_document uni sha256 clock meanwhile moment owner document_id u st doc)
unfolding prepare_document
prepare_document-Settles uni sha256 clock meanwhile moment owner document_id u st none allowed = tt
prepare_document-Settles uni sha256 clock meanwhile moment owner document_id u st (some doc)
      allowed =
    attempt-Settles owner document_id st (begin_upload sha256 clock moment owner document_id u st)
      (λ b.
        prepare_version uni sha256 clock meanwhile moment owner document_id doc u b.oversize b.store
          b.version)
      (λ b h.
        prepare_version-Settles uni sha256 clock meanwhile moment owner document_id doc u b.oversize
          b.store b.version allowed
          (λ kv. begin_upload-found sha256 clock moment owner document_id u st b kv h))

-- Whatever the extractor does, and whatever others do to the store meanwhile, the version that the
-- outcome of a preparation names is in progress no longer.
pub prepare-Settles :
    (uni : Unicode) (sha256 : List ℕ → Str) (clock : Date) (meanwhile : Documents → Documents)
    (owner document_id : Str) (u : Upload) (now : Option Date) (st : Documents)
    → Settles owner document_id (prepare uni sha256 clock meanwhile owner document_id u now st)
unfolding prepare
prepare-Settles uni sha256 clock meanwhile owner document_id u now st =
    let go_on =
      prepare_document uni sha256 clock meanwhile (date_or clock now) owner document_id u st in
    attempt-Settles owner document_id st
      (require_owner owner >> require_model u.embed_model st.embedding_dim)
      (λ _. attempt (get_document owner document_id st) st go_on)
      (λ _ through.
        let (_, _, allowed) =
          bind-returned (require_owner owner)
            {rest = λ _. require_model u.embed_model st.embedding_dim} through in
        attempt-Settles owner document_id st (get_document owner document_id st) go_on (λ doc _.
          prepare_document-Settles uni sha256 clock meanwhile (date_or clock now) owner document_id
            u st doc allowed))
