-- ===== src/Ingestion/Settling.antt =====
-- ingest.py: what each ending of `prepare` and `commit` leaves of the version.
use cogno_engram.Prelude.{
  ℕ, ◌≡◌, refl, sym, ◌∙◌, ap, inl, inr, Bool, true, false, not, none, some, List, [], ◌∷◌, arith,
  Option-cases, filter, find?,
}
use cogno_engram.Text.{Str}
use cogno_engram.Folding.{Unicode}
use cogno_engram.Errors.{ok}
use cogno_engram.Types.{Date}
use cogno_engram.Documents.Rules.{
  KbState, require_owner, same_state, kb_processing, kb_ready, kb_error, kb_awaiting_confirmation,
  CommitOutcome, commit_deleted, commit_superseded, reason_internal,
}
use cogno_engram.Documents.State.{
  DocRow, Documents, VersionRow, owned, owned_version, version_at, is_version,
}
use cogno_engram.Documents.Ingest.{fail_version, commit_version}
use cogno_engram.Documents.Ingest.Failure.{fail_version-ends}
use cogno_engram.Documents.Ingest.Commit.{commit_version-serves}
use cogno_engram.Documents.State.Dropping.{version_at-number}
use cogno_engram.Ingestion.Outcome.{Usage, Ended, returned, outcome_of_failure}
use cogno_engram.Ingestion.Failing.{fail, fail_internally}

-- An outcome names the version.
abbrev pub Names : ℕ → Ended → Type 0
Names n (returned o) = o.version ≡ some n
Names n other = Unit

-- The version is there, and it is being processed.
unfoldable pub in_progress : Str → Str → ℕ → Documents → Bool
unfolding owned_version
in_progress owner_key document_id number st = elim (owned_version owner_key document_id number st) [
  | none ↦ false
  | some v ↦ same_state v.state kb_processing
]

-- The version is being processed no longer, and the outcome names it.
abbrev pub Ends : Str → Str → ℕ → Documents × Ended → Type 0
Ends owner_key document_id number end =
    (in_progress owner_key document_id number end.0 ≡ false) × Names number end.1

idle_unless :
    (owner document_id : Str) (n : ℕ) (st : Documents)
    → ((v : VersionRow)
        → owned_version owner document_id n st ≡ some v
        → same_state v.state kb_processing ≡ false)
    → in_progress owner document_id n st ≡ false
unfolding in_progress owned_version
idle_unless owner document_id n st h = elim (Option-cases (owned_version owner document_id n st)) [
  | inl e ↦ rw (in_progress, e) refl
  | inr (v, e) ↦ rw (in_progress, e) (h v e)
]

pub idle_gone :
    (owner document_id : Str) (n : ℕ) (st : Documents)
    → owned owner document_id st ≡ none
    → in_progress owner document_id n st ≡ false
unfolding in_progress owned_version
idle_gone owner document_id n st e = rw (in_progress, owned_version, e) refl

module _ (owner document_id : Str) (n : ℕ) (st : Documents) {row : DocRow}
    (e : owned owner document_id st ≡ some row) where
  idle_missing : version_at row.id n st ≡ none → in_progress owner document_id n st ≡ false
  unfolding in_progress owned_version
  idle_missing f = rw (in_progress, owned_version, e, f) refl

  idle_version :
      {v : VersionRow}
      → version_at row.id n st ≡ some v
      → same_state v.state kb_processing ≡ false
      → in_progress owner document_id n st ≡ false
  unfolding in_progress owned_version
  idle_version f k = rw (in_progress, owned_version, e, f) k

ready_idle : (s : KbState) → same_state s kb_ready ≡ true → same_state s kb_processing ≡ false
ready_idle kb_processing h = absurd (cc)
ready_idle kb_awaiting_confirmation h = refl
ready_idle kb_ready h = refl
ready_idle kb_error h = refl

pub ready_version-idle :
    (owner document_id : Str) (n : ℕ) (st : Documents) {v : VersionRow}
    → owned_version owner document_id n st ≡ some v
    → same_state v.state kb_ready ≡ true
    → in_progress owner document_id n st ≡ false
unfolding in_progress
ready_version-idle owner document_id n st {v} e ready =
    rw (in_progress, e) (ready_idle v.state ready)

-- A version that is failed is being processed no longer, whatever it was.
fail_version-idle :
    (uni : Unicode) (now : Date) (owner document_id : Str) (n : ℕ) (reason : Str) (st : Documents)
    → require_owner owner ≡ ok tt
    → (st' : Documents) × (marked : Bool) × (fail_version uni now owner document_id n reason st
        ≡ ok (st', marked))
      × (in_progress owner document_id n st' ≡ false)
unfolding in_progress owned_version
fail_version-idle uni now owner document_id n reason st allowed =
    elim (fail_version-ends uni now owner document_id n reason st allowed) [
      | inl (answer, ready) ↦ (
        st,
        false,
        answer,
        idle_unless owner document_id n st (λ v e. ready_idle v.state (ready v e)),
      )
      | inr (v, st', kept, found, other, answer, closed, found', empty, buried, again) ↦
          (st', true, answer, rw (in_progress, found') refl)
    ]

pub fail-Ends :
    (uni : Unicode) (clock : Date) (owner document_id : Str) (n : ℕ) (reason : Str) (u : Usage)
    (st : Documents)
    → require_owner owner ≡ ok tt
    → Ends owner document_id n (fail uni clock owner document_id n reason u st)
unfolding fail outcome_of_failure
fail-Ends uni clock owner document_id n reason u st allowed =
    let (st', marked, answer, idle) =
      fail_version-idle uni clock owner document_id n reason st allowed in
    rw answer (idle, refl)

pub fail_internally-Ends :
    (uni : Unicode) (clock : Date) (owner document_id : Str) (n : ℕ) (again : Ended)
    (st : Documents)
    → require_owner owner ≡ ok tt
    → Names n again
    → Ends owner document_id n (fail_internally uni clock owner document_id n again st)
unfolding fail_internally
fail_internally-Ends uni clock owner document_id n again st allowed named =
    let (st', marked, answer, idle) =
      fail_version-idle uni clock owner document_id n reason_internal st allowed in
    rw answer (idle, named)

find?_dropped {ℓ} :
    {A : Type ℓ} (p : A → Bool) (xs : List A) → find? p (filter (λ x. not (p x)) xs) ≡ none
find?_dropped p [] = refl
find?_dropped p (x ∷ xs) = ground (arith, find?_dropped p xs)

-- So is a version that is committed: served, removed, or left as what it was.
pub commit_version-idle :
    (now : Date) (owner document_id : Str) (n pages : ℕ) (st : Documents)
    → require_owner owner ≡ ok tt
    → (st' : Documents) × (o : CommitOutcome) × (commit_version now owner document_id n pages st
        ≡ ok (st', o))
      × (in_progress owner document_id n st' ≡ false)
unfolding commit_version version_at owned
commit_version-idle now owner document_id n pages st allowed =
    elim (Option-cases (owned owner document_id st)) [
      | inl e ↦ (
        st,
        commit_deleted,
        rw (commit_version, allowed, e) refl,
        idle_gone owner document_id n st e,
      )
      | inr (row, e) ↦ elim (Option-cases (version_at row.id n st)) [
        | inl f ↦ (
          st,
          commit_superseded,
          rw (commit_version, allowed, e, f) refl,
          idle_missing owner document_id n st e f,
        )
        | inr (v, f) ↦
            let number = version_at-number row.id n st f in
            let (st', cases) =
              commit_version-serves now owner document_id n pages row v st allowed e f in
            elim cases [
              | inl (answer, newest, was, served, ready, newer, chunks) ↦ (
                st',
                _,
                answer,
                idle_version owner document_id n st' served
                    (ap (λ k. version_at row.id k st') (sym number) ∙ ready) refl,
              )
              | inr (inl (answer, newest, docs, versions)) ↦
                  let dropped : version_at row.id v.version st' ≡ none =
                    rw (version_at, versions)
                      (find?_dropped (is_version row.id v.version) st.versions) in
                  let same : owned owner document_id st' ≡ owned owner document_id st =
                    rw (owned, docs) refl in
                  (
                    st',
                    _,
                    answer,
                    idle_missing owner document_id n st' (same ∙ e)
                        (ap (λ k. version_at row.id k st') (sym number) ∙ dropped),
                  )
              | inr (inr (newest, other, same, answer)) ↦
                  (st', _, answer, rw same (idle_version owner document_id n st e f other))
            ]
      ]
    ]
