-- ===== src/Documents/Ingest/Reuse.antt =====
-- in_memory.py, `begin_version`: an upload whose content and model a version has already.
use cogno_engram.Prelude.{
  ℕ, ◌≡◌, refl, ◌∙◌, ◌⊎◌, ap, subst, Bool, true, false, not, none, some, List, [], ◌∷◌, arith,
  filter, find?, Bool-cases, inl, inr, All, All-map,
}
use cogno_engram.Text.{Str, str_eq, str_eq_comm, str_eq_self, str_eq_iff}
use cogno_engram.Types.{Date}
use cogno_engram.Documents.Rules.{same_state, kb_ready, kb_processing}
use cogno_engram.Documents.State.{
  version_at, is_draft, kb_version, DocRow, VersionRow, Documents, is_version, versions_of,
  drop_draft,
}
use cogno_engram.Prelude.{All-both, All-sort_by, All_find?, All-filter_imp, filter-update_first}
use cogno_engram.Documents.State.Ownership.{find?-set_version}
use cogno_engram.Documents.Ingest.{restart_version, begun}
use cogno_engram.Documents.Ingest.Numbers.{by_number, KeysUnique}

-- What becomes of the version that an upload is the same as.
abbrev pub Reused : Date → DocRow → VersionRow → VersionRow → Documents → Documents → Type 0
Reused moment row v w st st' =
    ((same_state v.state kb_ready ≡ true)
      × (w ≡ v)
      × (st'.versions ≡ st.versions)
      × (st'.drafts ≡ st.drafts))
    ⊎ ((same_state v.state kb_ready ≡ false)
        × (w ≡ record v {
          state = kb_processing;
          reason = [];
          finished_at = none;
          claimed_at = some moment;
        })
        × (filter (λ x. not (is_version row.id v.version x)) st'.versions
            ≡ filter (λ x. not (is_version row.id v.version x)) st.versions)
        × (st'.drafts ≡ filter (λ d. not (is_draft row.id v.version d)) st.drafts))

is_version_comm :
    (a b : VersionRow) → is_version a.document_id a.version b ≡ is_version b.document_id b.version a
is_version_comm a b = ground (arith, str_eq_comm a.document_id b.document_id)

is_version_self : (v : VersionRow) → is_version v.document_id v.version v ≡ true
is_version_self v = ground (arith, str_eq_self v.document_id)

KeysUnique-find? :
    (vs : List VersionRow)
    → KeysUnique vs
    → All (λ x. find? (is_version x.document_id x.version) vs ≡ some x) vs
KeysUnique-find? [] u = tt
KeysUnique-find? (v ∷ vs) u = (
  rw (is_version_self v) refl,
  All-map _ _ vs (λ x h. rw (is_version_comm x v ∙ h.0) h.1)
      (All-both (λ x. is_version v.document_id v.version x ≡ false)
        (λ x. find? (is_version x.document_id x.version) vs ≡ some x) vs u.0
        (KeysUnique-find? vs u.1)),
)

-- A version that is found among those of a document is the one under its number.
pub versions_of-at :
    (document_id : Str) (p : VersionRow → Bool) (st : Documents) {v : VersionRow}
    → find? p (versions_of document_id st) ≡ some v
    → KeysUnique st.versions
    → (v.document_id ≡ document_id) × (version_at document_id v.version st ≡ some v)
unfolding versions_of version_at
versions_of-at document_id p st {v} h u =
    let own : VersionRow → Type 0 = λ x.
      (x.document_id ≡ document_id)
      × (find? (is_version x.document_id x.version) st.versions ≡ some x) in
    let mine = filter (λ x. str_eq x.document_id document_id) st.versions in
    let (same, at) =
      All_find? own p (versions_of document_id st)
        (All-sort_by by_number own mine (
          All-filter_imp (λ x. find? (is_version x.document_id x.version) st.versions ≡ some x) own
            (λ x. str_eq x.document_id document_id) st.versions
            (λ x k f. ((str_eq_iff x.document_id document_id).0 k, f))
            (KeysUnique-find? st.versions u)))
        h in
    (same, subst (λ d. find? (is_version d v.version) st.versions ≡ some v) same at)

pub restart_version-Reused :
    (moment : Date) (row : DocRow) (v : VersionRow) (st : Documents)
    → v.document_id ≡ row.id
    → version_at row.id v.version st ≡ some v
    → (w : VersionRow) × (version_at row.id v.version (restart_version moment v st) ≡ some w)
      × Reused moment row v w st (restart_version moment v st)
unfolding restart_version drop_draft version_at
restart_version-Reused moment row v st same at = elim (Bool-cases (same_state v.state kb_ready)) [
  | inl e ↦ (
    v,
    rw (restart_version, e) at,
    inl (e, refl, rw (restart_version, e) refl, rw (restart_version, e) refl),
  )
  | inr e ↦
      let again : VersionRow → VersionRow = λ w. record w {
        state = kb_processing;
        reason = [];
        finished_at = none;
        claimed_at = some moment;
      } in
      (
        again v,
        rw (restart_version, e)
            (find?-set_version row.id v.version again st.versions (λ d m w. refl) at),
        inr (
          e,
          refl,
          rw (restart_version, e, same)
              (filter-update_first (is_version row.id v.version) again st.versions (λ y. refl)),
          rw (restart_version, e, same) refl,
        ),
      )
]

pub version_at-versions :
    (document_id : Str) (n : ℕ) (st st' : Documents)
    → st'.versions ≡ st.versions
    → version_at document_id n st' ≡ version_at document_id n st
unfolding version_at
version_at-versions document_id n st st' same = ap (find? (is_version document_id n)) same

pub begun-at :
    (row : DocRow) (n : ℕ) (st : Documents) {w : VersionRow}
    → version_at row.id n st ≡ some w
    → (begun row n st).1 ≡ some (kb_version st w)
begun-at row n st h = rw (begun, h) refl

pub Reused-kept :
    (moment : Date) (row : DocRow) (v w : VersionRow) (st s s' : Documents)
    → s'.versions ≡ s.versions
    → s'.drafts ≡ s.drafts
    → Reused moment row v w st s
    → Reused moment row v w st s'
Reused-kept moment row v w st s s' vs ds (inl (ready, same, versions, drafts)) =
    inl (ready, same, vs ∙ versions, ds ∙ drafts)
Reused-kept moment row v w st s s' vs ds (inr (other, same, versions, drafts)) =
    inr (
      other,
      same,
      ap (filter (λ x. not (is_version row.id v.version x))) vs ∙ versions,
      ds ∙ drafts,
    )
