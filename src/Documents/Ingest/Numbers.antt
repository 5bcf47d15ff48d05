-- ===== src/Documents/Ingest/Numbers.antt =====
-- in_memory.py, `begin_version`: the numbers of versions, and what an original leaves of them.
use cogno_engram.Prelude.{
  ℕ, ◌+◌, ◌≡◌, refl, ◌∙◌, sym, subst, Bool, true, false, not, Option, none, some, List, [], ◌∷◌,
  arith, any, filter, leb, ltb, sort_by-Pairwise, Bool-cases, Option-cases, inl, inr, not_none,
  some_same, All, All-map, All-not_any, All-of_filter, Pairwise, Pairwise-update_first,
}
use cogno_engram.Text.{Str, str_eq}
use cogno_engram.Types.{Date}
use cogno_engram.Documents.Rules.{same_state, kb_ready}
use cogno_engram.Documents.State.{
  DocRow, VersionRow, Documents, is_version, is_original, versions_of, last_version, drop_draft,
}
use cogno_engram.Prelude.{any-sort_by}
use cogno_engram.Documents.Ingest.{restart_version, keep_original, put_original, next_number}

-- No two versions share document and number.
abbrev pub KeysUnique : List VersionRow → Type 0
KeysUnique = Pairwise (λ a b. is_version a.document_id a.version b ≡ false)

abbrev pub by_number : VersionRow → VersionRow → Bool
by_number a b = leb a.version b.version

-- The last of a sorted list has the largest number.
last-largest :
    (vs : List VersionRow) {v : VersionRow}
    → Pairwise (λ a b. by_number a b ≡ true) vs
    → last_version vs ≡ some v
    → any (λ w. not (leb w.version v.version)) vs ≡ false
last-largest [] h e = absurd (not_none e)
last-largest (w ∷ []) {v} h e =
    let same : w ≡ v = some_same e in
    subst (λ u. any (λ x. not (leb x.version u.version)) (w ∷ []) ≡ false) same (ground arith)
last-largest (w ∷ x ∷ vs) {v} h e =
    let rest = last-largest (x ∷ vs) h.1 e in ground (arith, h.0.0, rest)

last-none : (vs : List VersionRow) → last_version vs ≡ none → any (λ w. true) vs ≡ false
last-none [] e = refl
last-none (w ∷ []) e = absurd (not_none (sym e))
last-none (w ∷ x ∷ vs) e = absurd (clash (last-none (x ∷ vs) e))
  where
    clash : true ≡ false → ⊥
    clash h = cc

any-false {ℓ} :
    {A : Type ℓ} (p q : A → Bool) (xs : List A)
    → ((x : A) → q x ≡ true → p x ≡ true)
    → any p xs ≡ false
    → any q xs ≡ false
any-false p q [] f h = refl
any-false p q (x ∷ xs) f h = ground (arith, f x, any-false p q xs f)

pub above_all :
    (document_id : Str) (st : Documents)
    → All
        (λ w.
          str_eq w.document_id document_id ≡ true
          → ltb w.version (next_number document_id st) ≡ true)
        st.versions
unfolding versions_of
above_all document_id st =
    let mine = filter (λ w. str_eq w.document_id document_id) st.versions in
    All-of_filter (λ w. ltb w.version (next_number document_id st) ≡ true)
      (λ w. str_eq w.document_id document_id) st.versions
      (All-map (λ w. not (ltb w.version (next_number document_id st)) ≡ false) _ mine
        (λ w h. ground (arith, h))
        (All-not_any (λ w. not (ltb w.version (next_number document_id st))) mine
          (sym (any-sort_by by_number (λ w. not (ltb w.version (next_number document_id st))) mine)
            ∙ elim (Option-cases (last_version (versions_of document_id st))) [
              | inl e ↦
                  any-false (λ w. true) _ (versions_of document_id st) (λ w _. refl)
                    (last-none (versions_of document_id st) e)
              | inr (v, e) ↦
                  rw (next_number, e)
                    (any-false (λ w. not (leb w.version v.version))
                      (λ w. not (ltb w.version (v.version + 1))) (versions_of document_id st)
                      (λ w h. ground (arith, h))
                      (last-largest (versions_of document_id st)
                        (sort_by-Pairwise by_number (λ a b h. ground (arith, h))
                          (λ a b c h k. ground (arith, h, k)) mine)
                        e))
            ])))

pub keep_original-versions :
    (row : DocRow) (n : ℕ) (original : Option (List ℕ)) (st : Documents)
    → ((keep_original row n original st).versions ≡ st.versions)
      × ((keep_original row n original st).docs ≡ st.docs)
      × ((keep_original row n original st).drafts ≡ st.drafts)
unfolding keep_original
keep_original-versions row n none st = (refl, refl, refl)
keep_original-versions row n (some bytes) st =
    elim (Bool-cases (any (is_original row.id n) st.originals)) [
      | inl e ↦ (rw e, rw e, rw e)
      | inr e ↦ (rw e, rw e, rw e)
    ]

pub put_original-versions :
    (row : DocRow) (n : ℕ) (original : Option (List ℕ)) (st : Documents)
    → ((put_original row n original st).versions ≡ st.versions)
      × ((put_original row n original st).docs ≡ st.docs)
unfolding put_original
put_original-versions row n none st = (refl, refl)
put_original-versions row n (some bytes) st = (refl, refl)

pub restart_version_unique :
    (claimed : Date) (v : VersionRow) (st : Documents)
    → KeysUnique st.versions
    → KeysUnique (restart_version claimed v st).versions
unfolding restart_version drop_draft
restart_version_unique claimed v st u = elim (Bool-cases (same_state v.state kb_ready)) [
  | inl e ↦ rw e u
  | inr e ↦ rw e (
      Pairwise-update_first (λ a b. is_version a.document_id a.version b ≡ false)
        (is_version v.document_id v.version) _ st.versions (λ x y _ h. h) (λ x y _ h. h) u)
]
