-- ===== src/Documents/State/Dropping.antt =====
-- in_memory.py: what is left of a document store once some versions of a document are dropped.
use cogno_engram.Prelude.{
  ℕ, ◌≡◌, refl, ◌∙◌, sym, Bool, true, not, ◌&&◌, some, List, [], ◌∷◌, arith, filter, any,
  find?-passes, ◌==◌,
}
use cogno_engram.Text.{Str, str_eq, str_eq_iff}
use cogno_engram.Documents.State.{
  Documents, VersionRow, version_at, is_version, drop_content, drop_version, drop_versions,
}

-- The key is not one of the dropped ones.
abbrev pub survives : Str → List ℕ → Str → ℕ → Bool
survives document_id ns d v = not (str_eq d document_id && any (λ n. v == n) ns)

filter-two {ℓ} :
    {A : Type ℓ} (p q r : A → Bool) (xs : List A)
    → ((x : A) → r x ≡ (q x && p x))
    → filter p (filter q xs) ≡ filter r xs
filter-two p q r [] h = refl
filter-two p q r (x ∷ xs) h = ground (arith, h x, filter-two p q r xs h)

filter_of_all {ℓ} :
    {A : Type ℓ} (p : A → Bool) (xs : List A) → ((x : A) → p x ≡ true) → filter p xs ≡ xs
filter_of_all p [] h = refl
filter_of_all p (x ∷ xs) h = ground (arith, h x, filter_of_all p xs h)

survives-cons :
    (document_id : Str) (n : ℕ) (ns : List ℕ) (d : Str) (v : ℕ)
    → survives document_id (n ∷ ns) d v
      ≡ (not (str_eq d document_id && (v == n)) && survives document_id ns d v)
survives-cons document_id n ns d v = ground arith

-- Versions, chunks, originals and drafts of the dropped keys go, and nothing else.
pub drop_versions-rows :
    (document_id : Str) (ns : List ℕ) (st : Documents)
    → ((drop_versions document_id ns st).docs ≡ st.docs)
      × ((drop_versions document_id ns st).tombstones ≡ st.tombstones)
      × ((drop_versions document_id ns st).versions
          ≡ filter (λ v. survives document_id ns v.document_id v.version) st.versions)
      × ((drop_versions document_id ns st).chunks
          ≡ filter (λ c. survives document_id ns c.document_id c.version) st.chunks)
      × ((drop_versions document_id ns st).originals
          ≡ filter (λ o. survives document_id ns o.document_id o.version) st.originals)
      × ((drop_versions document_id ns st).drafts
          ≡ filter (λ d. survives document_id ns d.document_id d.version) st.drafts)
unfolding drop_version drop_content
drop_versions-rows document_id [] st = (
  refl,
  refl,
  sym (filter_of_all _ st.versions (λ v. ground arith)),
  sym (filter_of_all _ st.chunks (λ v. ground arith)),
  sym (filter_of_all _ st.originals (λ v. ground arith)),
  sym (filter_of_all _ st.drafts (λ v. ground arith)),
)
drop_versions-rows document_id (n ∷ ns) st =
    let (docs, tombs, versions, chunks, originals, drafts) =
      drop_versions-rows document_id ns (drop_version document_id n st) in
    (
      docs,
      tombs,
      versions
          ∙ filter-two _ _ _ st.versions
              (λ v. survives-cons document_id n ns v.document_id v.version),
      chunks
          ∙ filter-two _ _ _ st.chunks
              (λ v. survives-cons document_id n ns v.document_id v.version),
      originals
          ∙ filter-two _ _ _ st.originals
              (λ v. survives-cons document_id n ns v.document_id v.version),
      drafts
          ∙ filter-two _ _ _ st.drafts
              (λ v. survives-cons document_id n ns v.document_id v.version),
    )

pub version_at-number :
    (document_id : Str) (n : ℕ) (st : Documents) {v : VersionRow}
    → version_at document_id n st ≡ some v
    → v.version ≡ n
unfolding version_at
version_at-number document_id n st h =
    ground (arith, find?-passes (is_version document_id n) st.versions h)

pub version_at-document :
    (document_id : Str) (n : ℕ) (st : Documents) {v : VersionRow}
    → version_at document_id n st ≡ some v
    → v.document_id ≡ document_id
unfolding version_at
version_at-document document_id n st {v} h =
    let found = find?-passes (is_version document_id n) st.versions h in
    ground (arith, found, str_eq_iff v.document_id document_id)
