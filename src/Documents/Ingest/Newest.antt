-- ===== src/Documents/Ingest/Newest.antt =====
-- in_memory.py: the newest version of a document, by the numbers of its versions alone.
use cogno_engram.Prelude.{
  ℕ, ◌≡◌, refl, sym, ◌∙◌, ap, Bool, false, none, some, List, [], ◌∷◌, map, filter, update_first,
  leb, ◌==◌, sort_by, insert_sorted, Bool-cases, inl, inr,
}
use cogno_engram.Text.{Str, str_eq}
use cogno_engram.Documents.State.{VersionRow, Documents, is_version, versions_of, last_version}
use cogno_engram.Documents.Ingest.{is_newest}

-- The numbers of the versions of a document, in the order of the rows.
abbrev pub numbers : Str → List VersionRow → List ℕ
numbers document_id vs = map (λ v. v.version) (filter (λ v. str_eq v.document_id document_id) vs)

insert-version :
    (v : VersionRow) (vs : List VersionRow)
    → map (λ w. w.version) (insert_sorted (λ a b. leb a.version b.version) v vs)
      ≡ insert_sorted leb v.version (map (λ w. w.version) vs)
insert-version v [] = refl
insert-version v (w ∷ vs) = elim (Bool-cases (leb v.version w.version)) [
  | inl e ↦ rw e refl
  | inr e ↦ rw e (ap (λ t. w.version ∷ t) (insert-version v vs))
]

sort-version :
    (vs : List VersionRow)
    → map (λ w. w.version) (sort_by (λ a b. leb a.version b.version) vs)
      ≡ sort_by leb (map (λ w. w.version) vs)
sort-version [] = refl
sort-version (v ∷ vs) =
    insert-version v (sort_by (λ a b. leb a.version b.version) vs)
    ∙ ap (insert_sorted leb v.version) (sort-version vs)

ends_with : ℕ → List ℕ → Bool
ends_with n [] = false
ends_with n (m ∷ []) = m == n
ends_with n (m ∷ k ∷ ms) = ends_with n (k ∷ ms)

last-ends_with :
    (vs : List VersionRow) (n : ℕ)
    → (elim (last_version vs) as (λ _. Bool) [ none ↦ false | some w ↦ w.version == n ])
      ≡ ends_with n (map (λ w. w.version) vs)
unfolding ends_with
last-ends_with [] n = refl
last-ends_with (v ∷ []) n = refl
last-ends_with (v ∷ w ∷ vs) n = last-ends_with (w ∷ vs) n

is_newest-numbers :
    (document_id : Str) (v : VersionRow) (st : Documents)
    → is_newest document_id v st
      ≡ ends_with v.version (sort_by leb (numbers document_id st.versions))
unfolding versions_of
is_newest-numbers document_id v st =
    last-ends_with (versions_of document_id st) v.version
    ∙ ap (ends_with v.version)
        (sort-version (filter (λ w. str_eq w.document_id document_id) st.versions))

numbers-update :
    (document_id : Str) (p : VersionRow → Bool) (f : VersionRow → VersionRow) (vs : List VersionRow)
    → ((w : VersionRow) → (f w).document_id ≡ w.document_id)
    → ((w : VersionRow) → (f w).version ≡ w.version)
    → numbers document_id (update_first p f vs) ≡ numbers document_id vs
numbers-update document_id p f [] d n = refl
numbers-update document_id p f (v ∷ vs) d n = elim (Bool-cases (p v)) [
  | inl e ↦ elim (Bool-cases (str_eq v.document_id document_id)) [
    | inl g ↦ rw (e, d v, g) (rw (n v) refl)
    | inr g ↦ rw (e, d v, g) refl
  ]
  | inr e ↦ elim (Bool-cases (str_eq v.document_id document_id)) [
    | inl g ↦ rw (e, g) (ap (λ t. v.version ∷ t) (numbers-update document_id p f vs d n))
    | inr g ↦ rw (e, g) (numbers-update document_id p f vs d n)
  ]
]

-- A change of a row that leaves its key leaves what is newest.
pub is_newest-set :
    (document_id : Str) (v w : VersionRow) (d : Str) (m : ℕ) (f : VersionRow → VersionRow)
    (st st' : Documents)
    → ((w : VersionRow) → (f w).document_id ≡ w.document_id)
    → ((w : VersionRow) → (f w).version ≡ w.version)
    → w.version ≡ v.version
    → st'.versions ≡ update_first (is_version d m) f st.versions
    → is_newest document_id w st' ≡ is_newest document_id v st
is_newest-set document_id v w d m f st st' keeps_document keeps_number same changed =
    is_newest-numbers document_id w st'
    ∙ ap (λ n. ends_with n (sort_by leb (numbers document_id st'.versions))) same
    ∙ ap (λ vs. ends_with v.version (sort_by leb vs))
        (ap (numbers document_id) changed
          ∙ numbers-update document_id (is_version d m) f st.versions keeps_document keeps_number)
    ∙ sym (is_newest-numbers document_id v st)
