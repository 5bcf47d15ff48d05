-- ===== src/Prelude/Sorting.antt =====
-- Python's stable sort: `le a b` says that `a` may stand before `b`.
use mathlib.Core.Path.{◌≡◌}
use mathlib.Core.Bool.{Bool, true, false}
use mathlib.Core.List.{List, [], ◌∷◌, Perm}
use mathlib.Core.List.Perm
use mathlib.Core.Logic.{inl, inr}
use cogno_engram.Prelude.Tests.{if◌then◌else◌, Bool-cases}
use cogno_engram.Prelude.Members.{All, All-map, Pairwise}

module _ {ℓ} {A : Type ℓ} (le : A → A → Bool) where
  -- Before the first element that may follow it.
  abbrev pub insert_sorted : A → List A → List A
  insert_sorted a [] = a ∷ []
  insert_sorted a (x ∷ xs) =
      let rest = insert_sorted a xs in if le a x then a ∷ x ∷ xs else x ∷ rest

  abbrev pub sort_by : List A → List A
  sort_by [] = []
  sort_by (x ∷ xs) = insert_sorted x (sort_by xs)

  pub insert_sorted-All {κ} :
      (P : A → Type κ) (a : A) (xs : List A) → P a → All P xs → All P (insert_sorted a xs)
  insert_sorted-All P a [] h hs = (h, hs)
  insert_sorted-All P a (x ∷ xs) h hs = elim (Bool-cases (le a x)) [
    | inl e ↦ rw e (h, hs)
    | inr e ↦ rw e (hs.0, insert_sorted-All P a xs h hs.1)
  ]

  pub All-sort_by {κ} : (P : A → Type κ) (xs : List A) → All P xs → All P (sort_by xs)
  All-sort_by P [] h = h
  All-sort_by P (x ∷ xs) h = insert_sorted-All P x (sort_by xs) h.0 (All-sort_by P xs h.1)

  insert_sorted-perm : (a : A) (xs : List A) → Perm (insert_sorted a xs) (a ∷ xs)
  insert_sorted-perm a [] = Perm.refl (a ∷ [])
  insert_sorted-perm a (x ∷ xs) = elim (Bool-cases (le a x)) [
    | inl e ↦ rw e (Perm.refl (a ∷ x ∷ xs))
    | inr e ↦ rw e (Perm.trans (Perm.cons x (insert_sorted-perm a xs)) (Perm.swap a x xs))
  ]

  pub sort_by-perm : (xs : List A) → Perm (sort_by xs) xs
  sort_by-perm [] = Perm.refl []
  sort_by-perm (x ∷ xs) =
      Perm.trans (insert_sorted-perm x (sort_by xs)) (Perm.cons x (sort_by-perm xs))

  -- A total and transitive test leaves the list ordered by it.
  module _ (total : (a b : A) → le a b ≡ false → le b a ≡ true)
      (trans : (a b c : A) → le a b ≡ true → le b c ≡ true → le a c ≡ true) where
    insert_sorted-Pairwise :
        (a : A) (xs : List A)
        → Pairwise (λ x y. le x y ≡ true) xs
        → Pairwise (λ x y. le x y ≡ true) (insert_sorted a xs)
    insert_sorted-Pairwise a [] h = (tt, tt)
    insert_sorted-Pairwise a (x ∷ xs) h = elim (Bool-cases (le a x)) [
      | inl e ↦
          rw e
            ((e, All-map (λ y. le x y ≡ true) (λ y. le a y ≡ true) xs (λ y. trans a x y e) h.0), h)
      | inr e ↦ rw e (
        insert_sorted-All (λ y. le x y ≡ true) a xs (total a x e) h.0,
        insert_sorted-Pairwise a xs h.1,
      )
    ]

    pub sort_by-Pairwise : (xs : List A) → Pairwise (λ x y. le x y ≡ true) (sort_by xs)
    sort_by-Pairwise [] = tt
    sort_by-Pairwise (x ∷ xs) = insert_sorted-Pairwise x (sort_by xs) (sort_by-Pairwise xs)
