-- ===== src/Prelude/Members.antt =====
-- Predicates on all elements of a list and on all pairs, with the lemmas on Boolean filters.
use Prim.Native.Nat.{ℕ, zero, suc}
use mathlib.Core.Path.{◌≡◌, refl, sym, subst}
use mathlib.Core.Bool.{Bool, true, false, ◌||◌, not}
use mathlib.Core.List.{List, [], ◌∷◌, ◌++◌, Memᴰ}
use mathlib.Core.Logic.{◌⊎◌, inl, inr}
use mathlib.Core.Option.{none, some}
use native.Mathlib.Omega.{arith}
use cogno_engram.Prelude.Tests.{Bool-cases}
use cogno_engram.Prelude.Lists.{length, take, filter, any, find?, update_first, update_all}

-- A predicate by recursion computes to tuples, which the tactics read and build.
abbrev pub All {ℓ κ} : {A : Type ℓ} → (A → Type κ) → List A → Type κ
All P [] = Unit
All P (x ∷ xs) = P x × All P xs

-- Each element is related to every later one.
abbrev pub Pairwise {ℓ κ} : {A : Type ℓ} → (A → A → Type κ) → List A → Type κ
Pairwise R [] = Unit
Pairwise R (x ∷ xs) = All (R x) xs × Pairwise R xs

module _ {ℓ κ} {A : Type ℓ} (P : A → Type κ) where
  pub All-append : (xs ys : List A) → All P xs → All P ys → All P (xs ++ ys)
  All-append [] ys hx hy = hy
  All-append (x ∷ xs) ys hx hy = (hx.0, All-append xs ys hx.1 hy)

  pub All-take : (n : ℕ) (xs : List A) → All P xs → All P (take n xs)
  All-take zero xs h = tt
  All-take (suc n) [] h = tt
  All-take (suc n) (x ∷ xs) h = (h.0, All-take n xs h.1)

  pub All-filter : (p : A → Bool) (xs : List A) → All P xs → All P (filter p xs)
  All-filter p [] h = tt
  All-filter p (x ∷ xs) h = elim (Bool-cases (p x)) [
    | inl e ↦ rw e (h.0, All-filter p xs h.1)
    | inr e ↦ rw e (All-filter p xs h.1)
  ]

  -- A filter leaves what passes: `P` holds of it if the test says so.
  pub All-filter_of :
      (p : A → Bool) (xs : List A) → ((x : A) → p x ≡ true → P x) → All P (filter p xs)
  All-filter_of p [] h = tt
  All-filter_of p (x ∷ xs) h = elim (Bool-cases (p x)) [
    | inl e ↦ rw e (h x e, All-filter_of p xs h)
    | inr e ↦ rw e (All-filter_of p xs h)
  ]

  pub All_find? : (p : A → Bool) (xs : List A) {x : A} → All P xs → find? p xs ≡ some x → P x
  All_find? p [] h e = absurd (cc)
  All_find? p (y ∷ xs) {x} h e = elim (Bool-cases (p y)) [
    | inl t ↦ subst P (ground arith) h.0
    | inr f ↦ All_find? p xs h.1 (ground arith)
  ]

  pub All-update_first :
      (p : A → Bool) (f : A → A) (xs : List A)
      → ((x : A) → p x ≡ true → P x → P (f x))
      → All P xs
      → All P (update_first p f xs)
  All-update_first p f [] keep h = tt
  All-update_first p f (x ∷ xs) keep h = elim (Bool-cases (p x)) [
    | inl e ↦ rw e (keep x e h.0, h.1)
    | inr e ↦ rw e (h.0, All-update_first p f xs keep h.1)
  ]

  pub All-update_all :
      (p : A → Bool) (f : A → A) (xs : List A)
      → ((x : A) → p x ≡ true → P x → P (f x))
      → All P xs
      → All P (update_all p f xs)
  All-update_all p f [] keep h = tt
  All-update_all p f (x ∷ xs) keep h = elim (Bool-cases (p x)) [
    | inl e ↦ rw e (keep x e h.0, All-update_all p f xs keep h.1)
    | inr e ↦ rw e (h.0, All-update_all p f xs keep h.1)
  ]

module _ {ℓ κ κ'} {A : Type ℓ} (P : A → Type κ) (Q : A → Type κ') where
  pub All-map : (xs : List A) → ((x : A) → P x → Q x) → All P xs → All Q xs
  All-map [] f h = tt
  All-map (x ∷ xs) f h = (f x h.0, All-map xs f h.1)

module _ {ℓ κ} {A : Type ℓ} (R : A → A → Type κ) where
  pub Pairwise-filter : (p : A → Bool) (xs : List A) → Pairwise R xs → Pairwise R (filter p xs)
  Pairwise-filter p [] h = tt
  Pairwise-filter p (x ∷ xs) h = elim (Bool-cases (p x)) [
    | inl e ↦ rw e (All-filter (R x) p xs h.0, Pairwise-filter p xs h.1)
    | inr e ↦ rw e (Pairwise-filter p xs h.1)
  ]

  pub Pairwise-snoc :
      (xs : List A) (a : A) → Pairwise R xs → All (λ x. R x a) xs → Pairwise R (xs ++ a ∷ [])
  Pairwise-snoc [] a h k = (tt, tt)
  Pairwise-snoc (x ∷ xs) a h k =
      (All-append (R x) xs (a ∷ []) h.0 (k.0, tt), Pairwise-snoc xs a h.1 k.1)

  -- A change in place that relates to the others as before keeps the pairs related.
  pub Pairwise-update_first :
      (p : A → Bool) (f : A → A) (xs : List A)
      → ((x y : A) → p x ≡ true → R x y → R (f x) y)
      → ((x y : A) → p y ≡ true → R x y → R x (f y))
      → Pairwise R xs
      → Pairwise R (update_first p f xs)
  Pairwise-update_first p f [] l r h = tt
  Pairwise-update_first p f (x ∷ xs) l r h = elim (Bool-cases (p x)) [
    | inl e ↦ rw e (All-map (R x) (R (f x)) xs (λ y. l x y e) h.0, h.1)
    | inr e ↦
        rw e (All-update_first (R x) p f xs (λ y. r x y) h.0, Pairwise-update_first p f xs l r h.1)
  ]

  pub Pairwise-update_all :
      (p : A → Bool) (f : A → A) (xs : List A)
      → ((x y : A) → R x y → R (f x) y)
      → ((x y : A) → R x y → R x (f y))
      → Pairwise R xs
      → Pairwise R (update_all p f xs)
  Pairwise-update_all p f [] l r h = tt
  Pairwise-update_all p f (x ∷ xs) l r h = elim (Bool-cases (p x)) [
    | inl e ↦ rw e (
      All-update_all (R (f x)) p f xs (λ y _. r (f x) y) (All-map (R x) (R (f x)) xs (l x) h.0),
      Pairwise-update_all p f xs l r h.1,
    )
    | inr e ↦
        rw e (All-update_all (R x) p f xs (λ y _. r x y) h.0, Pairwise-update_all p f xs l r h.1)
  ]

module _ {ℓ} {A : Type ℓ} where
  -- No element passes a test that `any` refuses.
  pub All-not_any : (p : A → Bool) (xs : List A) → any p xs ≡ false → All (λ x. p x ≡ false) xs
  All-not_any p [] h = tt
  All-not_any p (x ∷ xs) h = (ground arith, All-not_any p xs (ground arith))

  pub any_of_All-not : (p : A → Bool) (xs : List A) → All (λ x. p x ≡ false) xs → any p xs ≡ false
  any_of_All-not p [] h = refl
  any_of_All-not p (x ∷ xs) h = ground (arith, any_of_All-not p xs h.1)

  pub find?-eq-none : (p : A → Bool) (xs : List A) → find? p xs ≡ none → All (λ x. p x ≡ false) xs
  find?-eq-none p [] h = tt
  find?-eq-none p (x ∷ xs) h = (ground arith, find?-eq-none p xs (ground arith))

  pub find?-passes : (p : A → Bool) (xs : List A) {x : A} → find? p xs ≡ some x → p x ≡ true
  find?-passes p [] h = absurd (cc)
  find?-passes p (y ∷ xs) {x} h = ground (arith, find?-passes p xs {x = x})

  pub filter_of_All : (p : A → Bool) (xs : List A) → All (λ x. p x ≡ true) xs → filter p xs ≡ xs
  filter_of_All p [] h = refl
  filter_of_All p (x ∷ xs) h = ground (arith, filter_of_All p xs h.1)

  pub filter_of_All-not :
      (p : A → Bool) (xs : List A) → All (λ x. p x ≡ false) xs → filter p xs ≡ []
  filter_of_All-not p [] h = refl
  filter_of_All-not p (x ∷ xs) h = ground (arith, filter_of_All-not p xs h.1)

  pub length-update_first :
      (p : A → Bool) (f : A → A) (xs : List A) → length (update_first p f xs) ≡ length xs
  length-update_first p f [] = refl
  length-update_first p f (x ∷ xs) = ground (arith, length-update_first p f xs)

  -- A change in place that a test does not see leaves what the test finds.
  pub any-update_first :
      (q p : A → Bool) (f : A → A) (xs : List A)
      → ((x : A) → p x ≡ true → q (f x) ≡ q x)
      → any q (update_first p f xs) ≡ any q xs
  any-update_first q p f [] same = refl
  any-update_first q p f (x ∷ xs) same = ground (arith, same x, any-update_first q p f xs same)

  pub any-append : (p : A → Bool) (xs ys : List A) → any p (xs ++ ys) ≡ (any p xs || any p ys)
  any-append p [] ys = refl
  any-append p (x ∷ xs) ys = ground (arith, any-append p xs ys)

  -- A filter that keeps what a test finds leaves the test's answer.
  pub any-filter :
      (q p : A → Bool) (xs : List A)
      → ((x : A) → q x ≡ true → p x ≡ true)
      → any q (filter p xs) ≡ any q xs
  any-filter q p [] keep = refl
  any-filter q p (x ∷ xs) keep = ground (arith, keep x, any-filter q p xs keep)

  pub filter-filter_comm :
      (p q : A → Bool) (xs : List A) → filter p (filter q xs) ≡ filter q (filter p xs)
  filter-filter_comm p q [] = refl
  filter-filter_comm p q (x ∷ xs) = ground (arith, filter-filter_comm p q xs)

module _ {ℓ κ κ'} {A : Type ℓ} (P : A → Type κ) (Q : A → Type κ') where
  pub All-filter_imp :
      (p : A → Bool) (xs : List A)
      → ((x : A) → p x ≡ true → P x → Q x)
      → All P xs
      → All Q (filter p xs)
  All-filter_imp p [] f h = tt
  All-filter_imp p (x ∷ xs) f h = elim (Bool-cases (p x)) [
    | inl e ↦ rw e (f x e h.0, All-filter_imp p xs f h.1)
    | inr e ↦ rw e (All-filter_imp p xs f h.1)
  ]

  pub All-both : (xs : List A) → All P xs → All Q xs → All (λ x. P x × Q x) xs
  All-both [] h k = tt
  All-both (x ∷ xs) h k = ((h.0, k.0), All-both xs h.1 k.1)

module _ {ℓ} {A : Type ℓ} where
  pub any_of_find? : (p : A → Bool) (xs : List A) {x : A} → find? p xs ≡ some x → any p xs ≡ true
  any_of_find? p [] h = absurd (cc)
  any_of_find? p (y ∷ xs) {x} h = ground (arith, any_of_find? p xs {x = x})

  pub any_of_find?-none : (p : A → Bool) (xs : List A) → find? p xs ≡ none → any p xs ≡ false
  any_of_find?-none p [] h = refl
  any_of_find?-none p (y ∷ xs) h = ground (arith, any_of_find?-none p xs)

  pub any-filter-not : (p : A → Bool) (xs : List A) → any p (filter (λ x. not (p x)) xs) ≡ false
  any-filter-not p [] = refl
  any-filter-not p (x ∷ xs) = ground (arith, any-filter-not p xs)

  -- What a second test keeps is not touched by a filter that keeps all of it.
  pub filter-filter_of :
      (q p : A → Bool) (xs : List A)
      → ((x : A) → q x ≡ true → p x ≡ true)
      → filter q (filter p xs) ≡ filter q xs
  filter-filter_of q p [] keep = refl
  filter-filter_of q p (x ∷ xs) keep = ground (arith, keep x, filter-filter_of q p xs keep)

  pub filter-filter-not : (p : A → Bool) (xs : List A) → filter p (filter (λ x. not (p x)) xs) ≡ []
  filter-filter-not p [] = refl
  filter-filter-not p (x ∷ xs) = ground (arith, filter-filter-not p xs)

  pub List-cases : (xs : List A) → (xs ≡ []) ⊎ ((y : A) × (ys : List A) × (xs ≡ y ∷ ys))
  List-cases [] = inl refl
  List-cases (x ∷ xs) = inr (x, xs, refl)

module _ {ℓ} {A : Type ℓ} where
  pub All-Memᴰ : (xs : List A) → All (λ x. Memᴰ x xs) xs
  All-Memᴰ [] = tt
  All-Memᴰ (x ∷ xs) = (Memᴰ.head refl, All-map _ _ xs (λ y. Memᴰ.tail) (All-Memᴰ xs))

  pub All-at {κ} : (P : A → Type κ) (xs : List A) {x : A} → All P xs → Memᴰ x xs → P x
  All-at P [] h m = elim m [ ]
  All-at P (y ∷ xs) h (Memᴰ.head e) = subst P (sym e) h.0
  All-at P (y ∷ xs) h (Memᴰ.tail m) = All-at P xs h.1 m

  pub All-of_filter {κ} :
      (P : A → Type κ) (p : A → Bool) (xs : List A)
      → All P (filter p xs)
      → All (λ x. p x ≡ true → P x) xs
  All-of_filter P p [] h = tt
  All-of_filter P p (x ∷ xs) h = elim (Bool-cases (p x)) [
    | inl e ↦
        let (here, rest) : P x × All P (filter p xs) = rw e at h in
        (λ _. here, All-of_filter P p xs rest)
    | inr e ↦ (λ t. absurd (cc), All-of_filter P p xs (rw e at h))
  ]

pub find?-update_first {ℓ} :
    {A : Type ℓ} (p : A → Bool) (f : A → A) (xs : List A)
    → ((x : A) → p (f x) ≡ p x)
    → any p xs ≡ true
    → (x : A) × (find? p xs ≡ some x) × (find? p (update_first p f xs) ≡ some (f x))
find?-update_first p f [] same h = absurd (cc)
find?-update_first p f (x ∷ xs) same h = elim (Bool-cases (p x)) [
  | inl e ↦ (x, rw e, rw (e, same x, e))
  | inr e ↦
      let (y, old, new) = find?-update_first p f xs same (ground arith) in
      (y, rw e old, rw (e, e) new)
]

pub find?-snoc {ℓ} :
    {A : Type ℓ} (p : A → Bool) (xs : List A) (y : A)
    → any p xs ≡ false
    → p y ≡ true
    → find? p (xs ++ y ∷ []) ≡ some y
find?-snoc p [] y h k = rw k
find?-snoc p (x ∷ xs) y h k = ground (arith, find?-snoc p xs y)
