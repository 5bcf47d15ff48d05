-- ===== src/Prelude/Find.antt =====
-- What a test finds in a list that is sorted, mapped or filtered.
use mathlib.Core.Path.{◌≡◌, refl, ◌∙◌, ap}
use mathlib.Core.Bool.{Bool, true, false, not, ◌&&◌, ◌||◌}
use mathlib.Core.List.{List, [], ◌∷◌, ◌++◌, map, Memᴰ}
use mathlib.Core.Option.{some}
use mathlib.Core.Logic.{inl, inr}
use native.Mathlib.Omega.{arith}
use Prim.Native.Nat.{ℕ, zero, suc}
use cogno_engram.Prelude.Tests.{Bool-cases}
use cogno_engram.Prelude.Lists.{any, filter, update_first, find?, take}
use cogno_engram.Prelude.Members.{All-at, All-not_any}
use cogno_engram.Prelude.Sorting.{insert_sorted, sort_by}

pub any-insert_sorted {ℓ} :
    {A : Type ℓ} (le : A → A → Bool) (p : A → Bool) (a : A) (xs : List A)
    → any p (insert_sorted le a xs) ≡ (p a || any p xs)
any-insert_sorted le p a [] = refl
any-insert_sorted le p a (x ∷ xs) = ground (arith, any-insert_sorted le p a xs)

pub any-sort_by {ℓ} :
    {A : Type ℓ} (le : A → A → Bool) (p : A → Bool) (xs : List A) → any p (sort_by le xs) ≡ any p xs
any-sort_by le p [] = refl
any-sort_by le p (x ∷ xs) =
    any-insert_sorted le p x (sort_by le xs) ∙ ap (λ b. p x || b) (any-sort_by le p xs)

pub any-map {ℓ κ} :
    {A : Type ℓ} {B : Type κ} (p : B → Bool) (f : A → B) (xs : List A)
    → any p (map f xs) ≡ any (λ x. p (f x)) xs
any-map p f [] = refl
any-map p f (x ∷ xs) = ap (λ b. p (f x) || b) (any-map p f xs)

pub any-filter_and {ℓ} :
    {A : Type ℓ} (p q : A → Bool) (xs : List A) → any p (filter q xs) ≡ any (λ x. q x && p x) xs
any-filter_and p q [] = refl
any-filter_and p q (x ∷ xs) = ground (arith, any-filter_and p q xs)

pub any-at {ℓ} :
    {A : Type ℓ} (p : A → Bool) (xs : List A) {x : A} → Memᴰ x xs → p x ≡ true → any p xs ≡ true
any-at p xs {x} m h = elim (Bool-cases (any p xs)) [
  | inl e ↦ e
  | inr e ↦ absurd (clash h (All-at (λ y. p y ≡ false) xs (All-not_any p xs e) m))
]
  where
    clash : {b : Bool} → b ≡ true → b ≡ false → ⊥
    clash h k = cc

-- What is found under a key that survives is found as before.
pub find?-filter {ℓ} :
    {A : Type ℓ} (q p : A → Bool) (xs : List A)
    → ((x : A) → q x ≡ true → p x ≡ true)
    → find? q (filter p xs) ≡ find? q xs
find?-filter q p [] keep = refl
find?-filter q p (x ∷ xs) keep = ground (arith, keep x, find?-filter q p xs keep)

pub any-take {ℓ} :
    {A : Type ℓ} (p : A → Bool) (n : ℕ) (xs : List A) → any p xs ≡ false → any p (take n xs) ≡ false
any-take p zero xs h = refl
any-take p (suc n) [] h = refl
any-take p (suc n) (x ∷ xs) h = ground (arith, any-take p n xs)

pub filter_cong {ℓ} :
    {A : Type ℓ} (p q : A → Bool) (xs : List A) → ((x : A) → p x ≡ q x) → filter p xs ≡ filter q xs
filter_cong p q [] same = refl
filter_cong p q (x ∷ xs) same = ground (arith, same x, filter_cong p q xs same)

pub filter_all {ℓ} :
    {A : Type ℓ} (p : A → Bool) (xs : List A) → ((x : A) → p x ≡ true) → filter p xs ≡ xs
filter_all p [] h = refl
filter_all p (x ∷ xs) h = rw (h x) (ap (λ ys. x ∷ ys) (filter_all p xs h))

pub filter-filter_and {ℓ} :
    {A : Type ℓ} (p q : A → Bool) (xs : List A)
    → filter p (filter q xs) ≡ filter (λ x. q x && p x) xs
filter-filter_and p q [] = refl
filter-filter_and p q (x ∷ xs) = ground (arith, filter-filter_and p q xs)

pub filter_no {ℓ} :
    {A : Type ℓ} (p : A → Bool) (xs : List A) → any p xs ≡ false → filter (λ x. not (p x)) xs ≡ xs
filter_no p [] h = refl
filter_no p (x ∷ xs) h = ground (arith, filter_no p xs)

pub find?-update_first_found {ℓ} :
    {A : Type ℓ} (p : A → Bool) (f : A → A) (xs : List A) {x : A}
    → ((y : A) → p (f y) ≡ p y)
    → find? p xs ≡ some x
    → find? p (update_first p f xs) ≡ some (f x)
find?-update_first_found p f [] same h = absurd (cc)
find?-update_first_found p f (y ∷ xs) {x} same h =
    ground (arith, same y, find?-update_first_found p f xs {x = x} same)

-- What a test passes over is untouched by a write where it holds, and by an element that it takes.
pub filter-update_first {ℓ} :
    {A : Type ℓ} (p : A → Bool) (f : A → A) (xs : List A)
    → ((y : A) → p (f y) ≡ p y)
    → filter (λ y. not (p y)) (update_first p f xs) ≡ filter (λ y. not (p y)) xs
filter-update_first p f [] same = refl
filter-update_first p f (x ∷ xs) same = ground (arith, same x, filter-update_first p f xs same)

pub filter-snoc {ℓ} :
    {A : Type ℓ} (p : A → Bool) (xs : List A) (y : A)
    → p y ≡ true
    → filter (λ x. not (p x)) (xs ++ y ∷ []) ≡ filter (λ x. not (p x)) xs
filter-snoc p [] y k = rw k refl
filter-snoc p (x ∷ xs) y k = ground (arith, filter-snoc p xs y k)
