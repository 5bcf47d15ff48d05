-- ===== src/Text/Equality.antt =====
-- A text, the comparison of two texts, and the test for a prefix.
use Prim.Native.Char.{code}
use Prim.Native.String.{String}
use cogno_engram.Prelude.{
  ℕ, ◌≡◌, refl, ◌↔◌, Bool, true, false, ◌&&◌, List, [], ◌∷◌, ◌++◌, arith, ◌==◌,
}

abbrev pub Str : Type 0
Str = List ℕ

-- The code points of a literal. `String` has its own `[]` and `∷`.
abbrev pub codes : String → Str
codes String.[] = []
codes (String.◌∷◌ c s) = code c ∷ codes s

-- `a == b`
unfoldable pub str_eq : Str → Str → Bool
str_eq [] [] = true
str_eq [] (d ∷ b) = false
str_eq (c ∷ a) [] = false
str_eq (c ∷ a) (d ∷ b) = (c == d) && str_eq a b

str_eq→eq : (a b : Str) → str_eq a b ≡ true → a ≡ b
unfolding str_eq
str_eq→eq [] [] h = refl
str_eq→eq [] (d ∷ b) h = absurd (cc)
str_eq→eq (c ∷ a) [] h = absurd (cc)
str_eq→eq (c ∷ a) (d ∷ b) h = ground (arith, str_eq→eq a b)

pub str_eq_self : (a : Str) → str_eq a a ≡ true
unfolding str_eq
str_eq_self [] = refl
str_eq_self (c ∷ a) = ground (arith, str_eq_self a)

pub str_eq_iff : (a b : Str) → (str_eq a b ≡ true) ↔ (a ≡ b)
str_eq_iff a b = (str_eq→eq a b, λ e. rw e (str_eq_self b))

pub str_eq_comm : (a b : Str) → str_eq a b ≡ str_eq b a
str_eq_comm a b = ground (arith, str_eq_iff a b, str_eq_iff b a)

-- `a == b` for two lists of texts.
unfoldable pub texts_eq : List Str → List Str → Bool
unfolding str_eq
texts_eq [] [] = true
texts_eq [] (d ∷ b) = false
texts_eq (c ∷ a) [] = false
texts_eq (c ∷ a) (d ∷ b) = str_eq c d && texts_eq a b

pub texts_eq_self : (a : List Str) → texts_eq a a ≡ true
unfolding texts_eq
texts_eq_self [] = refl
texts_eq_self (c ∷ a) = ground (arith, str_eq_self c, texts_eq_self a)

-- `s.startswith(p)`
unfoldable pub starts_with : Str → Str → Bool
starts_with s [] = true
starts_with [] (d ∷ p) = false
starts_with (c ∷ s) (d ∷ p) = (c == d) && starts_with s p

pub starts_with-append : (p s : Str) → starts_with (p ++ s) p ≡ true
unfolding starts_with
starts_with-append [] s = refl
starts_with-append (c ∷ p) s = ground (arith, starts_with-append p s)
