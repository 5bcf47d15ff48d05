-- ===== src/Text/Solid.antt =====
-- What `str.strip` leaves of a text: its characters that are not white space, and its length.
use cogno_engram.Prelude.{
  ℕ, zero, suc, ◌+◌, ◌≤◌, ◌≡◌, refl, ◌∙◌, false, not, [], ◌∷◌, ◌++◌, arith, inl, inr, Bool-cases,
  length, filter, take, drop,
}
use cogno_engram.Text.Equality.{Str}
use cogno_engram.Text.Strip.{is_space, is_empty, lstrip, rstrip, strip, is_blank, keep_last}

pub length-lstrip-le : (s : Str) → length (lstrip s) ≤ length s
unfolding lstrip
length-lstrip-le [] = omega arith
length-lstrip-le (c ∷ s) = ground (arith, length-lstrip-le s)

length-keep_last-le : (c : ℕ) (s : Str) → length (keep_last c s) ≤ length s + 1
unfolding keep_last
length-keep_last-le c [] = ground arith
length-keep_last-le c (d ∷ s) = omega arith

pub length-rstrip-le : (s : Str) → length (rstrip s) ≤ length s
unfolding rstrip
length-rstrip-le [] = omega arith
length-rstrip-le (c ∷ s) = omega (arith, length-keep_last-le c (rstrip s), length-rstrip-le s)

pub length-strip-le : (s : Str) → length (strip s) ≤ length s
unfolding strip
length-strip-le s = omega (arith, length-rstrip-le (lstrip s), length-lstrip-le s)

-- The characters that are not white space, in their order.
abbrev pub solid : Str → Str
solid s = filter (λ c. not (is_space c)) s

pub solid-append : (a b : Str) → solid (a ++ b) ≡ solid a ++ solid b
solid-append [] b = refl
solid-append (c ∷ a) b = ground (arith, solid-append a b)

pub solid-lstrip : (s : Str) → solid (lstrip s) ≡ solid s
unfolding lstrip
solid-lstrip [] = refl
solid-lstrip (c ∷ s) = ground (arith, solid-lstrip s)

solid-keep_last : (c : ℕ) (s : Str) → solid (keep_last c s) ≡ solid (c ∷ s)
unfolding keep_last
solid-keep_last c [] = ground arith
solid-keep_last c (d ∷ s) = refl

pub solid-rstrip : (s : Str) → solid (rstrip s) ≡ solid s
unfolding rstrip
solid-rstrip [] = refl
solid-rstrip (c ∷ s) = ground (arith, solid-keep_last c (rstrip s), solid-rstrip s)

pub solid-strip : (s : Str) → solid (strip s) ≡ solid s
unfolding strip
solid-strip s = solid-rstrip (lstrip s) ∙ solid-lstrip s

pub solid-take-drop : (n : ℕ) (s : Str) → solid (take n s) ++ solid (drop n s) ≡ solid s
solid-take-drop zero s = refl
solid-take-drop (suc n) [] = refl
solid-take-drop (suc n) (c ∷ s) = ground (arith, solid-take-drop n s)

pub keep_last_solid : (c : ℕ) (s : Str) → is_space c ≡ false → is_empty (keep_last c s) ≡ false
unfolding keep_last
keep_last_solid c [] h = ground arith
keep_last_solid c (d ∷ s) h = refl

-- A text whose first character is solid is not blank.
pub is_blank-cons : (c : ℕ) (s : Str) → is_space c ≡ false → is_blank (c ∷ s) ≡ false
unfolding is_blank strip lstrip rstrip
is_blank-cons c s h = rw h (keep_last_solid c (rstrip s) h)

-- A text is blank exactly when nothing of it is solid.
pub solid_blank : (s : Str) → is_blank s ≡ is_empty (solid s)
unfolding is_blank strip lstrip rstrip
solid_blank [] = refl
solid_blank (c ∷ s) = elim (Bool-cases (is_space c)) [
  | inl e ↦ rw e (solid_blank s)
  | inr e ↦ rw e (keep_last_solid c (rstrip s) e)
]
