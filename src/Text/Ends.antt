-- ===== src/Text/Ends.antt =====
-- Texts whose last character is not white space: what the strip methods and a cut leave of them.
use cogno_engram.Prelude.{
  ℕ, zero, suc, ◌<◌, ◌≡◌, refl, ap, Bool, true, false, not, [], ◌∷◌, ◌++◌, arith, inl, inr,
  Bool-cases, length, drop,
}
use cogno_engram.Text.Equality.{Str}
use cogno_engram.Text.Strip.{is_space, is_empty, lstrip, rstrip, strip, is_blank, keep_last}

abbrev pub ends_solid : Str → Bool
ends_solid [] = false
ends_solid (c ∷ []) = not (is_space c)
ends_solid (c ∷ d ∷ s) = ends_solid (d ∷ s)

pub ends_solid-cons : (c : ℕ) (s : Str) → ends_solid s ≡ true → ends_solid (c ∷ s) ≡ true
ends_solid-cons c [] h = absurd (cc)
ends_solid-cons c (d ∷ s) h = h

pub ends_solid-append : (a b : Str) → ends_solid b ≡ true → ends_solid (a ++ b) ≡ true
ends_solid-append [] b h = h
ends_solid-append (c ∷ a) b h = ends_solid-cons c (a ++ b) (ends_solid-append a b h)

pub ends_solid-is_empty : (s : Str) → ends_solid s ≡ true → is_empty s ≡ false
ends_solid-is_empty [] h = absurd (cc)
ends_solid-is_empty (c ∷ s) h = refl

pub rstrip-ends_solid : (s : Str) → ends_solid s ≡ true → rstrip s ≡ s
unfolding rstrip keep_last
rstrip-ends_solid [] h = refl
rstrip-ends_solid (c ∷ []) h = ground arith
rstrip-ends_solid (c ∷ d ∷ s) h = ap (keep_last c) (rstrip-ends_solid (d ∷ s) h)

-- What is left behind the white space at the head is an end of the text.
pub lstrip-ends_solid :
    (s : Str)
    → ends_solid s ≡ true
    → (q : Str) × (s ≡ q ++ lstrip s) × (ends_solid (lstrip s) ≡ true)
unfolding lstrip
lstrip-ends_solid [] h = absurd (cc)
lstrip-ends_solid (c ∷ s) h = elim (Bool-cases (is_space c)) [
  | inl e ↦
      let (q, whole, last) = lstrip-ends_solid s (solid_rest c s e h) in
      (c ∷ q, rw e (ap (λ t. c ∷ t) whole), rw e last)
  | inr e ↦ ([], rw e refl, rw e h)
]
  where
    solid_rest :
        (c : ℕ) (s : Str) → is_space c ≡ true → ends_solid (c ∷ s) ≡ true → ends_solid s ≡ true
    solid_rest c [] e h = ground arith
    solid_rest c (d ∷ s) e h = h

pub strip-ends_solid :
    (s : Str) → ends_solid s ≡ true → (q : Str) × (s ≡ q ++ strip s) × (ends_solid (strip s) ≡ true)
unfolding strip
strip-ends_solid s h =
    let (q, whole, last) = lstrip-ends_solid s h in
    rw (rstrip-ends_solid (lstrip s) last) (q, whole, last)

pub ends_solid-is_blank : (s : Str) → ends_solid s ≡ true → is_blank s ≡ false
unfolding is_blank
ends_solid-is_blank s h =
    let (q, whole, last) = strip-ends_solid s h in ends_solid-is_empty (strip s) last

pub drop-ends_solid :
    (n : ℕ) (s : Str) → n < length s → ends_solid s ≡ true → ends_solid (drop n s) ≡ true
drop-ends_solid zero s k h = h
drop-ends_solid (suc n) [] k h = absurd (omega arith)
drop-ends_solid (suc n) (c ∷ []) k h = absurd (omega arith)
drop-ends_solid (suc n) (c ∷ d ∷ s) k h = drop-ends_solid n (d ∷ s) (omega arith) h

-- What rstrip leaves of a text that is not blank ends with a solid character.
pub ends_solid-rstrip : (s : Str) → is_empty (rstrip s) ≡ false → ends_solid (rstrip s) ≡ true
unfolding rstrip
ends_solid-rstrip [] h = absurd (cc)
ends_solid-rstrip (c ∷ s) h = keep (rstrip s) (ends_solid-rstrip s) h
  where
    keep :
        (r : Str)
        → (is_empty r ≡ false → ends_solid r ≡ true)
        → is_empty (keep_last c r) ≡ false
        → ends_solid (keep_last c r) ≡ true
    keep [] f h = elim (Bool-cases (is_space c)) [
      | inl e ↦ absurd (ground (arith, h, e))
      | inr e ↦ rw e (rw e)
    ]
    keep (d ∷ r) f h = f refl

-- A text that begins with a solid character.
abbrev pub starts_solid : Str → Bool
starts_solid [] = false
starts_solid (c ∷ s) = not (is_space c)

pub lstrip-starts_solid : (s : Str) → is_empty (lstrip s) ≡ false → starts_solid (lstrip s) ≡ true
unfolding lstrip
lstrip-starts_solid [] h = absurd (cc)
lstrip-starts_solid (c ∷ s) h = elim (Bool-cases (is_space c)) [
  | inl e ↦ rw e (lstrip-starts_solid s (rw e at h))
  | inr e ↦ rw e (ap not e)
]
