-- ===== src/Text/Strip.antt =====
-- `str.strip` and the test for blank texts, over Python's white space.
use cogno_engram.Prelude.{
  ℕ, ◌≡◌, refl, Bool, true, false, ◌&&◌, ◌||◌, List, [], ◌∷◌, ◌++◌, arith, ◌==◌, leb, if◌then◌else◌,
  inl, inr, Bool-cases,
}
use cogno_engram.Text.Equality.{Str}

-- `c.isspace()`, the code points that `str.strip` and `str.split` take for white space.
unfoldable pub is_space : ℕ → Bool
is_space c =
    (leb 9 c && leb c 13)
    || (leb 28 c && leb c 32)
    || (c == 133)
    || (c == 160)
    || (c == 5760)
    || (leb 8192 c && leb c 8202)
    || (c == 8232)
    || (c == 8233)
    || (c == 8239)
    || (c == 8287)
    || (c == 12288)

-- `not s`
abbrev pub is_empty {ℓ} : {A : Type ℓ} → List A → Bool
is_empty [] = true
is_empty (c ∷ s) = false

unfoldable pub lstrip : Str → Str
lstrip [] = []
lstrip (c ∷ s) = let rest = lstrip s in if is_space c then rest else c ∷ s

-- A character is dropped from the end when it is white space and nothing is left behind it.
unfoldable pub keep_last : ℕ → Str → Str
keep_last c [] = if is_space c then [] else c ∷ []
keep_last c (d ∷ s) = c ∷ d ∷ s

unfoldable pub rstrip : Str → Str
unfolding keep_last
rstrip [] = []
rstrip (c ∷ s) = keep_last c (rstrip s)

unfoldable pub strip : Str → Str
unfolding lstrip rstrip is_space
strip s = rstrip (lstrip s)

-- `not s.strip()`
unfoldable pub is_blank : Str → Bool
unfolding strip
is_blank s = is_empty (strip s)

keep_last-lstrip : (c : ℕ) (s : Str) → is_space c ≡ false → lstrip (keep_last c s) ≡ keep_last c s
unfolding lstrip keep_last
keep_last-lstrip c [] h = ground arith
keep_last-lstrip c (d ∷ s) h = ground arith

lstrip_keeps : (s : Str) → lstrip (rstrip (lstrip s)) ≡ rstrip (lstrip s)
unfolding lstrip rstrip
lstrip_keeps [] = refl
lstrip_keeps (c ∷ s) = elim (Bool-cases (is_space c)) [
  | inl e ↦ rw e (lstrip_keeps s)
  | inr e ↦ rw e (keep_last-lstrip c (rstrip s) e)
]

keep_last-rstrip : (c : ℕ) (s : Str) → rstrip s ≡ s → rstrip (keep_last c s) ≡ keep_last c s
unfolding rstrip keep_last
keep_last-rstrip c [] h = ground arith
keep_last-rstrip c (d ∷ s) h = rw h

rstrip_idem : (s : Str) → rstrip (rstrip s) ≡ rstrip s
unfolding rstrip
rstrip_idem [] = refl
rstrip_idem (c ∷ s) = keep_last-rstrip c (rstrip s) (rstrip_idem s)

pub strip_idem : (s : Str) → strip (strip s) ≡ strip s
unfolding strip
strip_idem s = rw (lstrip_keeps s) (rstrip_idem (lstrip s))

rstrip-cons : (c : ℕ) (s : Str) → rstrip s ≡ s → is_empty s ≡ false → rstrip (c ∷ s) ≡ c ∷ s
unfolding rstrip keep_last
rstrip-cons c [] h k = absurd (cc)
rstrip-cons c (d ∷ s) h k = rw h

rstrip-prefixed : (p s : Str) → rstrip s ≡ s → is_empty s ≡ false → rstrip (p ++ s) ≡ p ++ s
rstrip-prefixed [] s h k = h
rstrip-prefixed (c ∷ []) s h k = rstrip-cons c s h k
rstrip-prefixed (c ∷ d ∷ p) s h k = rstrip-cons c (d ∷ p ++ s) (rstrip-prefixed (d ∷ p) s h k) refl

-- A stripped text keeps its place behind a prefix that does not begin with white space.
pub strip-prefixed :
    (c : ℕ) (p s : Str)
    → is_space c ≡ false
    → strip s ≡ s
    → is_empty s ≡ false
    → strip (c ∷ p ++ s) ≡ c ∷ p ++ s
unfolding strip lstrip
strip-prefixed c p s hc hs hk =
    rw hc (rstrip-prefixed (c ∷ p) s (rw (← hs) (rstrip_idem (lstrip s))) hk)
