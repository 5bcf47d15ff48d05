-- ===== src/Chunking/Split/Sizes.antt =====
-- chunking.py, `_split_long` and `_tail`.
use cogno_engram.Prelude.{
  length-drop, ℕ, zero, suc, ◌+◌, ◌≤◌, ◌<◌, ◌≡◌, refl, Option, none, some, List, [], ◌∷◌, ◌++◌,
  if◌then◌else◌, length, drop, take, ltb, arith, inl, inr, Bool-cases, Option-cases, ap, ◌∙◌, All,
  length-take-le, ltb→lt,
}
use mathlib.Core.List.{append-nil}
use cogno_engram.Text.{
  Str, is_empty, strip, lstrip, rstrip, solid, solid-append, solid-strip, solid-rstrip,
  solid-lstrip, solid-take-drop, length-lstrip-le, length-rstrip-le,
}
use cogno_engram.Chunking.Split.{last_index_of, later_index, cut_or, cut_at, split_loop, split_long}

last_index_of-lt :
    (c n : ℕ) (s : Str) {i : ℕ} → last_index_of c n s ≡ some i → (i < n) × (i < length s)
unfolding last_index_of
last_index_of-lt c zero s h = absurd (cc)
last_index_of-lt c (suc n) [] h = absurd (cc)
last_index_of-lt c (suc n) (d ∷ s) {i} h = elim (Option-cases (last_index_of c n s)) [
  | inl e ↦ ground arith
  | inr (j, e) ↦ let (a, b) = last_index_of-lt c n s e in ground arith
]

-- A cut takes at least one character, and at most `size`.
pub cut_at-bounds : (size : ℕ) (s : Str) → 1 ≤ size → (1 ≤ cut_at size s) × (cut_at size s ≤ size)
unfolding cut_at
cut_at-bounds size s h =
    both (last_index_of 32 (size + 1) s) (last_index_of 10 (size + 1) s)
      (λ i. last_index_of-lt 32 (size + 1) s) (λ i. last_index_of-lt 10 (size + 1) s)
  where
    both :
        (a b : Option ℕ)
        → ((i : ℕ) → a ≡ some i → (i < size + 1) × (i < length s))
        → ((i : ℕ) → b ≡ some i → (i < size + 1) × (i < length s))
        → (1 ≤ cut_or size (later_index a b)) × (cut_or size (later_index a b) ≤ size)
    both none none f g = ground arith
    both none (some j) f g = let (x, _) = g j refl in ground arith
    both (some i) none f g = let (x, _) = f i refl in ground arith
    both (some i) (some j) f g = let (x, _) = f i refl in let (y, _) = g j refl in ground arith

-- Every piece has at most `size` characters.
split_loop-le :
    (fuel size : ℕ) (rest : Str) → 1 ≤ size → All (λ p. length p ≤ size) (split_loop fuel size rest)
unfolding split_loop
split_loop-le zero size rest h = tt
split_loop-le (suc fuel) size rest h = elim (Bool-cases (ltb size (length rest))) [
  | inl e ↦ rw e (
    omega (
      arith,
      length-rstrip-le (take (cut_at size rest) rest),
      length-take-le (cut_at size rest) rest,
      (cut_at-bounds size rest h).1,
    ),
    split_loop-le fuel size (lstrip (drop (cut_at size rest) rest)) h,
  )
  | inr e ↦ rw e (last rest (ground arith))
]
  where
    last :
        (rest : Str)
        → length rest ≤ size
        → All (λ p. length p ≤ size) (if is_empty rest then [] else rest ∷ [])
    last [] k = tt
    last (c ∷ s) k = (k, tt)

pub split_long-le :
    (paragraph : Str) (size : ℕ) → 1 ≤ size → All (λ p. length p ≤ size) (split_long paragraph size)
unfolding split_long
split_long-le paragraph size h =
    split_loop-le (length (strip paragraph) + 1) size (strip paragraph) h

-- The texts behind one another.
abbrev pub concat : List Str → Str
concat [] = []
concat (p ∷ ps) = p ++ concat ps

-- The loop ends within its fuel, and loses white space only.
split_loop-solid :
    (fuel size : ℕ) (rest : Str)
    → 1 ≤ size
    → length rest < fuel
    → solid (concat (split_loop fuel size rest)) ≡ solid rest
unfolding split_loop
split_loop-solid zero size rest h k = absurd (omega arith)
split_loop-solid (suc fuel) size rest h k = elim (Bool-cases (ltb size (length rest))) [
  | inl e ↦
      let cut = cut_at size rest in
      let (some_cut, most) = cut_at-bounds size rest h in
      let ih = split_loop-solid fuel size (lstrip (drop cut rest)) h (
        omega (
          arith,
          length-lstrip-le (drop cut rest),
          length-drop cut rest,
          ltb→lt size (length rest) e,
          some_cut,
          most,
          k,
        )) in
      rw
        (
          e,
          solid-append (rstrip (take cut rest))
              (concat (split_loop fuel size (lstrip (drop cut rest)))),
          solid-rstrip (take cut rest),
          ih,
          solid-lstrip (drop cut rest),
        )
        (solid-take-drop cut rest)
  | inr e ↦ rw e (last rest)
]
  where
    last : (rest : Str) → solid (concat (if is_empty rest then [] else rest ∷ [])) ≡ solid rest
    last [] = refl
    last (c ∷ s) = ap solid (append-nil (c ∷ s))

pub split_long-solid :
    (paragraph : Str) (size : ℕ)
    → 1 ≤ size
    → solid (concat (split_long paragraph size)) ≡ solid paragraph
unfolding split_long
split_long-solid paragraph size h =
    split_loop-solid (length (strip paragraph) + 1) size (strip paragraph) h (omega arith)
    ∙ solid-strip paragraph
