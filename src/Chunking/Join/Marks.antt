-- ===== src/Chunking/Join/Marks.antt =====
-- chunking.py, `_tail` and `_overlap_length`.
use mathlib.Core.List.{append_assoc}
use cogno_engram.Prelude.{
  take-drop, drop-append, ℕ, ◌+◌, ◌-◌, ◌≤◌, ◌<◌, ◌≡◌, refl, ◌∙◌, ap, true, false, ◌||◌, Option,
  none, some, [], ◌∷◌, ◌++◌, arith, inl, inr, Bool-cases, Option-cases, length, take, drop, leb,
  ◌==◌, min,
}
use cogno_engram.Text.{
  Str, is_space, is_empty, starts_with, starts_with-append, ends_solid, strip-ends_solid,
  drop-ends_solid, ends_solid-is_empty,
}
use cogno_engram.Chunking.Config.{ChunkingConfig}
use cogno_engram.Chunking.Split.{index_of, earlier_index, behind, tail}
use cogno_engram.Chunking.Passage.{blank_line}
use cogno_engram.Chunking.Pack.{PackUnit, joiner}
use cogno_engram.Chunking.Join.{overlap_length}

-- White space in a text that does not end with it has something behind it.
index_of-lt :
    (c : ℕ) (s : Str) {i : ℕ}
    → is_space c ≡ true
    → ends_solid s ≡ true
    → index_of c s ≡ some i
    → i + 1 < length s
unfolding index_of
index_of-lt c [] sp h e = absurd (cc)
index_of-lt c (d ∷ []) sp h e = elim (Bool-cases (d == c)) [
  | inl k ↦ let same : d ≡ c = ground arith in absurd (ground (arith, ap is_space same))
  | inr k ↦ ground arith
]
index_of-lt c (d ∷ f ∷ s) {i} sp h e = elim (Bool-cases (d == c)) [
  | inl k ↦ ground arith
  | inr k ↦ elim (Option-cases (index_of c (f ∷ s))) [
    | inl n ↦ ground arith
    | inr (j, n) ↦ let ih = index_of-lt c (f ∷ s) sp h n in ground arith
  ]
]

-- The mark at which a tail begins has something solid behind it.
behind-ends_solid :
    (end : Str)
    → ends_solid end ≡ true
    → (q : Str) × (end ≡ q ++ behind (earlier_index (index_of 32 end) (index_of 10 end)) end)
      × (ends_solid (behind (earlier_index (index_of 32 end) (index_of 10 end)) end) ≡ true)
unfolding is_space
behind-ends_solid end h =
    at (index_of 32 end) (index_of 10 end) (λ i. index_of-lt 32 end refl h)
      (λ i. index_of-lt 10 end refl h)
  where
    mark :
        (i : ℕ)
        → i + 1 < length end
        → (q : Str) × (end ≡ q ++ drop (i + 1) end) × (ends_solid (drop (i + 1) end) ≡ true)
    mark i k = (take (i + 1) end, take-drop (i + 1) end, drop-ends_solid (i + 1) end k h)

    at :
        (a b : Option ℕ)
        → ((i : ℕ) → a ≡ some i → i + 1 < length end)
        → ((i : ℕ) → b ≡ some i → i + 1 < length end)
        → (q : Str) × (end ≡ q ++ behind (earlier_index a b) end)
          × (ends_solid (behind (earlier_index a b) end) ≡ true)
    at none none f g = ([], refl, h)
    at none (some j) f g = mark j (g j refl)
    at (some i) none f g = mark i (f i refl)
    at (some i) (some j) f g = mark (min i j) (omega (arith, f i refl, g j refl))

-- The tail of a body is an end of it, and ends as it does.
pub tail-ends_solid :
    (body : Str) (chars : ℕ)
    → 1 ≤ chars
    → ends_solid body ≡ true
    → (q : Str) × (body ≡ q ++ tail body chars) × (ends_solid (tail body chars) ≡ true)
unfolding tail
tail-ends_solid body chars k h = elim (Bool-cases (chars == 0)) [
  | inl e ↦ absurd (ground arith)
  | inr e ↦ elim (Bool-cases (leb (length body) chars)) [
    | inl f ↦ rw (e, f) ([], refl, h)
    | inr f ↦
        let start = length body - chars in
        let (p, upto, last) =
          behind-ends_solid (drop start body) (drop-ends_solid start body (ground arith) h) in
        let (q, inside, solid_end) = strip-ends_solid _ last in
        rw (e, f)
          (
            take start body ++ (p ++ q),
            take-drop start body
                ∙ ap (λ t. take start body ++ t) (upto ∙ ap (λ t. p ++ t) inside)
                ∙ regroup (take start body) p q _,
            solid_end,
          )
  ]
]
  where
    regroup : (a b c d : Str) → a ++ (b ++ (c ++ d)) ≡ (a ++ (b ++ c)) ++ d
    regroup a b c d = rw (append_assoc a (b ++ c) d, append_assoc b c d)

joiner_recognised :
    (u : PackUnit) (rest : Str)
    → (starts_with (joiner u ++ rest) blank_line || starts_with (joiner u ++ rest) (32 ∷ [])) ≡ true
unfolding starts_with
joiner_recognised u rest = elim (Bool-cases u.continues) [
  | inl e ↦ rw e (ground arith)
  | inr e ↦ rw e (ground arith)
]

is_empty-append : (t s : Str) → is_empty t ≡ false → is_empty (t ++ s) ≡ false
is_empty-append [] s h = absurd (cc)
is_empty-append (c ∷ t) s h = refl

-- A head that `_pack` repeated is recognised where the two chunks did not fit together.
pub overlap_length-cut :
    (config : ChunkingConfig) (prev rest : Str) (u : PackUnit)
    → 1 ≤ config.overlap_chars
    → config.overlap_chars < length prev
    → ends_solid (tail prev config.overlap_chars) ≡ true
    → config.target_chars < length prev + length (joiner u ++ rest)
    → overlap_length prev (tail prev config.overlap_chars ++ (joiner u ++ rest)) config
      ≡ length (tail prev config.overlap_chars)
unfolding overlap_length starts_with
overlap_length-cut config prev rest u some_overlap longer last apart =
    let head = tail prev config.overlap_chars in
    let solid_head = ends_solid-is_empty head last in
    ground (
      arith,
      is_empty-append head (joiner u ++ rest) solid_head,
      drop-append head (joiner u ++ rest),
      starts_with-append head (joiner u ++ rest),
      joiner_recognised u rest,
      solid_head,
    )
