-- ===== src/Documents/Reading/Pages.antt =====
-- in_memory.py and documents.py: a reader that goes on from `next_after`.
use cogno_engram.Prelude.{
  ℕ, zero, suc, ◌+◌, ◌<◌, ◌≡◌, refl, ◌∙◌, sym, ap, subst, Bool, true, false, ◌&&◌, none, some, List,
  [], ◌∷◌, ◌++◌, map, arith, if◌then◌else◌, filter, length, ltb, take, drop, Bool-cases, inl, inr,
  All, Pairwise-filter, All-sort_by, All-filter_of,
}
use cogno_engram.Prelude.Int.{ℤ, pos, ltb_ℤ}
use cogno_engram.Documents.Rules.{TextWindow}
use cogno_engram.Documents.State.{KbChunk, KbTextChunk}
use cogno_engram.Documents.Reading.{by_ordinal, fetch, slice_of, assemble, text_chunk, last_ordinal}
use cogno_engram.Documents.Reading.Paging.{Distinct, ordered, filter-by_ordinal, behind_page}

-- All that a reader has yet to read: the chunks behind the start of the window, by ordinal.
abbrev pub unread : (KbChunk → Bool) → TextWindow → List KbChunk → List KbChunk
unread wanted w source = by_ordinal (filter (λ c. ltb_ℤ w.start (pos c.ordinal) && wanted c) source)

take-map-take {ℓ κ} :
    {A : Type ℓ} {B : Type κ} (f : A → B) (n : ℕ) (xs : List A)
    → take n (map f (take (suc n) xs)) ≡ map f (take n xs)
take-map-take f zero xs = refl
take-map-take f (suc n) [] = refl
take-map-take f (suc n) (x ∷ xs) = ap (◌∷◌ (f x)) (take-map-take f n xs)

length-map-take {ℓ κ} :
    {A : Type ℓ} {B : Type κ} (f : A → B) (n : ℕ) (xs : List A)
    → ltb n (length (map f (take (suc n) xs))) ≡ ltb n (length xs)
length-map-take f zero [] = refl
length-map-take f zero (x ∷ xs) = ground arith
length-map-take f (suc n) [] = refl
length-map-take f (suc n) (x ∷ xs) = ground (arith, length-map-take f n xs)

take-all {ℓ} : {A : Type ℓ} (n : ℕ) (xs : List A) → ltb n (length xs) ≡ false → take n xs ≡ xs
take-all zero [] h = refl
take-all zero (x ∷ xs) h = absurd (ground arith)
take-all (suc n) [] h = refl
take-all (suc n) (x ∷ xs) h = ap (◌∷◌ x) (take-all n xs (ground arith))

take-drop {ℓ κ} :
    {A : Type ℓ} {B : Type κ} (f : A → B) (n : ℕ) (xs : List A)
    → map f (take n xs) ++ map f (drop n xs) ≡ map f xs
take-drop f zero xs = refl
take-drop f (suc n) [] = refl
take-drop f (suc n) (x ∷ xs) = ap (◌∷◌ (f x)) (take-drop f n xs)

slice_of-parts :
    (wanted : KbChunk → Bool) (w : TextWindow) (source : List KbChunk)
    → ((slice_of wanted w source).chunks ≡ map text_chunk (take w.size (unread wanted w source)))
      × ((slice_of wanted w source).next_after ≡ (
          if ltb w.size (length (unread wanted w source))
          then last_ordinal (map text_chunk (take w.size (unread wanted w source)))
          else none))
unfolding slice_of assemble fetch
slice_of-parts wanted w source =
    let xs = unread wanted w source in
    let one_more : w.size + 1 ≡ suc w.size = omega arith in
    (
      rw one_more (take-map-take text_chunk w.size xs),
      rw (one_more, take-map-take text_chunk w.size xs, length-map-take text_chunk w.size xs),
    )

last-some :
    (n : ℕ) (xs : List KbChunk)
    → ltb (suc n) (length xs) ≡ true
    → (k : ℕ) × (last_ordinal (map text_chunk (take (suc n) xs)) ≡ some k)
unfolding text_chunk
last-some n [] h = absurd (ground arith)
last-some zero (x ∷ xs) h = (x.ordinal, refl)
last-some (suc n) (x ∷ []) h = absurd (ground arith)
last-some (suc n) (x ∷ y ∷ ys) h = last-some n (y ∷ ys) (ground arith)

-- The window that continues a slice.
abbrev pub continued : TextWindow → ℕ → TextWindow
continued w k = record w { start = pos k }

filter-later :
    (wanted : KbChunk → Bool) (start : ℤ) (k : ℕ) (xs : List KbChunk)
    → ltb_ℤ start (pos k) ≡ true
    → filter (λ c. ltb k c.ordinal) (filter (λ c. ltb_ℤ start (pos c.ordinal) && wanted c) xs)
      ≡ filter (λ c. ltb_ℤ (pos k) (pos c.ordinal) && wanted c) xs
filter-later wanted start k [] h = refl
filter-later wanted start k (x ∷ xs) h = ground (arith, filter-later wanted start k xs)

last-after :
    (start : ℤ) (n : ℕ) (xs : List KbChunk) (k : ℕ)
    → All (λ c. ltb_ℤ start (pos c.ordinal) ≡ true) xs
    → last_ordinal (map text_chunk (take n xs)) ≡ some k
    → ltb_ℤ start (pos k) ≡ true
unfolding text_chunk
last-after start zero xs k h e = absurd (cc)
last-after start (suc n) [] k h e = absurd (cc)
last-after start (suc zero) (x ∷ xs) k h e =
    let same : x.ordinal ≡ k = cc in subst (λ m. ltb_ℤ start (pos m) ≡ true) same h.0
last-after start (suc (suc n)) (x ∷ []) k h e =
    let same : x.ordinal ≡ k = cc in subst (λ m. ltb_ℤ start (pos m) ≡ true) same h.0
last-after start (suc (suc n)) (x ∷ y ∷ ys) k h e = last-after start (suc n) (y ∷ ys) k h.1 e

first_true : (a b : Bool) → (a && b) ≡ true → a ≡ true
first_true true b h = refl
first_true false b h = absurd (cc)

unread-after :
    (wanted : KbChunk → Bool) (w : TextWindow) (source : List KbChunk)
    → All (λ c. ltb_ℤ w.start (pos c.ordinal) ≡ true) (unread wanted w source)
unread-after wanted w source =
    All-sort_by _ (λ c. ltb_ℤ w.start (pos c.ordinal) ≡ true) _
      (All-filter_of (λ c. ltb_ℤ w.start (pos c.ordinal) ≡ true)
        (λ c. ltb_ℤ w.start (pos c.ordinal) && wanted c) source
        (λ c h. first_true (ltb_ℤ w.start (pos c.ordinal)) (wanted c) h))

-- The next window has yet to read what the slice left.
next_unread :
    (wanted : KbChunk → Bool) (w : TextWindow) (source : List KbChunk) (k : ℕ)
    → Distinct source
    → last_ordinal (map text_chunk (take w.size (unread wanted w source))) ≡ some k
    → unread wanted (continued w k) source ≡ drop w.size (unread wanted w source)
next_unread wanted w source k d e =
    let mine = filter (λ c. ltb_ℤ w.start (pos c.ordinal) && wanted c) source in
    let distinct = Pairwise-filter _ (λ c. ltb_ℤ w.start (pos c.ordinal) && wanted c) source d in
    ap by_ordinal (
      sym (
        filter-later wanted w.start k source
          (last-after w.start w.size (unread wanted w source) k (unread-after wanted w source) e)))
    ∙ sym (filter-by_ordinal (λ c. ltb k c.ordinal) mine distinct)
    ∙ behind_page w.size (unread wanted w source) k (ordered mine distinct) e

-- A reader that goes on from `next_after` as long as there is one, for at most so many slices.
unfoldable pub read_on : ℕ → (KbChunk → Bool) → TextWindow → List KbChunk → List KbTextChunk
read_on zero wanted w source = []
read_on (suc n) wanted w source =
    (slice_of wanted w source).chunks ++ elim (slice_of wanted w source).next_after [
      | none ↦ []
      | some k ↦ read_on n wanted (continued w k) source
    ]

length-drop-less {ℓ} :
    {A : Type ℓ} (n : ℕ) (xs : List A)
    → 0 < n
    → ltb n (length xs) ≡ true
    → length (drop n xs) < length xs
length-drop-less zero xs h k = absurd (omega (arith, h))
length-drop-less (suc n) [] h k = absurd (ground arith)
length-drop-less (suc zero) (x ∷ xs) h k = omega arith
length-drop-less (suc (suc n)) (x ∷ xs) h k =
    omega (arith, length-drop-less (suc n) xs (omega arith) (ground arith))

append_nil {ℓ} : {A : Type ℓ} (xs : List A) → xs ++ [] ≡ xs
append_nil [] = refl
append_nil (x ∷ xs) = ap (◌∷◌ x) (append_nil xs)

last-page :
    (n : ℕ) (xs : List KbChunk)
    → 0 < n
    → ltb n (length xs) ≡ true
    → (k : ℕ) × (last_ordinal (map text_chunk (take n xs)) ≡ some k)
last-page zero xs h k = absurd (omega (arith, h))
last-page (suc n) xs h k = last-some n xs k

-- Reading on from `next_after`, with a size that is not 0, over chunks no two of which share an ordinal,
-- shows every chunk that is wanted and stands behind the start, once and by ordinal, within as many
-- slices as there are such chunks and one more.
pub read_on-all :
    (fuel : ℕ) (wanted : KbChunk → Bool) (w : TextWindow) (source : List KbChunk)
    → Distinct source
    → 0 < w.size
    → length (unread wanted w source) < fuel
    → read_on fuel wanted w source ≡ map text_chunk (unread wanted w source)
unfolding read_on
read_on-all zero wanted w source d positive enough = absurd (omega (arith, enough))
read_on-all (suc fuel) wanted w source d positive enough =
    let xs = unread wanted w source in
    let (chunks, next) = slice_of-parts wanted w source in
    elim (Bool-cases (ltb w.size (length xs))) [
      | inr all ↦ rw (chunks, next, all, take-all w.size xs all) (append_nil (map text_chunk xs))
      | inl more ↦
          let (k, e) = last-page w.size xs positive more in
          let rest = next_unread wanted w source k d e in
          let goes_on = read_on-all fuel wanted (continued w k) source d positive (
            subst (λ ys. length ys < fuel) (sym rest)
              (omega (arith, enough, length-drop-less w.size xs positive more))) in
          rw (chunks, next, more, e, goes_on, rest) (take-drop text_chunk w.size xs)
    ]
