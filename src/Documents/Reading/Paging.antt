-- ===== src/Documents/Reading/Paging.antt =====
-- in_memory.py and documents.py: chunks by ordinal, and what stands behind a page.
use cogno_engram.Prelude.{
  ℕ, zero, suc, ◌<◌, ◌≡◌, refl, ◌∙◌, sym, ap, subst, Bool, true, false, some, List, [], ◌∷◌, map,
  arith, if◌then◌else◌, filter, leb, ltb, ◌==◌, insert_sorted, All-sort_by, insert_sorted-All, take,
  drop, Bool-cases, inl, inr, All, All-map, All-filter, Pairwise,
}
use cogno_engram.Documents.State.{KbChunk}
use cogno_engram.Documents.Reading.{by_ordinal, text_chunk, last_ordinal}

-- No two chunks of a version share an ordinal.
abbrev pub Distinct : List KbChunk → Type 0
Distinct = Pairwise (λ a b. (a.ordinal == b.ordinal) ≡ false)

-- In the order of their ordinals, each smaller than the next.
abbrev pub Ascending : List KbChunk → Type 0
Ascending = Pairwise (λ a b. a.ordinal < b.ordinal)

abbrev by_le : KbChunk → KbChunk → Bool
by_le a b = leb a.ordinal b.ordinal

insert_sorted-Ascending :
    (a : KbChunk) (xs : List KbChunk)
    → Ascending xs
    → All (λ x. (a.ordinal == x.ordinal) ≡ false) xs
    → Ascending (insert_sorted by_le a xs)
insert_sorted-Ascending a [] h k = (tt, tt)
insert_sorted-Ascending a (x ∷ xs) h k = elim (Bool-cases (by_le a x)) [
  | inl e ↦
      let here : a.ordinal < x.ordinal = ground (arith, e, k.0) in
      rw e ((here, All-map _ _ xs (λ y l. omega (arith, here, l)) h.0), h)
  | inr e ↦ rw e (
    insert_sorted-All by_le (λ y. x.ordinal < y.ordinal) a xs (ground (arith, e)) h.0,
    insert_sorted-Ascending a xs h.1 k.1,
  )
]

pub ordered : (xs : List KbChunk) → Distinct xs → Ascending (by_ordinal xs)
ordered [] h = tt
ordered (x ∷ xs) h =
    insert_sorted-Ascending x (by_ordinal xs) (ordered xs h.1)
      (All-sort_by by_le (λ y. (x.ordinal == y.ordinal) ≡ false) xs h.0)

insert-front :
    (a : KbChunk) (xs : List KbChunk)
    → All (λ y. by_le a y ≡ true) xs
    → insert_sorted by_le a xs ≡ a ∷ xs
insert-front a [] h = refl
insert-front a (x ∷ xs) h = rw h.0

filter-insert_sorted :
    (p : KbChunk → Bool) (a : KbChunk) (xs : List KbChunk)
    → Ascending xs
    → filter p (insert_sorted by_le a xs)
      ≡ (if p a then insert_sorted by_le a (filter p xs) else filter p xs)
filter-insert_sorted p a [] h = ground arith
filter-insert_sorted p a (x ∷ xs) h = elim (Bool-cases (by_le a x)) [
  | inl e ↦
      let front = insert-front a (filter p (x ∷ xs)) (
        All-filter (λ y. by_le a y ≡ true) p (x ∷ xs)
          (
            e,
            All-map (λ y. x.ordinal < y.ordinal) (λ y. by_le a y ≡ true) xs
                (λ y l. ground (arith, e, l)) h.0,
          )) in
      elim (Bool-cases (p a)) [ inl q ↦ rw (e, q) (sym front) | inr q ↦ rw (e, q) ]
  | inr e ↦ elim (Bool-cases (p x)) [
    | inl q ↦ elim (Bool-cases (p a)) [
      | inl r ↦ rw (e, q, r, e) (ap (◌∷◌ x) (filter-insert_sorted p a xs h.1 ∙ rw r))
      | inr r ↦ rw (e, q, r) (ap (◌∷◌ x) (filter-insert_sorted p a xs h.1 ∙ rw r))
    ]
    | inr q ↦ rw (e, q) (filter-insert_sorted p a xs h.1)
  ]
]

-- A filter before the sort is a filter behind it.
pub filter-by_ordinal :
    (p : KbChunk → Bool) (xs : List KbChunk)
    → Distinct xs
    → filter p (by_ordinal xs) ≡ by_ordinal (filter p xs)
filter-by_ordinal p [] h = refl
filter-by_ordinal p (x ∷ xs) h =
    filter-insert_sorted p x (by_ordinal xs) (ordered xs h.1)
    ∙ ap (λ ys. if p x then insert_sorted by_le x ys else ys) (filter-by_ordinal p xs h.1)
    ∙ pushed
  where
    pushed :
        (if p x then insert_sorted by_le x (by_ordinal (filter p xs)) else by_ordinal (filter p xs))
        ≡ by_ordinal (filter p (x ∷ xs))
    pushed = elim (Bool-cases (p x)) [ inl e ↦ rw e | inr e ↦ rw e ]

keeps_all :
    (k : ℕ) (xs : List KbChunk)
    → All (λ y. k < y.ordinal) xs
    → filter (λ y. ltb k y.ordinal) xs ≡ xs
keeps_all k [] h = refl
keeps_all k (x ∷ xs) h = ground (arith, h.0, keeps_all k xs h.1)

last-All :
    (n : ℕ) (xs : List KbChunk) (m k : ℕ)
    → All (λ y. m < y.ordinal) xs
    → last_ordinal (map text_chunk (take n xs)) ≡ some k
    → m < k
unfolding text_chunk
last-All zero xs m k h e = absurd (cc)
last-All (suc n) [] m k h e = absurd (cc)
last-All (suc zero) (x ∷ xs) m k h e = ground (arith, h.0, e)
last-All (suc (suc n)) (x ∷ []) m k h e = ground (arith, h.0, e)
last-All (suc (suc n)) (x ∷ y ∷ ys) m k h e = last-All (suc n) (y ∷ ys) m k h.1 e

-- What stands behind the last ordinal of a page is what the page left.
pub behind_page :
    (n : ℕ) (xs : List KbChunk) (k : ℕ)
    → Ascending xs
    → last_ordinal (map text_chunk (take n xs)) ≡ some k
    → filter (λ y. ltb k y.ordinal) xs ≡ drop n xs
unfolding text_chunk
behind_page zero xs k h e = absurd (cc)
behind_page (suc n) [] k h e = absurd (cc)
behind_page (suc zero) (x ∷ xs) k h e =
    let same : x.ordinal ≡ k = cc in
    let dropped : ltb k x.ordinal ≡ false = ground (arith, same) in
    rw dropped (keeps_all k xs (subst (λ m. All (λ y. m < y.ordinal) xs) same h.0))
behind_page (suc (suc n)) (x ∷ []) k h e = ground (arith, e)
behind_page (suc (suc n)) (x ∷ y ∷ ys) k h e =
    let below = last-All (suc n) (y ∷ ys) x.ordinal k h.0 e in
    let dropped : ltb k x.ordinal ≡ false = ground (arith, below) in
    rw dropped (behind_page (suc n) (y ∷ ys) k h.1 e)
