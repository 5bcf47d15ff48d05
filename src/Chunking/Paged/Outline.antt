-- ===== src/Chunking/Paged/Outline.antt =====
-- chunking.py, `_outline_paths`.
use cogno_engram.Prelude.{
  ℕ, ◌≤◌, ◌≡◌, refl, sym, ◌∙◌, ap, true, false, ◌||◌, List, [], ◌∷◌, leb, ◌==◌, filter, any,
  sort_by, insert_sorted, sort_by-Pairwise, arith, inl, inr, Bool-cases, All, Pairwise, All-map,
  filter_of_All-not, leb→le,
}
use cogno_engram.Text.{Str}
use cogno_engram.Documents.Rules.{OutlineEntry}
use cogno_engram.Chunking.Markdown.{Stack, trail_of}
use cogno_engram.Chunking.Paged.{
  enter, advance, outline_loop, outline_paths, trail_at, distinct_pages,
}

-- The entries come into force one after another.
abbrev pub replay : List OutlineEntry → Stack → Stack
replay [] stack = stack
replay (entry ∷ entries) stack = replay entries (enter entry stack)

-- The entries at or before a page, in the order of their pages.
abbrev pub upto : ℕ → List OutlineEntry → List OutlineEntry
upto number entries = filter (λ e. leb e.page number) entries

abbrev Ordered : List OutlineEntry → Type 0
Ordered entries = Pairwise (λ a b. leb a.page b.page ≡ true) entries

-- To go on to a later page from where an earlier one stopped is to begin anew.
advance-upto :
    (m n : ℕ) (entries : List OutlineEntry) (stack : Stack)
    → m ≤ n
    → replay (upto n (advance m entries stack).0) (advance m entries stack).1
      ≡ replay (upto n entries) stack
unfolding advance
advance-upto m n [] stack h = refl
advance-upto m n (e ∷ entries) stack h = elim (Bool-cases (leb e.page m)) [
  | inr f ↦ rw f refl
  | inl f ↦
      let late : leb e.page n ≡ true = ground arith in
      rw (f, late) (advance-upto m n entries (enter e stack) h)
]

-- What is left behind a page stands on later ones.
advance-Ordered :
    (m : ℕ) (entries : List OutlineEntry) (stack : Stack)
    → Ordered entries
    → All (λ e. leb e.page m ≡ false) (advance m entries stack).0
      × Ordered (advance m entries stack).0
unfolding advance
advance-Ordered m [] stack h = (tt, tt)
advance-Ordered m (e ∷ entries) stack h = elim (Bool-cases (leb e.page m)) [
  | inl f ↦ rw f (advance-Ordered m entries (enter e stack) h.1)
  | inr f ↦ rw f (
    (
      f,
      All-map (λ b. leb e.page b.page ≡ true) (λ b. leb b.page m ≡ false) entries
          (λ b k. ground arith) h.0,
    ),
    h,
  )
]

trail_at-here :
    (n m : ℕ) (t : List Str) (rest : List (ℕ × List Str))
    → (m == n) ≡ true
    → trail_at n ((m, t) ∷ rest) ≡ t
unfolding trail_at
trail_at-here n m t rest h = ground arith

trail_at-later :
    (n m : ℕ) (t : List Str) (rest : List (ℕ × List Str))
    → (m == n) ≡ false
    → trail_at n ((m, t) ∷ rest) ≡ trail_at n rest
unfolding trail_at
trail_at-later n m t rest h = ground arith

at_any :
    (m n : ℕ) (numbers : List ℕ)
    → All (λ b. leb m b ≡ true) numbers
    → any (λ i. i == n) numbers ≡ true
    → leb m n ≡ true
at_any m n [] h k = absurd (cc)
at_any m n (b ∷ numbers) h k = elim (Bool-cases (b == n)) [
  | inl e ↦ ground arith
  | inr e ↦ at_any m n numbers h.1 (ground arith)
]

outline_loop-at :
    (n : ℕ) (numbers : List ℕ) (entries : List OutlineEntry) (stack : Stack)
    → Pairwise (λ a b. leb a b ≡ true) numbers
    → any (λ m. m == n) numbers ≡ true
    → Ordered entries
    → trail_at n (outline_loop numbers entries stack) ≡ trail_of (replay (upto n entries) stack)
unfolding outline_loop
outline_loop-at n [] entries stack h k o = absurd (cc)
outline_loop-at n (m ∷ numbers) entries stack h k o =
    let (left, now) = advance m entries stack in
    let (late, ordered) = advance-Ordered m entries stack o in
    let here = trail_of now in
    let rest = outline_loop numbers left now in
    elim (Bool-cases (m == n)) [
      | inl e ↦
          let same : m ≡ n = ground arith in
          let stop = ap (λ es. replay es now) (filter_of_All-not (λ e. leb e.page m) left late) in
          trail_at-here n m here rest e
          ∙ ap trail_of (sym stop ∙ advance-upto m m entries stack (omega arith))
          ∙ ap (λ i. trail_of (replay (upto i entries) stack)) same
      | inr e ↦
          let later : any (λ i. i == n) numbers ≡ true = ground arith in
          trail_at-later n m here rest e
          ∙ outline_loop-at n numbers left now h.1 later ordered
          ∙ ap trail_of (advance-upto m n entries stack (leb→le m n (at_any m n numbers h.0 later)))
    ]

any-distinct : (n : ℕ) (ns : List ℕ) → any (λ m. m == n) (distinct_pages ns) ≡ any (λ m. m == n) ns
any-distinct n [] = refl
any-distinct n (m ∷ ns) = elim (Bool-cases (any (λ i. i == m) ns)) [
  | inr e ↦ rw e (ap (λ b. (m == n) || b) (any-distinct n ns))
  | inl e ↦ rw e (
      any-distinct n ns ∙ elim (Bool-cases (m == n)) [
        | inr f ↦ rw f refl
        | inl f ↦ let same : m ≡ n = ground arith in rw (f, ← same) e
      ])
]

any-insert_sorted :
    (n m : ℕ) (ns : List ℕ)
    → any (λ i. i == n) (insert_sorted leb m ns) ≡ ((m == n) || any (λ i. i == n) ns)
any-insert_sorted n m [] = refl
any-insert_sorted n m (k ∷ ns) = ground (arith, any-insert_sorted n m ns)

any-sort_by : (n : ℕ) (ns : List ℕ) → any (λ i. i == n) (sort_by leb ns) ≡ any (λ i. i == n) ns
any-sort_by n [] = refl
any-sort_by n (m ∷ ns) =
    any-insert_sorted n m (sort_by leb ns) ∙ ap (λ b. (m == n) || b) (any-sort_by n ns)

-- The trail of a page of the file is what the entries at or before it leave, whatever other pages
-- the file has.
pub outline_paths-at :
    (outline : List OutlineEntry) (pages : List ℕ) (number : ℕ)
    → any (λ m. m == number) pages ≡ true
    → trail_at number (outline_paths outline pages)
      ≡ trail_of (replay (upto number (sort_by (λ a b. leb a.page b.page) outline)) [])
unfolding outline_paths
outline_paths-at outline pages number h =
    outline_loop-at number (sort_by leb (distinct_pages pages))
      (sort_by (λ a b. leb a.page b.page) outline) []
      (sort_by-Pairwise leb (λ a b k. ground arith) (λ a b c k l. ground arith)
        (distinct_pages pages))
      (any-sort_by number (distinct_pages pages) ∙ any-distinct number pages ∙ h)
      (sort_by-Pairwise (λ a b. leb a.page b.page) (λ a b k. ground arith)
        (λ a b c k l. ground arith) outline)
