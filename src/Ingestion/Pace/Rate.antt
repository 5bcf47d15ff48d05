-- ===== src/Ingestion/Pace/Rate.antt =====
-- ingest.py, `TokensPerMinute`: what passes through a bucket.
use cogno_engram.Prelude.{
  ℕ, ◌+◌, ◌-◌, ◌*◌, ◌≤◌, ◌≡◌, refl, ap, ◌∙◌, false, List, [], ◌∷◌, ltb, arith, Bool-cases, inl, inr,
}
use cogno_engram.Ingestion.Pace.{parts, Bucket, refill, need, Call, pace, pace_all}

-- The clock goes on, and a sleep lasts until the bucket holds what is asked for.
abbrev pub InTime : Call → Bucket → Type 0
InTime c b =
    (b.filled_at ≤ c.now)
    × (c.now ≤ c.woke)
    × (need c.tokens b ≤ (refill c.now b).available + (c.woke - c.now) * b.limit)

refill-le : (now : ℕ) (b : Bucket) → (refill now b).available ≤ b.limit * parts
unfolding refill
refill-le now b = omega arith

-- What a call takes, it takes out of what was there and of what the clock elapsed.
abbrev Spent : ℕ → Bucket → Bucket → Type 0
Spent taken b b' =
    (taken + b'.available ≤ b.available + (b'.filled_at - b.filled_at) * b.limit)
    × (b.filled_at ≤ b'.filled_at)
    × (b'.available ≤ b.limit * parts)
    × (b'.limit ≡ b.limit)

pace_step : (c : Call) (b : Bucket) → InTime c b → Spent (need c.tokens b) b (pace c b)
unfolding pace refill
pace_step c b (after, later, enough) =
    let filled = refill c.now b in
    elim (Bool-cases (ltb filled.available (need c.tokens b))) [
      | inr e ↦
          let has = not_ltb filled.available (need c.tokens b) e in
          rw (pace, e) (omega (arith, has), after, omega arith, refl)
      | inl e ↦
          let whole = split c.now c.woke b.filled_at b.limit after later in
          rw (pace, e)
            (omega (arith, enough, whole), omega (arith, after, later), omega arith, refl)
    ]
  where
    not_ltb : (m n : ℕ) → ltb m n ≡ false → n ≤ m
    not_ltb m n h = ground arith

    split :
        (now woke at limit : ℕ)
        → at ≤ now
        → now ≤ woke
        → (woke - at) * limit ≡ (now - at) * limit + (woke - now) * limit
    split now woke at limit h k =
        let sum : woke - at ≡ (now - at) + (woke - now) = omega (arith, h, k) in
        omega (arith, ap (λ x. x * limit) sum)

-- The calls follow one another, each in time for the bucket that the last one left.
abbrev pub AllInTime : List Call → Bucket → Type 0
AllInTime [] b = Unit
AllInTime (c ∷ cs) b = InTime c b × AllInTime cs (pace c b)

-- All that the calls take out of the bucket.
abbrev taken : List Call → Bucket → ℕ
taken [] b = 0
taken (c ∷ cs) b = need c.tokens b + taken cs (pace c b)

-- The tokens that pass: all that the calls ask for.
abbrev pub passed : List Call → ℕ
passed [] = 0
passed (c ∷ cs) = c.tokens * parts + passed cs

-- What the calls ask for beyond the whole bucket, each for itself.
abbrev pub oversize : ℕ → List Call → ℕ
oversize limit [] = 0
oversize limit (c ∷ cs) = (c.tokens - limit) * parts + oversize limit cs

passed-taken :
    (cs : List Call) (b : Bucket)
    → AllInTime cs b
    → b.available ≤ b.limit * parts
    → passed cs ≡ taken cs b + oversize b.limit cs
passed-taken [] b h k = refl
passed-taken (c ∷ cs) b (first, rest) k =
    let (spent, on, most, same) = pace_step c b first in
    let behind = passed-taken cs (pace c b) rest (omega (arith, most, ap (λ l. l * parts) same)) in
    omega (arith, behind, ap (λ l. oversize l cs) same)

taken-le :
    (cs : List Call) (b : Bucket)
    → AllInTime cs b
    → b.available ≤ b.limit * parts
    → (taken cs b + (pace_all cs b).available
        ≤ b.available + ((pace_all cs b).filled_at - b.filled_at) * b.limit)
      × (b.filled_at ≤ (pace_all cs b).filled_at)
      × ((pace_all cs b).available ≤ b.limit * parts)
      × ((pace_all cs b).limit ≡ b.limit)
unfolding pace_all
taken-le [] b h k = (omega arith, omega arith, k, refl)
taken-le (c ∷ cs) b (first, rest) k =
    let (spent, on, most, same) = pace_step c b first in
    let (spent', on', most', same') =
      taken-le cs (pace c b) rest (omega (arith, most, ap (λ l. l * parts) same)) in
    let end = pace_all cs (pace c b) in
    (
      omega (
        arith,
        spent,
        spent',
        on,
        on',
        ap (λ l. (end.filled_at - (pace c b).filled_at) * l) same,
        elapsed b.filled_at (pace c b).filled_at end.filled_at b.limit on on',
      ),
      omega (arith, on, on'),
      omega (arith, most', ap (λ l. l * parts) same),
      same' ∙ same,
    )
  where
    elapsed : (x y z l : ℕ) → x ≤ y → y ≤ z → (z - x) * l ≡ (y - x) * l + (z - y) * l
    elapsed x y z l h k =
        let sum : z - x ≡ (y - x) + (z - y) = omega (arith, h, k) in
        omega (arith, ap (λ t. t * l) sum)

-- Where the clock never goes back, a sleep lasts until the bucket holds what is asked for, and the
-- bucket holds no more than the limit at first, the tokens that pass, and what is left in the
-- bucket, are at most what the bucket held, what the clock added at the rate of the limit, and what
-- oversize calls ask for beyond a whole bucket; the bucket never holds more than the limit, and the
-- limit stays.
pub pace_all-le :
    (cs : List Call) (b : Bucket)
    → AllInTime cs b
    → b.available ≤ b.limit * parts
    → (passed cs + (pace_all cs b).available
        ≤ b.available + ((pace_all cs b).filled_at - b.filled_at) * b.limit + oversize b.limit cs)
      × (b.filled_at ≤ (pace_all cs b).filled_at)
      × ((pace_all cs b).available ≤ b.limit * parts)
      × ((pace_all cs b).limit ≡ b.limit)
pace_all-le cs b h k =
    let (spent, on, most, same) = taken-le cs b h k in
    (omega (arith, spent, passed-taken cs b h k), on, most, same)
