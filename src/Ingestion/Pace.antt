-- ===== src/Ingestion/Pace.antt =====
-- ingest.py, `TokensPerMinute`: a bucket of tokens that the clock refills. A float of tokens is kept
-- as a number of parts, 60,000,000 to a token, so that a microsecond adds `limit` of them.
pub mod Rate
use cogno_engram.Prelude.{ℕ, ◌+◌, ◌-◌, ◌*◌, Bool, List, [], ◌∷◌, if◌then◌else◌, ltb, min}
use cogno_engram.Errors.{Result, ok, raise, ◌>>◌, ◌>>=◌, refuse_if, bad_window}
use cogno_engram.Types.{Date}

abbrev pub parts : ℕ
parts = 60000000

pub record Bucket : Type 0 where
  pub limit : ℕ
  pub available : ℕ
  pub filled_at : Date

-- `__init__`: a full bucket.
abbrev pub full_bucket : ℕ → Date → Bucket
full_bucket limit now = record { limit = limit; available = limit * parts; filled_at = now }

unfoldable pub refill : Date → Bucket → Bucket
refill now b = record b {
  available = min (b.limit * parts) (b.available + (now - b.filled_at) * b.limit);
  filled_at = now;
}

-- What a call takes: no more than the whole bucket.
abbrev pub need : ℕ → Bucket → ℕ
need tokens b = min tokens b.limit * parts

abbrev pub take_out : ℕ → Bucket → Bucket
take_out tokens b = record b { available = b.available - need tokens b }

-- A call at `now`, that the sleep ends at `woke` where it has to wait.
pub record Call : Type 0 where
  pub now : Date
  pub woke : Date
  pub tokens : ℕ

unfoldable pub pace : Call → Bucket → Bucket
unfolding refill
pace c b =
    let filled = refill c.now b in
    take_out c.tokens
      (if ltb filled.available (need c.tokens b) then refill c.woke filled else filled)

unfoldable pub pace_all : List Call → Bucket → Bucket
unfolding pace
pace_all [] b = b
pace_all (c ∷ cs) b = pace_all cs (pace c b)
