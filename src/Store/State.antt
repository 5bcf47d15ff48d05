-- ===== src/Store/State.antt =====
-- in_memory.py: the state of `InMemoryStore`. The clock, new ids and the digest of a scope are
-- arguments; the counters of write_loss.py, which belong to the process, are part of the state.
use cogno_engram.Prelude.{
  ℕ, Bool, true, false, not, ◌&&◌, ◌||◌, Option, none, some, List, [], ◌∷◌, ◌++◌, if◌then◌else◌,
  any, ltb, sort_by, ◌==◌, take, drop,
}
use cogno_engram.Prelude.Int.{ℤ, ltb_ℤ}
use cogno_engram.Text.{Str, codes, str_eq, starts_with, is_empty}
use cogno_engram.Types.{Date, Session, TurnRecord, TurnTrace, MemoryRecord}
use cogno_engram.WriteLoss.{Losses}

-- The coordinate of a turn: `(scope, session_id, turn_n)`.
pub record Coordinate : Type 0 where
  pub scope : Str
  pub session_id : Str
  pub turn_n : ℤ

pub record Store : Type 0 where
  pub trace_revision_window : ℕ
  pub sessions : List Session
  pub turns : List TurnRecord
  pub consolidated : List Coordinate
  pub traces : List TurnTrace
  pub memories : List MemoryRecord
  pub losses : Losses

-- `InMemoryStore(trace_revision_window_s=…)`
abbrev pub empty_store : ℕ → Losses → Store
empty_store window losses = record {
  trace_revision_window = window;
  sessions = [];
  turns = [];
  consolidated = [];
  traces = [];
  memories = [];
  losses = losses;
}

-- `a == b`
abbrev pub eq_ℤ : ℤ → ℤ → Bool
eq_ℤ a b = not (ltb_ℤ a b) && not (ltb_ℤ b a)

abbrev pub leb_ℤ : ℤ → ℤ → Bool
leb_ℤ a b = not (ltb_ℤ b a)

-- `t.created_at or _now()`
abbrev pub date_or : Date → Option Date → Date
date_or now none = now
date_or now (some d) = d

-- `not scope or row.scope == scope`
abbrev pub within_scope : Str → Str → Bool
within_scope scope row_scope = is_empty scope || str_eq row_scope scope

-- `_under`: the scope is the prefix, or stands below `prefix/`.
unfoldable pub under : Str → Str → Bool
under scope prefix = str_eq scope prefix || starts_with scope (prefix ++ codes "/")

-- `a < b` on texts: by code points.
unfoldable pub str_less : Str → Str → Bool
str_less s [] = false
str_less [] (d ∷ t) = true
str_less (c ∷ s) (d ∷ t) = ltb c d || ((c == d) && str_less s t)

abbrev pub str_le : Str → Str → Bool
str_le s t = not (str_less t s)

-- `sorted({…})`
unfoldable pub distinct : List Str → List Str
distinct [] = []
distinct (s ∷ ss) = let rest = distinct ss in if any (λ t. str_eq t s) ss then rest else s ∷ rest

abbrev pub sorted_set : List Str → List Str
sorted_set ss = sort_by str_le (distinct ss)

-- `rows[offset:offset + limit]`
abbrev pub page {ℓ} : {A : Type ℓ} → ℕ → ℕ → List A → List A
page offset limit rows = take limit (drop offset rows)
