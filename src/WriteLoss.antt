-- ===== src/WriteLoss.antt =====
-- cogno_engram/write_loss.py: the writes that were not performed, counted and announced. The state of
-- the module is explicit, an observer is a number, and what an observer is told is kept in order. The
-- log and the lock are left out, and so is what a callback does: its exceptions are swallowed.
pub mod Counting
use cogno_engram.Prelude.{
  ℕ, ◌+◌, ◌≡◌, Option, none, some, List, [], ◌∷◌, ◌++◌, map, if◌then◌else◌, any, ◌==◌,
}
use cogno_engram.Prelude.Int.{ℤ}
use cogno_engram.Text.{Str, codes, str_eq, is_empty}

abbrev pub turn_discarded : Str
turn_discarded = codes "turn_discarded_conflict"

abbrev pub turn_allocation_exhausted : Str
turn_allocation_exhausted = codes "turn_allocation_exhausted"

abbrev pub trace_overwrite_refused : Str
trace_overwrite_refused = codes "trace_overwrite_refused"

abbrev pub events : List Str
events = turn_discarded ∷ turn_allocation_exhausted ∷ trace_overwrite_refused ∷ []

-- The fields of an announcement: the digest of the scope, never the scope.
pub record Fields : Type 0 where
  pub scope_sha : Option Str
  pub session : Option Str
  pub turn : Option ℤ
  pub extra : List (Str × Str)

pub record Notice : Type 0 where
  pub observer : ℕ
  pub event : Str
  pub fields : Fields

-- `obs(event, dict(fields))`
abbrev pub told : Str → Fields → ℕ → Notice
told event fields o = record { observer = o; event = event; fields = fields }

pub record Losses : Type 0 where
  pub counts : List (Str × ℕ)
  pub observers : List ℕ
  pub notices : List Notice

-- `_counts[event] = _counts.get(event, 0) + 1`
unfoldable pub bump : Str → List (Str × ℕ) → List (Str × ℕ)
bump event [] = (event, 1) ∷ []
bump event ((k, n) ∷ counts) =
    let rest = bump event counts in if str_eq k event then (k, n + 1) ∷ counts else (k, n) ∷ rest

-- `_counts.get(event, 0)`
unfoldable pub count_of : Str → List (Str × ℕ) → ℕ
count_of event [] = 0
count_of event ((k, n) ∷ counts) =
    let rest = count_of event counts in if str_eq k event then n else rest

-- `{e: 0 for e in EVENTS}`, at import and by `reset`.
unfoldable pub fresh : Losses
fresh = record { counts = map (λ e. (e, 0)) events; observers = []; notices = [] }

unfoldable pub subscribe : ℕ → Losses → Losses
subscribe observer s = record s { observers = s.observers ++ observer ∷ [] }

remove_first : ℕ → List ℕ → List ℕ
remove_first a [] = []
remove_first a (x ∷ xs) = let rest = remove_first a xs in if x == a then xs else x ∷ rest

-- The callable that `subscribe` returns.
unfoldable pub unsubscribe : ℕ → Losses → Losses
unfolding remove_first
unsubscribe observer s = record s { observers = remove_first observer s.observers }

-- `reset`: the counters at zero and no observer.
unfoldable pub reset : Losses → Losses
unfolding fresh
reset s = record fresh { notices = s.notices }

module _ (digest : Str → Str) where
  -- `if scope: … if session: …`
  unfoldable pub loss_fields : Str → Str → Option ℤ → List (Str × Str) → Fields
  loss_fields scope session turn extra = record {
    scope_sha = if is_empty scope then none else some (digest scope);
    session = if is_empty session then none else some session;
    turn = turn;
    extra = extra;
  }

  -- `record`: counted once, and told to every observer.
  unfoldable pub record_loss : Str → Str → Str → Option ℤ → List (Str × Str) → Losses → Losses
  unfolding bump loss_fields
  record_loss event scope session turn extra s =
      let fields = loss_fields scope session turn extra in
      record s {
        counts = bump event s.counts;
        notices = s.notices ++ map (told event fields) s.observers;
      }
