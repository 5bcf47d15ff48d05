-- ===== src/Store/Purge.antt =====
-- in_memory.py: `purge_scope` of `InMemoryStore`.
pub mod Isolation
use cogno_engram.Prelude.{ℕ, ◌+◌, ◌-◌, Bool, not, filter, length}
use cogno_engram.Text.{Str, str_eq}
use cogno_engram.Errors.{Result, ok, ◌>>=◌, ◌>>◌}
use cogno_engram.Graph.State.{require_scope}
use cogno_engram.Store.State.{Store}

-- The rows of the scope go, and the marks with them; a mark is not counted.
unfoldable pub purge_scope : Str → Store → Result (Store × ℕ)
unfolding require_scope
purge_scope scope st = do
  require_scope scope
  let turns = filter (λ t. not (str_eq t.scope scope)) st.turns
  let traces = filter (λ t. not (str_eq t.scope scope)) st.traces
  let memories = filter (λ m. not (str_eq m.scope scope)) st.memories
  ok (
    record st {
      sessions = filter (λ s. not (str_eq s.scope scope)) st.sessions;
      turns = turns;
      traces = traces;
      memories = memories;
      consolidated = filter (λ c. not (str_eq c.scope scope)) st.consolidated;
    },
    length (filter (λ s. str_eq s.scope scope) st.sessions)
        + (length st.turns - length turns)
        + (length st.traces - length traces)
        + (length st.memories - length memories),
  )
