-- ===== src/Store/Purge/Isolation.antt =====
-- in_memory.py: `purge_scope` of `InMemoryStore`, as each scope sees it.
use cogno_engram.Prelude.{
  ◌+◌, ◌-◌, ◌≡◌, Bool, true, false, not, List, [], arith, filter, length, length-filter-not,
  filter-filter-not, filter-filter_of,
}
use cogno_engram.Text.{Str, str_eq, str_eq_iff}
use cogno_engram.Errors.{ok}
use cogno_engram.Types.{Session, TurnRecord, TurnTrace, MemoryRecord}
use cogno_engram.Graph.State.{require_scope}
use cogno_engram.Store.State.{Store}
use cogno_engram.Store.Purge.{purge_scope}

-- The rows of a scope, in each table.
abbrev pub sessions_in : Str → Store → List Session
sessions_in scope st = filter (λ s. str_eq s.scope scope) st.sessions

abbrev pub turns_in : Str → Store → List TurnRecord
turns_in scope st = filter (λ t. str_eq t.scope scope) st.turns

abbrev pub traces_in : Str → Store → List TurnTrace
traces_in scope st = filter (λ t. str_eq t.scope scope) st.traces

abbrev pub memories_in : Str → Store → List MemoryRecord
memories_in scope st = filter (λ m. str_eq m.scope scope) st.memories

other_scope :
    (scope other x : Str)
    → str_eq other scope ≡ false
    → str_eq x other ≡ true
    → not (str_eq x scope) ≡ true
other_scope scope other x h e =
    ground (arith, h, e, str_eq_iff x other, str_eq_iff x scope, str_eq_iff other scope)

going {ℓ} :
    {A : Type ℓ} (p : A → Bool) (xs : List A)
    → length xs - length (filter (λ x. not (p x)) xs) ≡ length (filter p xs)
going p xs = omega (arith, length-filter-not p xs)

-- A purge returns and counts the sessions, turns, traces and memories of its scope; none of them is left,
-- and every other scope has the rows that it had.
pub purge_scope-isolates :
    (scope : Str) (st : Store)
    → require_scope scope ≡ ok tt
    → (st' : Store) × (purge_scope scope st
        ≡ ok (
          st',
          length (sessions_in scope st)
              + length (turns_in scope st)
              + length (traces_in scope st)
              + length (memories_in scope st),
        ))
      × (sessions_in scope st' ≡ [])
      × (turns_in scope st' ≡ [])
      × (traces_in scope st' ≡ [])
      × (memories_in scope st' ≡ [])
      × ((other : Str)
          → str_eq other scope ≡ false
          → (sessions_in other st' ≡ sessions_in other st)
            × (turns_in other st' ≡ turns_in other st)
            × (traces_in other st' ≡ traces_in other st)
            × (memories_in other st' ≡ memories_in other st))
unfolding purge_scope
purge_scope-isolates scope st allowed = (
  record st {
    sessions = filter (λ s. not (str_eq s.scope scope)) st.sessions;
    turns = filter (λ t. not (str_eq t.scope scope)) st.turns;
    traces = filter (λ t. not (str_eq t.scope scope)) st.traces;
    memories = filter (λ m. not (str_eq m.scope scope)) st.memories;
    consolidated = filter (λ c. not (str_eq c.scope scope)) st.consolidated;
  },
  rw (
    allowed,
    going (λ t. str_eq t.scope scope) st.turns,
    going (λ t. str_eq t.scope scope) st.traces,
    going (λ m. str_eq m.scope scope) st.memories,
  ),
  filter-filter-not (λ s. str_eq s.scope scope) st.sessions,
  filter-filter-not (λ t. str_eq t.scope scope) st.turns,
  filter-filter-not (λ t. str_eq t.scope scope) st.traces,
  filter-filter-not (λ m. str_eq m.scope scope) st.memories,
  λ other h. (
    filter-filter_of _ _ st.sessions (λ s. other_scope scope other s.scope h),
    filter-filter_of _ _ st.turns (λ t. other_scope scope other t.scope h),
    filter-filter_of _ _ st.traces (λ t. other_scope scope other t.scope h),
    filter-filter_of _ _ st.memories (λ m. other_scope scope other m.scope h),
  ),
)
