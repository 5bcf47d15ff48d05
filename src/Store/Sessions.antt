-- ===== src/Store/Sessions.antt =====
-- in_memory.py: the sessions of `InMemoryStore`, and the mark that a close leaves on the turns.
pub mod Marks
pub mod Settled
use cogno_engram.Prelude.{
  ℕ, ◌+◌, Bool, true, false, not, ◌&&◌, Option, none, some, List, [], ◌∷◌, ◌++◌, map, if◌then◌else◌,
  filter, any, find?, update_first, leb, ltb, sort_by, take, min, max,
}
use cogno_engram.Text.{Str, str_eq, is_empty}
use cogno_engram.Errors.{Result, ok, ◌>>◌}
use cogno_engram.Types.{Date, Session, TurnRecord}
use cogno_engram.Graph.State.{require_scope}
use cogno_engram.Store.State.{Coordinate, Store, eq_ℤ, date_or}

-- `self._sessions[session.id] = session`
unfoldable pub put_session : Session → List Session → List Session
put_session s sessions =
    if any (λ old. str_eq old.id s.id) sessions
    then update_first (λ old. str_eq old.id s.id) (λ _. s) sessions
    else sessions ++ s ∷ []

unfoldable pub session_at : Str → Store → Option Session
session_at session_id st = find? (λ s. str_eq s.id session_id) st.sessions

unfoldable pub create_session : Date → Str → Str → Store → Result (Store × Session)
unfolding require_scope put_session
create_session now new_id scope st = do
  require_scope scope
  let session : Session = record {
    id = new_id;
    scope = scope;
    started_at = now;
    ended_at = none;
    summary = [];
  }
  ok (record st { sessions = put_session session st.sessions }, session)

-- An id of another scope answers nothing.
unfoldable pub get_session : Str → Str → Store → Option Session
unfolding session_at
get_session session_id scope st = elim (session_at session_id st) [
  | none ↦ none
  | some s ↦ if not (is_empty scope) && not (str_eq s.scope scope) then none else some s
]

abbrev pub coordinate : TurnRecord → Coordinate
coordinate t = record { scope = t.scope; session_id = t.session_id; turn_n = t.turn_n }

unfoldable pub same_coordinate : Coordinate → Coordinate → Bool
same_coordinate a b =
    str_eq a.scope b.scope && str_eq a.session_id b.session_id && eq_ℤ a.turn_n b.turn_n

-- `(t.scope, t.session_id, t.turn_n) in self._consolidated`
unfoldable pub is_consolidated : Store → TurnRecord → Bool
unfolding same_coordinate
is_consolidated st t = any (same_coordinate (coordinate t)) st.consolidated

-- `turn.created_at is not None and turn.created_at <= ended`
abbrev pub dated_by : Date → TurnRecord → Bool
dated_by ended t = elim t.created_at [ none ↦ false | some d ↦ leb d ended ]

-- The turns that a closed session marks: those of its id and of the scope of its row, up to its end.
unfoldable pub stamp : Str → Str → Date → Store → Store
stamp session_id scope ended st = record st {
  consolidated =
      st.consolidated
      ++ map coordinate (
          filter (λ t. str_eq t.session_id session_id && str_eq t.scope scope && dated_by ended t)
            st.turns);
}

unfoldable pub close_session : Date → Str → Str → Str → Store → Store
unfolding session_at put_session stamp
close_session now session_id summary scope st = elim (session_at session_id st) [
  | none ↦
      if is_empty scope
      then st
      else stamp session_id scope now (record st {
        sessions =
            put_session
              (record {
                id = session_id;
                scope = scope;
                started_at = now;
                ended_at = some now;
                summary = summary;
              })
              st.sessions;
      })
  | some s ↦
      if not (is_empty scope) && not (str_eq s.scope scope)
      then st
      else stamp session_id s.scope now (record st {
        sessions =
            update_first (λ old. str_eq old.id session_id)
              (λ old. record old { ended_at = some now; summary = summary }) st.sessions;
      })
]

-- One entry of `last`: the scope of the first turn that was met, and the span of activity.
pub record Activity : Type 0 where
  pub session_id : Str
  pub scope : Str
  pub first : Date
  pub last : Date

unfoldable pub note_activity : Date → TurnRecord → List Activity → List Activity
note_activity now t seen =
    let ts = date_or now t.created_at in
    if any (λ a. str_eq a.session_id t.session_id) seen
    then update_first (λ a. str_eq a.session_id t.session_id)
        (λ a. record a { first = min a.first ts; last = max a.last ts }) seen
    else seen ++ record { session_id = t.session_id; scope = t.scope; first = ts; last = ts } ∷ []

-- The loop over the turns that no close has marked.
unfoldable pub activity : Date → Store → List TurnRecord → List Activity → List Activity
unfolding is_consolidated note_activity
activity now st [] seen = seen
activity now st (t ∷ ts) seen =
    activity now st ts (if is_consolidated st t then seen else note_activity now t seen)

-- Not recently active, and something happened since the session was closed.
unfoldable pub is_idle : Date → ℕ → Store → Activity → Bool
unfolding session_at
is_idle now idle_seconds st a =
    ltb (a.last + idle_seconds) now
    && not (elim (session_at a.session_id st) [
      | none ↦ false
      | some s ↦ elim s.ended_at [ none ↦ false | some ended ↦ leb a.last ended ]
    ])

-- Oldest first.
unfoldable pub idle_sessions : Date → ℕ → ℕ → Store → List Session
unfolding activity is_idle
idle_sessions now idle_seconds limit st = take limit (
    sort_by (λ a b. leb a.started_at b.started_at)
      (map
        (λ a. record {
          id = a.session_id;
          scope = a.scope;
          started_at = a.first;
          ended_at = none;
          summary = [];
        })
        (filter (is_idle now idle_seconds st) (activity now st st.turns []))))

-- Newest first.
abbrev pub latest : List Session → List Session
latest = sort_by (λ a b. leb b.started_at a.started_at)

unfoldable pub recent_sessions : Str → ℕ → Store → Result (List Session)
unfolding require_scope
recent_sessions scope limit st = do
  require_scope scope
  ok (take limit (latest (filter (λ s. str_eq s.scope scope) st.sessions)))

-- `s.ended_at is None`
abbrev pub is_open : Session → Bool
is_open s = elim s.ended_at [ none ↦ true | some ended ↦ false ]

abbrev pub head_of {ℓ} : {A : Type ℓ} → List A → Option A
head_of [] = none
head_of (x ∷ xs) = some x

unfoldable pub get_active_session : Date → Str → ℕ → Store → Result (Option Session)
unfolding require_scope
get_active_session now scope within_seconds st = do
  require_scope scope
  ok (
      head_of (
        latest (
          filter (λ s. str_eq s.scope scope && is_open s && leb now (s.started_at + within_seconds))
            st.sessions)))
