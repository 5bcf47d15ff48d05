-- ===== src/Store/Sessions/Settled.antt =====
-- in_memory.py: `close_session`, and the scans that follow it.
use cogno_engram.Prelude.{
  ℕ, ◌≡◌, refl, ◌∙◌, ◌⊎◌, sym, ap, subst, true, false, not, ◌&&◌, none, some, List, [], ◌∷◌, arith,
  find?-update_first, any_of_find?, some_same, any, find?, update_first, inl, inr, All, All-map,
  All-both,
}
use cogno_engram.Text.{Str, str_eq, str_eq_self, is_empty}
use cogno_engram.Types.{Date, Session, TurnRecord}
use cogno_engram.Store.State.{Store}
use cogno_engram.Store.Sessions.{
  put_session, session_at, stamp, close_session, is_consolidated, dated_by, idle_sessions,
}
use cogno_engram.Store.Sessions.Marks.{AllMarked, marked-not_idle, stamp-marks}

-- The scope that a close stamps: of the row that is there, if the caller may close it, or else the one
-- that is given.
abbrev pub Closes : Str → Str → Str → Store → Type 0
Closes session_id scope closed st =
    ((s : Session) × (session_at session_id st ≡ some s)
      × ((not (is_empty scope) && not (str_eq s.scope scope)) ≡ false)
      × (s.scope ≡ closed))
    ⊎ ((session_at session_id st ≡ none) × (is_empty scope ≡ false) × (scope ≡ closed))

-- The turns of the session are of the scope that is closed, and dated by the close.
abbrev pub Covered : Str → Str → Date → List TurnRecord → Type 0
Covered session_id closed now =
    All (λ t.
      str_eq t.session_id session_id ≡ true → (str_eq t.scope closed && dated_by now t) ≡ true)

stamped :
    (now : Date) (session_id closed : Str) (st : Store) (rows : List Session)
    → Covered session_id closed now st.turns
    → AllMarked session_id (record (stamp session_id closed now st) { sessions = rows }) st.turns
unfolding stamp is_consolidated
stamped now session_id closed st rows covered =
    All-map _ _ st.turns (λ t h own. h.1 (ground (arith, own, h.0 own)))
      (All-both _ _ st.turns covered (stamp-marks session_id closed now st))

-- What a close leaves: the row ended now with the summary, no turn changed, and no later scan for idle
-- sessions that names the session, even where the table of sessions is replaced.
abbrev pub Settled : Date → Str → Str → Str → Store → Store → Type 0
Settled now session_id summary closed st st' =
    (s : Session) × (session_at session_id st' ≡ some s)
    × (s.ended_at ≡ some now)
    × (s.summary ≡ summary)
    × (s.scope ≡ closed)
    × (st'.turns ≡ st.turns)
    × ((rows : List Session) (later : Date) (seconds limit : ℕ)
        → any (λ r. str_eq r.id session_id)
            (idle_sessions later seconds limit (record st' { sessions = rows }))
          ≡ false)

stamp-Settled :
    (now : Date) (session_id summary closed : Str) (st : Store) (sessions : List Session)
    (s : Session)
    → find? (λ r. str_eq r.id session_id) sessions ≡ some s
    → s.ended_at ≡ some now
    → s.summary ≡ summary
    → s.scope ≡ closed
    → Covered session_id closed now st.turns
    → Settled now session_id summary closed st
        (stamp session_id closed now (record st { sessions = sessions }))
unfolding stamp session_at
stamp-Settled now session_id summary closed st sessions s found ended summed same covered = (
  s,
  found,
  ended,
  summed,
  same,
  refl,
  λ rows later seconds limit.
      marked-not_idle later seconds limit session_id _
        (stamped now session_id closed st rows covered),
)

close_session-found :
    (now : Date) (session_id summary scope : Str) (st : Store) (s : Session)
    → session_at session_id st ≡ some s
    → (not (is_empty scope) && not (str_eq s.scope scope)) ≡ false
    → close_session now session_id summary scope st
      ≡ stamp session_id s.scope now (record st {
        sessions =
            update_first
              (λ old. str_eq old.id session_id)
              (λ old. record old { ended_at = some now; summary = summary })
              st.sessions;
      })
unfolding close_session
close_session-found now session_id summary scope st s found mine = rw (close_session, found, mine)

close_session-new :
    (now : Date) (session_id summary scope : Str) (st : Store)
    → session_at session_id st ≡ none
    → is_empty scope ≡ false
    → close_session now session_id summary scope st
      ≡ stamp session_id scope now (record st {
        sessions =
            put_session
              (record {
                id = session_id;
                scope = scope;
                started_at = now;
                ended_at = some now;
                summary = summary;
              })
              st.sessions;
      })
unfolding close_session
close_session-new now session_id summary scope st missing given = rw (close_session, missing, given)

put_session-found :
    (row : Session) (sessions : List Session)
    → find? (λ r. str_eq r.id row.id) (put_session row sessions) ≡ some row
unfolding put_session
put_session-found row [] = ground (arith, str_eq_self row.id)
put_session-found row (x ∷ xs) = ground (arith, str_eq_self row.id, put_session-found row xs)

-- Closing a session, whose row is there and the caller's to close or which has a scope given, and whose
-- turns are all of that scope and dated by the close, leaves its row ended now with the summary, changes
-- no turn, and no later scan for idle sessions names it, even where the table of sessions is replaced.
pub close_session-Settled :
    (now : Date) (session_id summary scope closed : Str) (st : Store)
    → Closes session_id scope closed st
    → Covered session_id closed now st.turns
    → Settled now session_id summary closed st (close_session now session_id summary scope st)
unfolding session_at
close_session-Settled now session_id summary scope closed st closes covered = elim closes [
  | inl (s, found, mine, same) ↦
      let ended : Session → Session =
        λ old. record old { ended_at = some now; summary = summary } in
      let (x, before, after) =
        find?-update_first (λ r. str_eq r.id session_id) ended st.sessions (λ r. refl)
          (any_of_find? (λ r. str_eq r.id session_id) st.sessions found) in
      let kept : x.scope ≡ closed = ap (λ r. r.scope) (some_same (sym before ∙ found)) ∙ same in
      subst (Settled now session_id summary closed st)
        (sym (
          close_session-found now session_id summary scope st s found mine
          ∙ ap
              (λ c. stamp session_id c now (record st {
                sessions = update_first (λ old. str_eq old.id session_id) ended st.sessions;
              }))
              same))
        (stamp-Settled now session_id summary closed st _ (ended x) after refl refl kept covered)
  | inr (missing, given, same) ↦
      let row : Session = record {
        id = session_id;
        scope = scope;
        started_at = now;
        ended_at = some now;
        summary = summary;
      } in
      subst (Settled now session_id summary closed st)
        (sym (
          close_session-new now session_id summary scope st missing given
          ∙ ap (λ c. stamp session_id c now (record st { sessions = put_session row st.sessions }))
              same))
        (stamp-Settled now session_id summary closed st _ row (put_session-found row st.sessions)
          refl refl same covered)
]
