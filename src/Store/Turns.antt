-- ===== src/Store/Turns.antt =====
-- in_memory.py: `save_turn` and the reads and updates of turns.
pub mod Numbering
use cogno_engram.Prelude.{
  ℕ, ◌+◌, ◌≡◌, Bool, true, false, not, ◌&&◌, ◌||◌, Option, none, some, List, [], ◌∷◌, ◌++◌, map,
  if◌then◌else◌, filter, any, update_all, length, leb, ltb, sort_by, take,
}
use cogno_engram.Prelude.Int.{ℤ, pos, negsuc, ltb_ℤ, ◌+ℤ◌, max_ℤ}
use cogno_engram.Text.{Str, codes, str_eq, is_empty}
use cogno_engram.Errors.{Result, ok, raise, ◌>>=◌, ◌>>◌}
use cogno_engram.Types.{Date, TurnRecord}
use cogno_engram.WriteLoss.{record_loss, turn_discarded}
use cogno_engram.Graph.State.{require_scope}
use cogno_engram.Store.State.{Store, eq_ℤ, leb_ℤ, date_or, within_scope, under, sorted_set, page}

-- `t.scope == turn.scope and t.session_id == turn.session_id`
unfoldable pub in_session : Str → Str → TurnRecord → Bool
in_session scope session_id t = str_eq t.scope scope && str_eq t.session_id session_id

unfoldable pub at_turn : Str → Str → ℤ → TurnRecord → Bool
unfolding in_session
at_turn scope session_id turn_n t = in_session scope session_id t && eq_ℤ t.turn_n turn_n

-- `max((t.turn_n for t in mine), default=0)`
unfoldable pub max_turn : List TurnRecord → ℤ
max_turn [] = pos 0
max_turn (t ∷ []) = t.turn_n
max_turn (t ∷ u ∷ ts) = max_ℤ t.turn_n (max_turn (u ∷ ts))

module _ (digest : Str → Str) where
  -- The turn at its coordinate, stamped if it has no date.
  unfoldable pub append_turn : Date → TurnRecord → ℤ → Store → Store
  append_turn now turn n st = record st {
    turns =
        st.turns
        ++ record turn { turn_n = n; created_at = some (date_or now turn.created_at) } ∷ [];
  }

  -- A loss on a coordinate that is taken.
  unfoldable pub discard_turn : TurnRecord → Store → Store
  discard_turn turn st = record st {
    losses =
        record_loss digest turn_discarded turn.scope turn.session_id (some turn.turn_n)
          ((codes "reason", codes "coordinate_taken") ∷ (codes "pinned", codes "true") ∷ [])
          st.losses;
  }

  -- A pinned number is honoured or lost; a negative one is allocated.
  unfoldable pub save_turn : Date → TurnRecord → Store → Result (Store × ℤ)
  unfolding require_scope in_session max_turn append_turn discard_turn
  save_turn now turn st = do
    require_scope turn.scope
    let mine = filter (in_session turn.scope turn.session_id) st.turns
    ok (
        if leb_ℤ (pos 0) turn.turn_n
        then (if any (λ t. eq_ℤ t.turn_n turn.turn_n) mine
            then (discard_turn turn st, pos 0)
            else (append_turn now turn turn.turn_n st, turn.turn_n))
        else (append_turn now turn (max_turn mine +ℤ pos 1) st, max_turn mine +ℤ pos 1))

unfoldable pub update_turn_response : Str → Str → ℤ → Str → Store → Result Store
unfolding require_scope at_turn
update_turn_response scope session_id turn_n response st = do
  require_scope scope
  ok (record st {
    turns =
        update_all (at_turn scope session_id turn_n) (λ t. record t { response = response })
          st.turns;
  })

unfoldable pub set_feedback : Str → Str → ℤ → ℤ → Store → Result Store
unfolding require_scope at_turn
set_feedback scope session_id turn_n feedback st = do
  require_scope scope
  ok (record st {
    turns =
        update_all (at_turn scope session_id turn_n) (λ t. record t { feedback = feedback })
          st.turns;
  })

unfoldable pub turns_of : Str → Str → Store → List TurnRecord
turns_of session_id scope st =
    filter (λ t. str_eq t.session_id session_id && within_scope scope t.scope) st.turns

unfoldable pub load_turns : Str → Str → Store → List TurnRecord
unfolding turns_of
load_turns session_id scope st =
    sort_by (λ a b. leb_ℤ a.turn_n b.turn_n) (turns_of session_id scope st)

unfoldable pub turn_count : Str → Str → Store → ℕ
unfolding turns_of
turn_count session_id scope st = length (turns_of session_id scope st)

-- Newest first; turns of one date keep their order.
abbrev pub newest_first : Date → List TurnRecord → List TurnRecord
newest_first now = sort_by (λ a b. leb (date_or now b.created_at) (date_or now a.created_at))

unfoldable pub recent_turns : Date → Str → ℕ → Str → Store → Result (List TurnRecord)
unfolding require_scope
recent_turns now scope limit exclude_session st = do
  require_scope scope
  ok (
      take limit (
        newest_first now (
          filter (λ t. str_eq t.scope scope && not (str_eq t.session_id exclude_session))
            st.turns)))

unfoldable pub admin_turns : Date → Str → ℕ → ℕ → Store → Result (List TurnRecord × ℕ)
unfolding require_scope under
admin_turns now scope_prefix limit offset st = do
  require_scope scope_prefix
  let turns = filter (λ t. under t.scope scope_prefix) st.turns
  ok (page offset limit (newest_first now turns), length turns)

unfoldable pub admin_scopes : Str → Store → Result (List Str)
unfolding require_scope under
admin_scopes scope_prefix st = do
  require_scope scope_prefix
  ok (sorted_set (map (λ t. t.scope) (filter (λ t. under t.scope scope_prefix) st.turns)))
