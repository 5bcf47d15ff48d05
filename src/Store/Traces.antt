-- ===== src/Store/Traces.antt =====
-- in_memory.py and trace_policy.py: the traces of turns, which stop being revisable with their age.
pub mod Revision
use cogno_engram.Prelude.{
  ℕ, ◌+◌, ◌≡◌, Bool, true, false, not, ◌&&◌, ◌||◌, Option, none, some, List, [], ◌∷◌, ◌++◌,
  if◌then◌else◌, filter, find?, length, leb, ltb, sort_by, ◌==◌,
}
use cogno_engram.Prelude.Int.{ℤ, ltb_ℤ}
use cogno_engram.Text.{Str, codes, str_eq}
use cogno_engram.Errors.{Result, ok, ◌>>=◌, ◌>>◌}
use cogno_engram.Types.{Date, TurnTrace}
use cogno_engram.WriteLoss.{record_loss, trace_overwrite_refused}
use cogno_engram.Graph.State.{require_scope}
use cogno_engram.Store.State.{Store, eq_ℤ, leb_ℤ, date_or, within_scope, under, page, str_less}

-- `TRACE_REVISION_WINDOW_S`, in microseconds.
abbrev pub trace_revision_window_default : ℕ
trace_revision_window_default = 3_600_000_000

unfoldable pub same_trace : TurnTrace → TurnTrace → Bool
same_trace trace t =
    str_eq t.scope trace.scope && str_eq t.session_id trace.session_id && eq_ℤ t.turn_n trace.turn_n

-- The stored trace is older than the window allows, counted from its own date.
abbrev pub is_stale : ℕ → Date → TurnTrace → Bool
is_stale window at prior = elim prior.created_at [ none ↦ false | some d ↦ ltb (d + window) at ]

-- The upsert replaces the content; the date stays that of the stored row.
unfoldable pub replace_trace : TurnTrace → Option Date → Store → Store
unfolding same_trace
replace_trace trace created_at st = record st {
  traces =
      filter (λ t. not (same_trace trace t)) st.traces
      ++ record trace { created_at = created_at } ∷ [];
}

module _ (digest : Str → Str) where
  unfoldable pub refuse_trace : TurnTrace → Store → Store
  refuse_trace trace st = record st {
    losses =
        record_loss digest trace_overwrite_refused trace.scope trace.session_id (some trace.turn_n)
          ((codes "reason", codes "stored_trace_is_older") ∷ []) st.losses;
  }

  unfoldable pub save_turn_trace : Date → TurnTrace → Store → Result (Store × Bool)
  unfolding require_scope same_trace replace_trace refuse_trace
  save_turn_trace now trace st = do
    require_scope trace.scope
    let at = date_or now trace.created_at
    ok (elim (find? (same_trace trace) st.traces) [
      | none ↦ (replace_trace trace (some at) st, true)
      | some prior ↦
          if is_stale st.trace_revision_window at prior
          then (refuse_trace trace st, false)
          else (replace_trace trace prior.created_at st, true)
    ])

unfoldable pub traces_for_session : Str → Str → Store → List TurnTrace
traces_for_session session_id scope st =
    sort_by (λ a b. leb_ℤ a.turn_n b.turn_n)
      (filter (λ t. str_eq t.session_id session_id && within_scope scope t.scope) st.traces)

-- The order of `(created_at, session_id, turn_n)`, and of its reverse.
abbrev pub trace_le : Date → TurnTrace → TurnTrace → Bool
trace_le now a b =
    let d = date_or now a.created_at in
    let e = date_or now b.created_at in
    ltb d e
    || ((d == e)
        && (str_less a.session_id b.session_id
            || (str_eq a.session_id b.session_id && leb_ℤ a.turn_n b.turn_n)))

unfoldable pub admin_traces : Date → Str → Option Date → ℕ → ℕ → Store → Result (List TurnTrace × ℕ)
unfolding require_scope under
admin_traces now scope_prefix since limit offset st = do
  require_scope scope_prefix
  let rows =
      filter
        (λ t.
          under t.scope scope_prefix
          && (elim since [ none ↦ true | some d ↦ leb d (date_or now t.created_at) ]))
        st.traces
  ok (page offset limit (sort_by (λ a b. trace_le now b a) rows), length rows)
