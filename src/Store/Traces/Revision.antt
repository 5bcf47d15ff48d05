-- ===== src/Store/Traces/Revision.antt =====
-- in_memory.py and trace_policy.py: `save_turn_trace`.
use cogno_engram.Prelude.{
  ◌+◌, ◌≡◌, refl, ◌⊎◌, ◌∙◌, Option-cases, Bool, true, false, not, Option, none, some, List, [], ◌∷◌,
  ◌++◌, arith, filter, find?, All-map, All-filter_of, Pairwise, Pairwise-snoc, Pairwise-filter,
  find?-eq-none, filter_of_All, Bool-cases, inl, inr,
}
use cogno_engram.Text.{Str, str_eq_self}
use cogno_engram.Errors.{ok}
use cogno_engram.Types.{Date, TurnTrace}
use cogno_engram.WriteLoss.{count_of, trace_overwrite_refused, record_loss}
use cogno_engram.WriteLoss.Counting.{count_of-bump_self}
use cogno_engram.Graph.State.{require_scope}
use cogno_engram.Store.State.{Store, date_or}
use cogno_engram.Store.Traces.{same_trace, is_stale, replace_trace, refuse_trace, save_turn_trace}

-- No two stored traces share a coordinate.
abbrev pub TracesValid : List TurnTrace → Type 0
TracesValid = Pairwise (λ a b. same_trace b a ≡ false)

same_trace-redate :
    (trace t : TurnTrace) (d : Option Date)
    → same_trace (record trace { created_at = d }) t ≡ same_trace trace t
unfolding same_trace
same_trace-redate trace t d = refl

same_trace_self :
    (trace : TurnTrace) (d : Option Date)
    → same_trace trace (record trace { created_at = d }) ≡ true
unfolding same_trace
same_trace_self trace d = ground (arith, str_eq_self trace.scope, str_eq_self trace.session_id)

replace_trace-TracesValid :
    (trace : TurnTrace) (d : Option Date) (st : Store)
    → TracesValid st.traces
    → TracesValid (replace_trace trace d st).traces
unfolding replace_trace
replace_trace-TracesValid trace d st v =
    Pairwise-snoc _ (filter (λ t. not (same_trace trace t)) st.traces) _
      (Pairwise-filter _ (λ t. not (same_trace trace t)) st.traces v)
      (All-filter_of _ (λ t. not (same_trace trace t)) st.traces
        (λ t h. same_trace-redate trace t d ∙ ground arith))

find?-replaced {ℓ} :
    {A : Type ℓ} (p : A → Bool) (xs : List A) (y : A)
    → p y ≡ true
    → find? p (filter (λ x. not (p x)) xs ++ y ∷ []) ≡ some y
find?-replaced p [] y h = rw h
find?-replaced p (x ∷ xs) y h = ground (arith, find?-replaced p xs y h)

filter-not_of-none {ℓ} :
    {A : Type ℓ} (p : A → Bool) (xs : List A) → find? p xs ≡ none → filter (λ x. not (p x)) xs ≡ xs
filter-not_of-none p xs h =
    filter_of_All _ xs (All-map (λ x. p x ≡ false) _ xs (λ x e. rw e) (find?-eq-none p xs h))

-- Writing a trace returns, and the stored traces stay unique at their coordinates. A first write is
-- stored with its date, or with the clock's when it has none. A second write takes the place of the
-- stored trace and keeps the stored date, however often it is repeated, as long as that date is not
-- older than the window; from then on it is refused, counted, and changes no trace.
pub save_turn_trace-TracesValid :
    (digest : Str → Str) (now : Date) (trace : TurnTrace) (st : Store)
    → require_scope trace.scope ≡ ok tt
    → TracesValid st.traces
    → (st' : Store) × (stored : Bool) × (save_turn_trace digest now trace st ≡ ok (st', stored))
      × TracesValid st'.traces
      × (((find? (same_trace trace) st.traces ≡ none)
            × (stored ≡ true)
            × (st'.losses ≡ st.losses)
            × (st'.traces
                ≡ st.traces
                  ++ record trace { created_at = some (date_or now trace.created_at) } ∷ []))
          ⊎ ((prior : TurnTrace) × (find? (same_trace trace) st.traces ≡ some prior)
              × (((is_stale st.trace_revision_window (date_or now trace.created_at) prior ≡ false)
                    × (stored ≡ true)
                    × (st'.losses ≡ st.losses)
                    × (find? (same_trace trace) st'.traces
                        ≡ some (record trace { created_at = prior.created_at })))
                  ⊎ ((is_stale st.trace_revision_window (date_or now trace.created_at) prior ≡ true)
                      × (stored ≡ false)
                      × (st'.traces ≡ st.traces)
                      × (count_of trace_overwrite_refused st'.losses.counts
                          ≡ count_of trace_overwrite_refused st.losses.counts + 1)))))
unfolding save_turn_trace replace_trace refuse_trace record_loss
save_turn_trace-TracesValid digest now trace st allowed v =
    let at = date_or now trace.created_at in
    elim (Option-cases (find? (same_trace trace) st.traces)) [
      | inl new ↦ (
        replace_trace trace (some at) st,
        true,
        rw (allowed, new),
        replace_trace-TracesValid trace (some at) st v,
        inl (new, refl, refl, rw (filter-not_of-none (same_trace trace) st.traces new)),
      )
      | inr (prior, old) ↦ elim (Bool-cases (is_stale st.trace_revision_window at prior)) [
        | inl stale ↦ (
          refuse_trace digest trace st,
          false,
          rw (allowed, old, stale),
          v,
          inr (
            prior,
            old,
            inr (stale, refl, refl, count_of-bump_self trace_overwrite_refused st.losses.counts),
          ),
        )
        | inr young ↦ (
          replace_trace trace prior.created_at st,
          true,
          rw (allowed, old, young),
          replace_trace-TracesValid trace prior.created_at st v,
          inr (
            prior,
            old,
            inl (
              young,
              refl,
              refl,
              find?-replaced (same_trace trace) st.traces _
                  (same_trace_self trace prior.created_at),
            ),
          ),
        )
      ]
    ]
