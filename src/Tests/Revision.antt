-- ===== src/Tests/Revision.antt =====
-- The theorems of Store.Traces.Revision at sample data.
use cogno_engram.Prelude.{◌+◌, ◌≡◌, ◌⊎◌, Bool, true, false, none, some, [], ◌∷◌, ◌++◌, find?}
use cogno_engram.Errors.{ok}
use cogno_engram.Types.{TurnTrace}
use cogno_engram.WriteLoss.{count_of, trace_overwrite_refused}
use cogno_engram.Store.State.{Store, date_or}
use cogno_engram.Store.Traces.{same_trace, is_stale, save_turn_trace}
use cogno_engram.Tests.Samples.{allowed}
use cogno_engram.Tests.StoreSamples.{a_store, a_trace, digest_of}
use cogno_engram.Store.Traces.Revision.{TracesValid, save_turn_trace-TracesValid}

save_turn_trace-TracesValid_example :
    (st' : Store) × (stored : Bool) × (save_turn_trace digest_of 9 a_trace a_store
      ≡ ok (st', stored))
    × TracesValid st'.traces
    × (((find? (same_trace a_trace) a_store.traces ≡ none)
          × (stored ≡ true)
          × (st'.losses ≡ a_store.losses)
          × (st'.traces
              ≡ a_store.traces
                ++ record a_trace { created_at = some (date_or 9 a_trace.created_at) } ∷ []))
        ⊎ ((prior : TurnTrace) × (find? (same_trace a_trace) a_store.traces ≡ some prior)
            × (((is_stale a_store.trace_revision_window (date_or 9 a_trace.created_at) prior
                    ≡ false)
                  × (stored ≡ true)
                  × (st'.losses ≡ a_store.losses)
                  × (find? (same_trace a_trace) st'.traces
                      ≡ some (record a_trace { created_at = prior.created_at })))
                ⊎ ((is_stale a_store.trace_revision_window (date_or 9 a_trace.created_at) prior
                      ≡ true)
                    × (stored ≡ false)
                    × (st'.traces ≡ a_store.traces)
                    × (count_of trace_overwrite_refused st'.losses.counts
                        ≡ count_of trace_overwrite_refused a_store.losses.counts + 1)))))
save_turn_trace-TracesValid_example =
    save_turn_trace-TracesValid digest_of 9 a_trace a_store allowed (tt, tt)
