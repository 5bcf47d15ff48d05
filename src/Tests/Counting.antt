-- ===== src/Tests/Counting.antt =====
-- The theorems of WriteLoss.Counting at sample data.
use cogno_engram.Prelude.{List, map, ◌++◌, ◌+◌, ◌≡◌, refl, [], if◌then◌else◌, All, some}
use cogno_engram.Prelude.Int.{pos}
use cogno_engram.Text.{Str, str_eq, codes}
use cogno_engram.WriteLoss.{Notice, count_of, record_loss, events, fresh, subscribe, turn_discarded}
use cogno_engram.Tests.Samples.{acme}
use cogno_engram.Tests.StoreSamples.{digest_of}
use cogno_engram.WriteLoss.Counting.{Announces, HasCounter, record_loss-counts}

fresh_counters : All (HasCounter (subscribe 1 fresh).counts) events
unfolding subscribe fresh str_eq
fresh_counters = (refl, (refl, (refl, tt)))

record_loss-counts_example :
    ((other : Str)
      → count_of other
          (record_loss digest_of turn_discarded acme
            (codes "s1")
            (some (pos 2))
            []
            (subscribe 1 fresh)).counts
        ≡ (if str_eq turn_discarded other
            then count_of other (subscribe 1 fresh).counts + 1
            else count_of other (subscribe 1 fresh).counts))
    × All
        (HasCounter
          (record_loss digest_of turn_discarded acme
            (codes "s1")
            (some (pos 2))
            []
            (subscribe 1 fresh)).counts)
        events
    × (new : List Notice) × ((record_loss digest_of turn_discarded acme
          (codes "s1")
          (some (pos 2))
          []
          (subscribe 1 fresh)).notices
        ≡ (subscribe 1 fresh).notices ++ new)
    × (map (λ n. n.observer) new ≡ (subscribe 1 fresh).observers)
    × All (Announces digest_of turn_discarded acme (codes "s1") (some (pos 2)) []) new
record_loss-counts_example =
    record_loss-counts digest_of turn_discarded acme (codes "s1") (some (pos 2)) []
      (subscribe 1 fresh) fresh_counters
