-- ===== src/Tests/Settled.antt =====
-- The theorems of Store.Sessions.Settled at sample data.
use cogno_engram.Prelude.{refl, inl, some, none, [], ◌∷◌}
use cogno_engram.Prelude.Int.{pos}
use cogno_engram.Text.{codes, str_eq}
use cogno_engram.Store.State.{Store}
use cogno_engram.Store.Sessions.{session_at, close_session}
use cogno_engram.Store.Sessions.Settled.{Closes, Covered, Settled, close_session-Settled}
use cogno_engram.Tests.Samples.{acme}
use cogno_engram.Tests.StoreSamples.{a_store, a_turn}

abbrev dated_store : Store
dated_store = record a_store { turns = record (a_turn (pos 1)) { created_at = some 3 } ∷ [] }

dated_store-Closes : Closes (codes "s1") acme acme dated_store
unfolding session_at str_eq
dated_store-Closes = inl (
  record { id = codes "s1"; scope = acme; started_at = 1; ended_at = none; summary = [] },
  refl,
  refl,
  refl,
)

dated_store-Covered : Covered (codes "s1") acme 5 dated_store.turns
unfolding str_eq
dated_store-Covered = (λ e. refl, tt)

close_session-Settled_example :
    Settled 5
      (codes "s1")
      (codes "tea")
      acme
      dated_store
      (close_session 5 (codes "s1") (codes "tea") acme dated_store)
close_session-Settled_example =
    close_session-Settled 5 (codes "s1") (codes "tea") acme acme dated_store dated_store-Closes
      dated_store-Covered
