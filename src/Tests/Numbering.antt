-- ===== src/Tests/Numbering.antt =====
-- The theorems of Store.Turns.Numbering at sample data.
use cogno_engram.Prelude.{◌+◌, ◌≡◌, ◌⊎◌, true, some, [], ◌∷◌, ◌++◌, arith, any}
use cogno_engram.Prelude.Int.{ℤ, pos}
use cogno_engram.Errors.{ok}
use cogno_engram.WriteLoss.{count_of, turn_discarded}
use cogno_engram.Store.State.{Store, leb_ℤ, date_or}
use cogno_engram.Store.Turns.{at_turn, save_turn}
use cogno_engram.Tests.Samples.{allowed}
use cogno_engram.Tests.StoreSamples.{a_store, pinned_turn, digest_of}
use cogno_engram.Store.Turns.Numbering.{TurnsValid, save_turn-TurnsValid}

store-TurnsValid : TurnsValid a_store.turns
store-TurnsValid = record { numbered = (omega arith, tt); apart = (tt, tt) }

save_turn-TurnsValid_example :
    (st' : Store) × (n : ℤ) × (save_turn digest_of 9 pinned_turn a_store ≡ ok (st', n))
    × TurnsValid st'.turns
    × (((st'.turns
            ≡ a_store.turns
              ++ record pinned_turn {
                turn_n = n;
                created_at = some (date_or 9 pinned_turn.created_at);
              }
                ∷ [])
          × (st'.losses ≡ a_store.losses)
          × (leb_ℤ (pos 0) pinned_turn.turn_n ≡ true → n ≡ pinned_turn.turn_n))
        ⊎ ((leb_ℤ (pos 0) pinned_turn.turn_n ≡ true)
            × (any
                  (at_turn pinned_turn.scope pinned_turn.session_id pinned_turn.turn_n)
                  a_store.turns
                ≡ true)
            × (n ≡ pos 0)
            × (st'.turns ≡ a_store.turns)
            × (count_of turn_discarded st'.losses.counts
                ≡ count_of turn_discarded a_store.losses.counts + 1)))
save_turn-TurnsValid_example =
    save_turn-TurnsValid digest_of 9 pinned_turn a_store allowed store-TurnsValid
