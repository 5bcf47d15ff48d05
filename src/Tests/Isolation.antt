-- ===== src/Tests/Isolation.antt =====
-- The theorems of Store.Purge.Isolation at sample data.
use cogno_engram.Prelude.{◌+◌, ◌≡◌, false, [], length}
use cogno_engram.Text.{Str, str_eq}
use cogno_engram.Errors.{ok}
use cogno_engram.Store.State.{Store}
use cogno_engram.Store.Purge.{purge_scope}
use cogno_engram.Tests.Samples.{acme, allowed}
use cogno_engram.Tests.StoreSamples.{a_store}
use cogno_engram.Store.Purge.Isolation.{
  sessions_in, turns_in, traces_in, memories_in, purge_scope-isolates,
}

purge_scope-isolates_example :
    (st' : Store) × (purge_scope acme a_store
      ≡ ok (
        st',
        length (sessions_in acme a_store)
            + length (turns_in acme a_store)
            + length (traces_in acme a_store)
            + length (memories_in acme a_store),
      ))
    × (sessions_in acme st' ≡ [])
    × (turns_in acme st' ≡ [])
    × (traces_in acme st' ≡ [])
    × (memories_in acme st' ≡ [])
    × ((other : Str)
        → str_eq other acme ≡ false
        → (sessions_in other st' ≡ sessions_in other a_store)
          × (turns_in other st' ≡ turns_in other a_store)
          × (traces_in other st' ≡ traces_in other a_store)
          × (memories_in other st' ≡ memories_in other a_store))
purge_scope-isolates_example = purge_scope-isolates acme a_store allowed
