-- ===== src/Tests/Retention.antt =====
-- The theorems of Store.Memories.Retention at sample data.
use cogno_engram.Prelude.{ℕ, ◌≡◌, true, false, not, some, filter, length, All}
use cogno_engram.Text.{codes}
use cogno_engram.Errors.{ok}
use cogno_engram.Store.State.{Store}
use cogno_engram.Store.Memories.{keep_memory, delete_memories}
use cogno_engram.Tests.Samples.{acme, allowed}
use cogno_engram.Tests.StoreSamples.{a_store}
use cogno_engram.Store.Memories.Retention.{Matches, delete_memories-Matches}

delete_memories-Matches_example :
    (going : ℕ) × (st' : Store) × (delete_memories acme
        (some 6)
        (some (codes "fact"))
        (some 8000)
        true
        a_store
      ≡ ok (a_store, going))
    × (delete_memories acme (some 6) (some (codes "fact")) (some 8000) false a_store
        ≡ ok (st', going))
    × (st'.memories
        ≡ filter (keep_memory acme (some 6) (some (codes "fact")) (some 8000)) a_store.memories)
    × (length (
          filter
            (λ m. not (keep_memory acme (some 6) (some (codes "fact")) (some 8000) m))
            a_store.memories)
        ≡ going)
    × All (Matches acme (some 6) (some (codes "fact")) (some 8000)) (
        filter
          (λ m. not (keep_memory acme (some 6) (some (codes "fact")) (some 8000) m))
          a_store.memories)
delete_memories-Matches_example =
    delete_memories-Matches acme (some 6) (some (codes "fact")) (some 8000) a_store allowed
