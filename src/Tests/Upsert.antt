-- ===== src/Tests/Upsert.antt =====
-- The theorems of Store.Memories.Upsert at sample data.
use cogno_engram.Prelude.{◌+◌, ◌≡◌, ◌⊎◌, false, some, find?, any, length}
use cogno_engram.Text.{codes}
use cogno_engram.Errors.{ok}
use cogno_engram.Types.{MemoryRecord}
use cogno_engram.Graph.Write.{or_else, replace_if_given}
use cogno_engram.Store.State.{Store}
use cogno_engram.Store.Memories.{same_memory, save_memory}
use cogno_engram.Tests.Samples.{allowed}
use cogno_engram.Tests.StoreSamples.{a_store, a_memory}
use cogno_engram.Store.Memories.Upsert.{MemoriesValid, save_memory-MemoriesValid}

save_memory-MemoriesValid_example :
    (st' : Store) × (save_memory 9 (codes "m2") a_memory a_store ≡ ok st')
    × MemoriesValid st'.memories
    × (((old : MemoryRecord) × (find? (same_memory a_memory) a_store.memories ≡ some old)
          × (find? (same_memory a_memory) st'.memories
              ≡ some (record old {
                embedding = replace_if_given old.embedding a_memory.embedding;
                confidence = a_memory.confidence;
              }))
          × (length st'.memories ≡ length a_store.memories))
        ⊎ ((any (same_memory a_memory) a_store.memories ≡ false)
            × (find? (same_memory a_memory) st'.memories
                ≡ some (record a_memory {
                  created_at = or_else a_memory.created_at 9;
                  id = or_else a_memory.id (codes "m2");
                }))
            × (length st'.memories ≡ length a_store.memories + 1)))
save_memory-MemoriesValid_example =
    save_memory-MemoriesValid 9 (codes "m2") a_memory a_store allowed (tt, tt)
