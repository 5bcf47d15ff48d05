-- ===== src/Store/Memories/Upsert.antt =====
-- in_memory.py: `save_memory`, and the key of a memory.
use cogno_engram.Prelude.{
  find?-update_first, find?-snoc, ◌+◌, ◌≡◌, refl, ◌⊎◌, ◌∙◌, true, false, some, List, [], ◌∷◌, ◌++◌,
  arith, find?, any, update_first, All-map, All-not_any, Pairwise, Pairwise-snoc,
  Pairwise-update_first, Bool-cases, inl, inr, length, length-append, length-update_first,
}
use cogno_engram.Text.{Str, str_eq_comm, str_eq_self}
use cogno_engram.Errors.{ok}
use cogno_engram.Types.{Date, MemoryRecord}
use cogno_engram.Graph.State.{require_scope}
use cogno_engram.Graph.Write.{or_else, replace_if_given}
use cogno_engram.Store.State.{Store}
use cogno_engram.Store.Memories.{same_memory, revise_memory, save_memory}

-- No two stored memories share scope, category and content.
abbrev pub MemoriesValid : List MemoryRecord → Type 0
MemoriesValid = Pairwise (λ a b. same_memory a b ≡ false)

same_memory-sym : (a b : MemoryRecord) → same_memory a b ≡ same_memory b a
unfolding same_memory
same_memory-sym a b = rw (
  str_eq_comm a.scope b.scope,
  str_eq_comm a.category b.category,
  str_eq_comm a.content b.content,
)

revised-same :
    (memory existing m : MemoryRecord)
    → same_memory (revise_memory memory existing) m ≡ same_memory existing m
unfolding same_memory revise_memory
revised-same memory existing m = refl

same-revised :
    (memory existing m : MemoryRecord)
    → same_memory m (revise_memory memory existing) ≡ same_memory m existing
unfolding same_memory revise_memory
same-revised memory existing m = refl

key_of_new :
    (memory : MemoryRecord) (now : Date) (new_id : Str) (m : MemoryRecord)
    → same_memory m (record memory {
      created_at = or_else memory.created_at now;
      id = or_else memory.id new_id;
    })
      ≡ same_memory m memory
unfolding same_memory
key_of_new memory now new_id m = refl

same_memory_self : (m : MemoryRecord) → same_memory m m ≡ true
unfolding same_memory
same_memory_self m =
    ground (arith, str_eq_self m.scope, str_eq_self m.category, str_eq_self m.content)

-- Saving a memory returns, keeps the stored memories unique, and what is found under its key is then
-- either a row that was there, with the confidence of the new one, the embedding of the new one if it
-- has one, and all else, the first hearer among it, as it was; or, where no row had the key, the new
-- memory itself, one row more, dated and named where it was not.
pub save_memory-MemoriesValid :
    (now : Date) (new_id : Str) (memory : MemoryRecord) (st : Store)
    → require_scope memory.scope ≡ ok tt
    → MemoriesValid st.memories
    → (st' : Store) × (save_memory now new_id memory st ≡ ok st')
      × MemoriesValid st'.memories
      × (((old : MemoryRecord) × (find? (same_memory memory) st.memories ≡ some old)
            × (find? (same_memory memory) st'.memories
                ≡ some (record old {
                  embedding = replace_if_given old.embedding memory.embedding;
                  confidence = memory.confidence;
                }))
            × (length st'.memories ≡ length st.memories))
          ⊎ ((any (same_memory memory) st.memories ≡ false)
              × (find? (same_memory memory) st'.memories
                  ≡ some (record memory {
                    created_at = or_else memory.created_at now;
                    id = or_else memory.id new_id;
                  }))
              × (length st'.memories ≡ length st.memories + 1)))
unfolding save_memory revise_memory
save_memory-MemoriesValid now new_id memory st allowed v =
    elim (Bool-cases (any (same_memory memory) st.memories)) [
      | inl old ↦ (
        record st {
          memories = update_first (same_memory memory) (revise_memory memory) st.memories;
        },
        rw (allowed, old),
        Pairwise-update_first (λ a b. same_memory a b ≡ false) (same_memory memory)
            (revise_memory memory) st.memories (λ x y _ h. revised-same memory x y ∙ h)
            (λ x y _ h. same-revised memory y x ∙ h) v,
        inl (
            let (x, before, after) =
              find?-update_first (same_memory memory) (revise_memory memory) st.memories
                (λ x. same-revised memory x memory) old in
            (
              x,
              before,
              after,
              length-update_first (same_memory memory) (revise_memory memory) st.memories,
            )),
      )
      | inr new ↦ (
        record st {
          memories =
              st.memories
              ++ record memory {
                created_at = or_else memory.created_at now;
                id = or_else memory.id new_id;
              }
                ∷ [];
        },
        rw (allowed, new),
        Pairwise-snoc (λ a b. same_memory a b ≡ false) st.memories _ v
            (All-map _ _ st.memories
              (λ m h. key_of_new memory now new_id m ∙ same_memory-sym m memory ∙ h)
              (All-not_any (same_memory memory) st.memories new)),
        inr (
          new,
          find?-snoc (same_memory memory) st.memories _ new
              (key_of_new memory now new_id memory ∙ same_memory_self memory),
          length-append st.memories _,
        ),
      )
    ]
