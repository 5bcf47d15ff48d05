-- ===== src/Store/Memories/Retention.antt =====
-- in_memory.py: `delete_memories`, its dry run and its wet run.
use cogno_engram.Prelude.{
  ℕ, ◌+◌, ◌-◌, ◌≤◌, ◌≡◌, refl, true, false, not, Option, some, arith, filter, length,
  length-filter-not, All, All-filter_of, Option-cases, inl, inr,
}
use cogno_engram.Text.{Str, str_eq_iff}
use cogno_engram.Errors.{ok}
use cogno_engram.Types.{Date, MemoryRecord}
use cogno_engram.Graph.State.{require_scope}
use cogno_engram.Store.State.{Store}
use cogno_engram.Store.Memories.{keep_memory, delete_memories}

-- What a deletion may take: a row of the scope, dated before the cutoff, of the category, and of no
-- more than the confidence, each as far as it is asked for. A row with no date is never before.
abbrev pub Matches : Str → Option Date → Option Str → Option ℕ → MemoryRecord → Type 0
Matches scope older_than category max_confidence m =
    (m.scope ≡ scope)
    × ((cutoff : Date)
        → older_than ≡ some cutoff
        → (d : Date) × (m.created_at ≡ some d) × (d + 1 ≤ cutoff))
    × ((c : Str) → category ≡ some c → m.category ≡ c)
    × ((top : ℕ) → max_confidence ≡ some top → m.confidence ≤ top)

dropped-Matches :
    (scope : Str) (older_than : Option Date) (category : Option Str) (max_confidence : Option ℕ)
    (m : MemoryRecord)
    → keep_memory scope older_than category max_confidence m ≡ false
    → Matches scope older_than category max_confidence m
unfolding keep_memory
dropped-Matches scope older_than category max_confidence m h = (
  ground (arith, str_eq_iff m.scope scope),
  λ cutoff e. elim (Option-cases m.created_at) [
    | inl undated ↦ absurd (ground (arith, h, e, undated))
    | inr (d, dated) ↦ (d, dated, ground (arith, h, e, dated))
  ],
  λ c e. ground (arith, str_eq_iff m.category c),
  λ top e. ground arith,
)

-- A deletion of memories returns, in its dry run the count that its wet run has on the same store, and
-- the dry run changes nothing. The wet run keeps, in their order, the memories that the filters spare,
-- takes the others, counts them, and every one it takes is of the scope, was dated before the cutoff,
-- is of the category and of no more than the confidence, as far as each was asked for.
pub delete_memories-Matches :
    (scope : Str) (older_than : Option Date) (category : Option Str) (max_confidence : Option ℕ)
    (st : Store)
    → require_scope scope ≡ ok tt
    → (going : ℕ) × (st' : Store) × (delete_memories scope older_than category max_confidence true
          st
        ≡ ok (st, going))
      × (delete_memories scope older_than category max_confidence false st ≡ ok (st', going))
      × (st'.memories ≡ filter (keep_memory scope older_than category max_confidence) st.memories)
      × (length
            (filter (λ m. not (keep_memory scope older_than category max_confidence m)) st.memories)
          ≡ going)
      × All
          (Matches scope older_than category max_confidence)
          (filter (λ m. not (keep_memory scope older_than category max_confidence m)) st.memories)
unfolding delete_memories
delete_memories-Matches scope older_than category max_confidence st allowed =
    let keep = keep_memory scope older_than category max_confidence in
    (
      length st.memories - length (filter keep st.memories),
      record st { memories = filter keep st.memories },
      rw allowed,
      rw allowed,
      refl,
      omega (arith, length-filter-not keep st.memories),
      All-filter_of (Matches scope older_than category max_confidence) _ st.memories
          (λ m h. dropped-Matches scope older_than category max_confidence m (ground (arith, h))),
    )
