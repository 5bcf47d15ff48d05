-- ===== src/Store/Memories.antt =====
-- in_memory.py: the memories of `InMemoryStore`, but for the ranking of `load_memories`.
pub mod Upsert
pub mod Retention
use cogno_engram.Prelude.{
  ℕ, zero, suc, ◌+◌, ◌-◌, ◌≡◌, Bool, true, false, not, ◌&&◌, ◌||◌, Option, none, some, List, [],
  ◌∷◌, ◌++◌, map, if◌then◌else◌, filter, any, update_first, length, leb, ltb, sort_by, take,
}
use cogno_engram.Prelude.Int.{ℤ, pos, negsuc, ltb_ℤ, ◌+ℤ◌, max_ℤ, min_ℤ}
use cogno_engram.Text.{Str, str_eq, words, share_word}
use cogno_engram.Folding.{Unicode}
use cogno_engram.Errors.{Result, ok, ◌>>=◌, ◌>>◌}
use cogno_engram.Types.{Date, Vector, MemoryRecord}
use cogno_engram.Graph.State.{require_scope}
use cogno_engram.Graph.Write.{or_else, replace_if_given}
use cogno_engram.Store.State.{Store, str_less, str_le, sorted_set}

-- The unique key `(scope, category, content)`.
unfoldable pub same_memory : MemoryRecord → MemoryRecord → Bool
same_memory memory m =
    str_eq m.scope memory.scope
    && str_eq m.category memory.category
    && str_eq m.content memory.content

-- `first_heard_by` is not copied over.
unfoldable pub revise_memory : MemoryRecord → MemoryRecord → MemoryRecord
revise_memory memory existing = record existing {
  embedding = replace_if_given existing.embedding memory.embedding;
  confidence = memory.confidence;
}

unfoldable pub save_memory : Date → Str → MemoryRecord → Store → Result Store
unfolding require_scope same_memory revise_memory
save_memory now new_id memory st = do
  require_scope memory.scope
  ok (
      if any (same_memory memory) st.memories
      then record st {
        memories = update_first (same_memory memory) (revise_memory memory) st.memories;
      }
      else record st {
        memories =
            st.memories
            ++ record memory {
              created_at = or_else memory.created_at now;
              id = or_else memory.id new_id;
            }
              ∷ [];
      })

-- `m.id or ""`
abbrev pub id_text : MemoryRecord → Str
id_text m = elim m.id [ none ↦ [] | some i ↦ i ]

unfoldable pub scan_memories : Str → Option Str → ℕ → Store → Result (List MemoryRecord)
unfolding require_scope
scan_memories scope after_id limit st = do
  require_scope scope
  let mems =
      sort_by (λ a b. str_le (id_text a) (id_text b))
        (filter (λ m. str_eq m.scope scope) st.memories)
  ok (
      take limit (elim after_id [
        | none ↦ mems
        | some cursor ↦ filter (λ m. str_less cursor (id_text m)) mems
      ]))

-- The scores are thousandths: ten is 10000.
abbrev pub score_bound : ℕ
score_bound = 10_000

-- `max(-10.0, min(10.0, m.feedback_score + delta))`
unfoldable pub clamp_score : ℤ → ℤ
clamp_score s = max_ℤ (negsuc 9_999) (min_ℤ (pos score_bound) s)

-- The loop stops once `limit` memories are touched: the test stands behind the write, so that one is
-- touched at a limit of zero too.
unfoldable pub adjust_loop :
    (MemoryRecord → Bool) → ℤ → ℕ → ℕ → List MemoryRecord → List MemoryRecord × ℕ
unfolding clamp_score
adjust_loop matches delta limit touched [] = ([], touched)
adjust_loop matches delta limit touched (m ∷ ms) =
    let skipped = adjust_loop matches delta limit touched ms in
    let gone_on = adjust_loop matches delta limit (touched + 1) ms in
    let changed = record m { feedback_score = clamp_score (m.feedback_score +ℤ delta) } in
    if matches m
    then (if leb limit (touched + 1)
        then (changed ∷ ms, touched + 1)
        else (changed ∷ gone_on.0, gone_on.1))
    else (m ∷ skipped.0, skipped.1)

unfoldable pub memory_count : Str → Store → Result ℕ
unfolding require_scope
memory_count scope st = do
  require_scope scope
  ok (length (filter (λ m. str_eq m.scope scope) st.memories))

unfoldable pub memory_scopes : Store → List Str
memory_scopes st = sorted_set (map (λ m. m.scope) st.memories)

-- `keep`: what no active filter of a deletion takes.
unfoldable pub keep_memory : Str → Option Date → Option Str → Option ℕ → MemoryRecord → Bool
keep_memory scope older_than category max_confidence m =
    not (str_eq m.scope scope)
    || (elim older_than [
      | none ↦ false
      | some cutoff ↦ elim m.created_at [ none ↦ true | some d ↦ leb cutoff d ]
    ])
    || (elim category [ none ↦ false | some c ↦ not (str_eq m.category c) ])
    || (elim max_confidence [ none ↦ false | some top ↦ ltb top m.confidence ])

-- One predicate, two verbs.
unfoldable pub delete_memories :
    Str → Option Date → Option Str → Option ℕ → Bool → Store → Result (Store × ℕ)
unfolding require_scope keep_memory
delete_memories scope older_than category max_confidence dry_run st = do
  require_scope scope
  let survivors = filter (keep_memory scope older_than category max_confidence) st.memories
  let going = length st.memories - length survivors
  ok (if dry_run then (st, going) else (record st { memories = survivors }, going))

module _ (uni : Unicode) where
  -- `_lexical(query, content) > 0`: the content has a word of the query.
  unfoldable pub lexical_match : Str → Str → Bool
  lexical_match query content = share_word (words (uni.lower query)) (words (uni.lower content))

  unfoldable pub adjust_feedback_score : Str → Str → ℤ → ℕ → Store → Result (Store × ℕ)
  unfolding require_scope lexical_match adjust_loop
  adjust_feedback_score scope query_text delta limit st = do
    require_scope scope
    let adjusted =
        adjust_loop (λ m. str_eq m.scope scope && lexical_match query_text m.content) delta limit 0
          st.memories
    ok (record st { memories = adjusted.0 }, adjusted.1)
