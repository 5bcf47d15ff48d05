-- ===== src/Graph/Walk.antt =====
-- in_memory.py: `walk`, the breadth-first traversal over the accepted edges that a reader may read.
pub mod Ends
pub mod Sound
use cogno_engram.Prelude.{
  ℕ, zero, suc, ◌+◌, ◌*◌, ◌≡◌, Bool, true, false, Option, none, some, List, [], ◌∷◌, ◌++◌,
  if◌then◌else◌, any, length, leb, ◌==◌,
}
use cogno_engram.Text.{Str}
use cogno_engram.Errors.{Result, ok, ◌>>=◌, ◌>>◌}
use cogno_engram.Folding.{Unicode, fold_label}
use cogno_engram.Types.{GraphEdge, is_accepted}
use cogno_engram.Graph.State.{Graph, require_scope, contains, readable}
use cogno_engram.Graph.Read.{far_end}

-- The local variables of `walk`. An edge object is named by its place among the readable edges.
pub record Traversal : Type 0 where
  pub result : List GraphEdge
  pub seen_edges : List ℕ
  pub visited : List Str
  pub frontier : List (Str × ℕ)

abbrev pub numbered : ℕ → List GraphEdge → List (ℕ × GraphEdge)
numbered i [] = []
numbered i (e ∷ es) = (i, e) ∷ numbered (suc i) es

-- `if id(edge) not in seen_edges: …`
unfoldable pub note_edge : ℕ → GraphEdge → Traversal → Traversal
note_edge i e t =
    if any (λ j. j == i) t.seen_edges
    then t
    else record t { seen_edges = i ∷ t.seen_edges; result = t.result ++ e ∷ [] }

-- `if fold_label(nxt) not in visited: …`
unfoldable pub note_label : Str → ℕ → Traversal → Traversal
note_label key depth t =
    if contains key t.visited
    then t
    else record t { visited = key ∷ t.visited; frontier = t.frontier ++ (key, depth) ∷ [] }

module _ (uni : Unicode) where
  -- One round of `for edge in readable`, at a label taken from the frontier.
  unfoldable pub visit : Str → ℕ → ℕ × GraphEdge → Traversal → Traversal
  unfolding note_edge note_label far_end
  visit label depth (i, e) t =
      if is_accepted e.status
      then elim (far_end uni label e) [
        | none ↦ t
        | some next ↦ note_label (fold_label uni next) (depth + 1) (note_edge i e t)
      ]
      else t

  unfoldable pub visit_all : Str → ℕ → List (ℕ × GraphEdge) → Traversal → Traversal
  unfolding visit
  visit_all label depth [] t = t
  visit_all label depth (e ∷ es) t = visit_all label depth es (visit label depth e t)

  -- The body of `while frontier`.
  unfoldable pub walk_step : ℕ → List (ℕ × GraphEdge) → Str → ℕ → Traversal → Traversal
  unfolding visit_all
  walk_step max_depth edges label depth t =
      if leb max_depth depth then t else visit_all label depth edges t

  unfoldable pub walk_loop : ℕ → ℕ → List (ℕ × GraphEdge) → List (Str × ℕ) → Traversal → Traversal
  unfolding walk_step
  walk_loop zero max_depth edges frontier t = t
  walk_loop (suc fuel) max_depth edges [] t = t
  walk_loop (suc fuel) max_depth edges ((label, depth) ∷ rest) t =
      let t' = walk_step max_depth edges label depth (record t { frontier = rest }) in
      walk_loop fuel max_depth edges t'.frontier t'

  -- The start is visited, and waits at depth 0.
  unfoldable pub walk_start : Str → Traversal
  walk_start start_label = record {
    result = [];
    seen_edges = [];
    visited = fold_label uni start_label ∷ [];
    frontier = (fold_label uni start_label, 0) ∷ [];
  }

  -- A label enters the frontier once, so that the ends of the edges bound the rounds.
  unfoldable pub walk_run : Str → ℕ → List GraphEdge → Traversal
  unfolding walk_loop walk_start
  walk_run start_label max_depth edges =
      let t = walk_start start_label in
      walk_loop (2 * length edges + 2) max_depth (numbered 0 edges) t.frontier t

  unfoldable pub walk : Str → Str → Str → ℕ → Graph → Result (List GraphEdge)
  unfolding require_scope readable walk_run
  walk scope start_label audience max_depth g = do
    require_scope scope
    ok (walk_run start_label max_depth (readable scope audience g)).result
