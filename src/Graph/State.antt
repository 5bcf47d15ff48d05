-- ===== src/Graph/State.antt =====
-- in_memory.py: the state of `InMemoryGraph`, the guards of its methods and what a reader sees.
-- A stored object is a value: a read hands out a copy, as `_detached` does for an edge.
use cogno_engram.Prelude.{
  ℕ, Bool, ◌&&◌, ◌||◌, Option, none, some, List, [], ◌∷◌, map, if◌then◌else◌, filter, any, find?,
}
use cogno_engram.Text.{Str, str_eq, is_empty, is_blank}
use cogno_engram.Errors.{Result, refuse_if, blank_scope, blank_session}
use cogno_engram.Folding.{Unicode, fold_label}
use cogno_engram.Types.{GraphNode, GraphEdge, audience_staff, audience_can_read}

-- One entry of `_nodes`: the key `(scope, fold_label(label))` and the node.
pub record Entry : Type 0 where
  pub scope : Str
  pub key : Str
  pub node : GraphNode

pub record Graph : Type 0 where
  pub nodes : List Entry
  pub edges : List GraphEdge
  pub next_id : ℕ

-- `InMemoryGraph()`
abbrev pub empty_graph : Graph
empty_graph = record { nodes = []; edges = []; next_id = 1 }

unfoldable pub require_scope : Str → Result (Unit {0})
require_scope scope = refuse_if (is_empty scope || is_blank scope) blank_scope

unfoldable pub require_session : Str → Result (Unit {0})
require_session session_id = refuse_if (is_blank session_id) blank_session

unfoldable pub at_key : Str → Str → Entry → Bool
at_key scope key e = str_eq e.scope scope && str_eq e.key key

-- `self._nodes.get((scope, key))`
unfoldable pub get_node : Str → Str → Graph → Option GraphNode
unfolding at_key
get_node scope key g = elim (find? (at_key scope key) g.nodes) [
  | none ↦ none
  | some e ↦ some e.node
]

-- `(scope, key) in self._nodes`
unfoldable pub has_node : Str → Str → Graph → Bool
unfolding at_key
has_node scope key g = any (at_key scope key) g.nodes

abbrev pub contains : Str → List Str → Bool
contains a = any (λ b. str_eq b a)

-- `_readable`
unfoldable pub can_see : Str → Str → GraphEdge → Bool
can_see scope audience e = str_eq e.scope scope && audience_can_read audience e.audience

unfoldable pub readable : Str → Str → Graph → List GraphEdge
unfolding can_see
readable scope audience g = filter (can_see scope audience) g.edges

module _ (uni : Unicode) where
  -- The folded labels at the two ends of every edge of the list.
  unfoldable pub endpoints : List GraphEdge → List Str
  endpoints [] = []
  endpoints (e ∷ es) = fold_label uni e.source ∷ fold_label uni e.target ∷ endpoints es

  -- `fold_label(label) in (fold_label(e.source), fold_label(e.target))`, for a folded label.
  unfoldable pub touches : Str → GraphEdge → Bool
  touches key e = str_eq key (fold_label uni e.source) || str_eq key (fold_label uni e.target)

  -- `_visible_labels`: staff sees every node of the scope, and any other reader the ends of the
  -- edges that it may read.
  unfoldable pub visible_labels : Str → Str → Graph → List Str
  unfolding readable endpoints
  visible_labels scope audience g =
      if str_eq audience audience_staff
      then map (λ e. e.key) (filter (λ e. str_eq e.scope scope) g.nodes)
      else endpoints (readable scope audience g)
