-- ===== src/Graph/Read.antt =====
-- in_memory.py: the reads of `InMemoryGraph`, each through the audience filter. A limit is a natural
-- number: the callers pass no negative one.
use cogno_engram.Prelude.{
  ℕ, Bool, true, ◌&&◌, Option, none, some, List, [], ◌∷◌, map, if◌then◌else◌, filter, any, take,
  length, leb, ltb, sort_by,
}
use cogno_engram.Text.{Str, str_eq, strip}
use cogno_engram.Errors.{Result, ok, ◌>>=◌, ◌>>◌}
use cogno_engram.Folding.{Unicode, fold_label}
use cogno_engram.Types.{GraphNode, GraphEdge, is_accepted, is_proposed}
use cogno_engram.Graph.State.{
  Entry, Graph, require_scope, get_node, contains, readable, touches, visible_labels,
}

-- `node_type is None or n.node_type == node_type`
abbrev pub of_type : Option Str → GraphNode → Bool
of_type none n = true
of_type (some t) n = str_eq n.node_type t

pub record NodeContext : Type 0 where
  pub node : GraphNode
  pub edges : List GraphEdge
  pub neighbors : List GraphNode

abbrev pub id_or_zero : GraphNode → ℕ
id_or_zero n = elim n.id [ none ↦ 0 | some i ↦ i ]

-- `pending_edges`: oldest first.
unfoldable pub pending_edges : Str → Str → ℕ → Graph → Result (List GraphEdge)
unfolding require_scope readable
pending_edges scope audience limit g = do
  require_scope scope
  ok (take limit (filter (λ e. is_proposed e.status) (readable scope audience g)))

module _ (uni : Unicode) where
  unfoldable pub find_node : Str → Str → Str → Graph → Result (Option GraphNode)
  unfolding require_scope visible_labels get_node
  find_node scope label audience g = do
    require_scope scope
    ok (
        if contains (fold_label uni label) (visible_labels uni scope audience g)
        then get_node scope (fold_label uni label) g
        else none)

  -- The entries of a scope that a reader sees, in the order of insertion.
  unfoldable pub visible_entries : Str → Str → Graph → List Entry
  unfolding visible_labels
  visible_entries scope audience g =
      let visible = visible_labels uni scope audience g in
      filter (λ e. str_eq e.scope scope && contains e.key visible) g.nodes

  unfoldable pub list_nodes : Str → Str → Option Str → ℕ → Graph → Result (List GraphNode)
  unfolding require_scope visible_entries
  list_nodes scope audience node_type limit g = do
    require_scope scope
    ok (
        take limit
          (filter (of_type node_type) (map (λ e. e.node) (visible_entries scope audience g))))

  -- `want is None or fold_label((n.label or "").strip()) == want`
  unfoldable pub carries : Option Str → GraphNode → Bool
  carries none n = true
  carries (some label) n = str_eq (fold_label uni (strip n.label)) (fold_label uni (strip label))

  unfoldable pub count_nodes : Str → Str → Option Str → Option Str → Graph → Result ℕ
  unfolding require_scope visible_entries carries
  count_nodes scope audience label node_type g = do
    require_scope scope
    ok (
        length (
          filter (λ n. carries label n && of_type node_type n)
            (map (λ e. e.node) (visible_entries scope audience g))))

  -- Nodes in the order of their ids, after a cursor.
  unfoldable pub scan_nodes : Str → Str → Option ℕ → ℕ → Graph → Result (List GraphNode)
  unfolding require_scope visible_entries
  scan_nodes scope audience after_id limit g = do
    require_scope scope
    let nodes =
        sort_by (λ a b. leb (id_or_zero a) (id_or_zero b))
          (map (λ e. e.node) (visible_entries scope audience g))
    ok (
        take limit (elim after_id [
          | none ↦ nodes
          | some cursor ↦ filter (λ n. ltb cursor (id_or_zero n)) nodes
        ]))

  -- The far end of an accepted edge at a folded label.
  unfoldable pub far_end : Str → GraphEdge → Option Str
  far_end key e =
      if str_eq (fold_label uni e.source) key
      then some e.target
      else if str_eq (fold_label uni e.target) key
      then some e.source
      else none

  unfoldable pub far_labels : Str → List GraphEdge → List Str
  unfolding far_end
  far_labels key [] = []
  far_labels key (e ∷ es) =
      let rest = far_labels key es in
      if is_accepted e.status
      then elim (far_end key e) [ none ↦ rest | some far ↦ fold_label uni far ∷ rest ]
      else rest

  unfoldable pub neighbors : Str → Str → Str → Graph → Result (List GraphNode)
  unfolding require_scope far_labels readable
  neighbors scope label audience g = do
    require_scope scope
    let labels = far_labels (fold_label uni label) (readable scope audience g)
    ok (map (λ e. e.node) (filter (λ e. str_eq e.scope scope && contains e.key labels) g.nodes))

  unfoldable pub get_node_context : Str → Str → Str → Graph → Result (Option NodeContext)
  unfolding require_scope get_node visible_labels touches neighbors
  get_node_context scope label audience g = do
    require_scope scope
    elim (get_node scope (fold_label uni label) g) [
      | none ↦ ok none
      | some node ↦
          if contains (fold_label uni label) (visible_labels uni scope audience g)
          then (do
            near ← neighbors scope label audience g
            ok (
                some (record {
                  node = node;
                  edges =
                      filter (λ e. is_accepted e.status && touches uni (fold_label uni label) e)
                        (readable scope audience g);
                  neighbors = near;
                })))
          else ok none
    ]

  -- Every edge, any audience, any status.
  unfoldable pub has_edges : Str → Str → Graph → Result Bool
  unfolding require_scope touches
  has_edges scope label g = do
    require_scope scope
    ok (any (λ e. str_eq e.scope scope && touches uni (fold_label uni label) e) g.edges)
