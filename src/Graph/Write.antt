-- ===== src/Graph/Write.antt =====
-- in_memory.py: `upsert_node`, `upsert_edge`, `set_edge_status` and `set_edge_audience`. The clock
-- is an argument.
use cogno_engram.Prelude.{
  ℕ, ◌+◌, Bool, not, ◌&&◌, Option, none, some, [], ◌∷◌, ◌++◌, if◌then◌else◌, any, update_first,
}
use cogno_engram.Text.{Str, str_eq, is_empty}
use cogno_engram.Errors.{Result, ok, raise, ◌>>=◌, ◌>>◌, assertion_failed}
use cogno_engram.Folding.{Unicode, fold_label, has_diacritics}
use cogno_engram.Types.{
  Date, merge, GraphNode, GraphEdge, graph_node, concept, is_accepted, is_proposed,
  require_edge_status, sanitize_audience,
}
use cogno_engram.Graph.State.{Entry, Graph, require_scope, at_key, get_node, has_node}

-- `a or b`, for an optional value.
abbrev pub or_else {ℓ} : {A : Type ℓ} → Option A → A → Option A
or_else none b = some b
or_else (some a) b = some a

-- The new value where there is one.
abbrev pub replace_if_given {ℓ} : {A : Type ℓ} → Option A → Option A → Option A
replace_if_given old none = old
replace_if_given old (some a) = some a

module _ (uni : Unicode) where
  -- The spelling with diacritics rises and never falls.
  unfoldable pub better_label : Str → Str → Str
  better_label new old = if has_diacritics uni new && not (has_diacritics uni old) then new else old

  -- What `upsert_node` writes on the node that it finds.
  unfoldable pub revise_node : Date → GraphNode → GraphNode → GraphNode
  unfolding better_label
  revise_node now node existing = record existing {
    label = better_label node.label existing.label;
    attributes = merge existing.attributes node.attributes;
    embedding = replace_if_given existing.embedding node.embedding;
    updated_at = some now;
  }

  -- The entry of a new node, under its own key.
  unfoldable pub new_entry : Date → GraphNode → ℕ → Entry
  new_entry now node id = record {
    scope = node.scope;
    key = fold_label uni node.label;
    node = record node {
      id = some id;
      created_at = or_else node.created_at now;
      updated_at = or_else node.updated_at now;
    };
  }

  unfoldable pub insert_node : Date → GraphNode → Graph → Graph
  unfolding new_entry
  insert_node now node g = record g {
    nodes = g.nodes ++ new_entry now node g.next_id ∷ [];
    next_id = g.next_id + 1;
  }

  unfoldable pub upsert_node : Date → GraphNode → Graph → Result (Graph × ℕ)
  unfolding require_scope get_node revise_node insert_node
  upsert_node now node g = do
    require_scope node.scope
    elim (get_node node.scope (fold_label uni node.label) g) [
      | none ↦ ok (insert_node now node g, g.next_id)
      | some existing ↦ elim existing.id [
        | none ↦ raise assertion_failed
        | some id ↦ ok (
          record g {
            nodes =
                update_first (at_key node.scope (fold_label uni node.label))
                  (λ e. record e { node = revise_node now node e.node }) g.nodes;
          },
          id,
        )
      ]
    ]

  -- An end of an edge is created when it is missing.
  unfoldable pub ensure_node : Date → Str → Str → Graph → Result Graph
  unfolding has_node upsert_node
  ensure_node now scope label g =
      if has_node scope (fold_label uni label) g
      then ok g
      else (upsert_node now (graph_node uni scope label concept) g >>= λ r. ok r.0)

  -- The key of an edge: its scope, its folded ends and its relation.
  unfoldable pub is_edge : Str → Str → Str → Str → GraphEdge → Bool
  is_edge scope source target relation e =
      str_eq e.scope scope
      && str_eq (fold_label uni e.source) (fold_label uni source)
      && str_eq (fold_label uni e.target) (fold_label uni target)
      && str_eq e.relation relation

  -- What `upsert_edge` writes on the edge that it finds: a proposal changes nothing of an accepted
  -- edge, and only a proposed edge takes the new status.
  unfoldable pub revise_edge : GraphEdge → GraphEdge → GraphEdge
  revise_edge edge existing =
      if is_accepted existing.status && is_proposed edge.status then existing else record existing {
        confidence = edge.confidence;
        source_session = edge.source_session;
        audience =
            if is_empty existing.audience
            then sanitize_audience (some edge.audience)
            else existing.audience;
        attributes = merge existing.attributes edge.attributes;
        status = if is_proposed existing.status then edge.status else existing.status;
      }

  unfoldable pub put_edge : Date → GraphEdge → Graph → Graph
  unfolding is_edge revise_edge
  put_edge now edge g =
      let same = is_edge edge.scope edge.source edge.target edge.relation in
      if any same g.edges
      then record g { edges = update_first same (revise_edge edge) g.edges }
      else record g {
        edges = g.edges ++ record edge { created_at = or_else edge.created_at now } ∷ [];
      }

  unfoldable pub upsert_edge : Date → GraphEdge → Graph → Result Graph
  unfolding require_scope ensure_node put_edge
  upsert_edge now edge g = do
    require_scope edge.scope
    g₁ ← ensure_node now edge.scope edge.source g
    g₂ ← ensure_node now edge.scope edge.target g₁
    ok (put_edge now edge g₂)

  unfoldable pub set_edge_status :
      Str → Str → Str → Str → Option Str → Graph → Result (Graph × Bool)
  unfolding require_scope is_edge
  set_edge_status scope source target relation status g = do
    require_scope scope
    want ← require_edge_status uni status
    ok (
      record g {
        edges =
            update_first (is_edge scope source target relation) (λ e. record e { status = want })
              g.edges;
      },
      any (is_edge scope source target relation) g.edges,
    )

  unfoldable pub set_edge_audience :
      Str → Str → Str → Str → Option Str → Graph → Result (Graph × Bool)
  unfolding require_scope is_edge
  set_edge_audience scope source target relation audience g = do
    require_scope scope
    ok (
      record g {
        edges =
            update_first (is_edge scope source target relation)
              (λ e. record e { audience = sanitize_audience audience }) g.edges;
      },
      any (is_edge scope source target relation) g.edges,
    )
