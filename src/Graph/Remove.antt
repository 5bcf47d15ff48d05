-- ===== src/Graph/Remove.antt =====
-- in_memory.py: `delete_node`, `delete_edges_by_session` and `purge_scope` of `InMemoryGraph`.
use cogno_engram.Prelude.{ℕ, ◌+◌, ◌-◌, Bool, true, false, not, ◌&&◌, filter, length, if◌then◌else◌}
use cogno_engram.Text.{Str, str_eq}
use cogno_engram.Errors.{Result, ok, ◌>>◌}
use cogno_engram.Folding.{Unicode, fold_label}
use cogno_engram.Graph.State.{Graph, require_scope, require_session, at_key, has_node, touches}

module _ (uni : Unicode) where
  -- The node goes, and every edge of the scope at its folded label.
  unfoldable pub delete_node : Str → Str → Graph → Result (Graph × Bool)
  unfolding require_scope has_node at_key touches
  delete_node scope label g = do
    require_scope scope
    let key = fold_label uni label
    ok (
        if has_node scope key g
        then (
          record g {
            nodes = filter (λ e. not (at_key scope key e)) g.nodes;
            edges = filter (λ e. not (str_eq e.scope scope && touches uni key e)) g.edges;
          },
          true,
        )
        else (g, false))

unfoldable pub delete_edges_by_session : Str → Str → Graph → Result (Graph × ℕ)
unfolding require_scope require_session
delete_edges_by_session scope session_id g = do
  require_scope scope
  require_session session_id
  let kept = filter (λ e. not (str_eq e.scope scope && str_eq e.source_session session_id)) g.edges
  ok (record g { edges = kept }, length g.edges - length kept)

unfoldable pub purge_scope : Str → Graph → Result (Graph × ℕ)
unfolding require_scope
purge_scope scope g = do
  require_scope scope
  let edges = filter (λ e. not (str_eq e.scope scope)) g.edges
  let nodes = filter (λ e. not (str_eq e.scope scope)) g.nodes
  ok (
    record g { nodes = nodes; edges = edges },
    (length g.edges - length edges) + (length g.nodes - length nodes),
  )
