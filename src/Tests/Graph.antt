-- ===== src/Tests/Graph.antt =====
-- The theorems on `InMemoryGraph` at the sample family.
use cogno_engram.Prelude.{
  not, ℕ, ◌+◌, ◌≡◌, refl, ◌⊎◌, true, false, none, some, List, [], filter, any, length, ◌&&◌, All,
}
use cogno_engram.Text.{Str, codes, str_eq, is_blank, strip}
use cogno_engram.Errors.{ok, raise, blank_session}
use cogno_engram.Folding.{fold_label}
use cogno_engram.Types.{GraphNode, GraphEdge, concept, proposed, sanitize_audience}
use cogno_engram.Graph.State.{get_node, at_key, touches, Graph, has_node, readable}
use cogno_engram.Graph.Write.{upsert_node, upsert_edge, is_edge}
use cogno_engram.Graph.Read.{has_edges}
use cogno_engram.Graph.Remove.{delete_node, delete_edges_by_session, purge_scope}
use cogno_engram.Graph.Walk.{walk, walk_run}
use cogno_engram.Graph.Walk.Ends.{walk_run-ends}
use cogno_engram.Graph.Walk.Sound.{IsReadable, IsReached, walk_sound}
use cogno_engram.Graph.Valid.{IsValid, HasEnds}
use cogno_engram.Graph.Valid.Nodes.{Written, upsert_node-IsValid}
use cogno_engram.Graph.Valid.Edges.{upsert_edge-IsValid}
use cogno_engram.Graph.Valid.Removal.{
  of_scope, entries_of_scope, delete_node-IsValid, purge_scope-IsValid,
  delete_edges_by_session-IsValid,
}
use cogno_engram.Graph.Valid.Keys.{stored, Stored}
use cogno_engram.Tests.Samples.{plain, acme, family, family_edge, allowed, family-IsValid}

abbrev jose : GraphNode
jose = record {
  scope = acme;
  label = codes "JOSE";
  node_type = concept;
  attributes = [];
  embedding = none;
  id = none;
  created_at = none;
  updated_at = none;
}

upsert_node-IsValid_example :
    (g' : Graph) × (i : ℕ) × (upsert_node plain 9 jose family ≡ ok (g', i))
    × IsValid plain g'
    × (has_node acme (fold_label plain (codes "JOSE")) g' ≡ true)
    × (g'.edges ≡ family.edges)
    × ((scope k : Str) → has_node scope k family ≡ true → has_node scope k g' ≡ true)
    × (new : GraphNode) × (get_node acme (fold_label plain (codes "JOSE")) g' ≡ some new)
    × Written plain 9 jose family new
    × (filter (λ e. not (at_key acme (fold_label plain (codes "JOSE")) e)) g'.nodes
        ≡ filter (λ e. not (at_key acme (fold_label plain (codes "JOSE")) e)) family.nodes)
upsert_node-IsValid_example = upsert_node-IsValid plain 9 jose family allowed family-IsValid

abbrev ana_bia : GraphEdge
ana_bia = family_edge (codes "Ana") (codes "Bia")

upsert_edge-IsValid_example :
    (g' : Graph) × (upsert_edge plain 9 ana_bia family ≡ ok g')
    × IsValid plain g'
    × HasEnds plain g' ana_bia
    × (any (is_edge plain acme ana_bia.source ana_bia.target ana_bia.relation) g'.edges ≡ true)
    × (new : GraphEdge) × (stored plain ana_bia g' ≡ some new)
    × Stored plain 9 ana_bia family new
    × (filter
          (λ e. not (is_edge plain acme ana_bia.source ana_bia.target ana_bia.relation e))
          g'.edges
        ≡ filter
            (λ e. not (is_edge plain acme ana_bia.source ana_bia.target ana_bia.relation e))
            family.edges)
unfolding sanitize_audience strip str_eq
upsert_edge-IsValid_example = upsert_edge-IsValid plain 9 ana_bia family allowed refl family-IsValid

-- A proposal for the accepted edge from José to Ana, with the accent left out.
abbrev proposal : GraphEdge
proposal = record (family_edge (codes "jose") (codes "ANA")) { status = proposed }

delete_node-IsValid_example :
    (g' : Graph) × (delete_node plain acme (codes "Jose") family
      ≡ ok (g', has_node acme (fold_label plain (codes "Jose")) family))
    × IsValid plain g'
    × (has_node acme (fold_label plain (codes "Jose")) g' ≡ false)
    × (has_edges plain acme (codes "Jose") g' ≡ ok false)
    × (g'.nodes ≡ filter (λ e. not (at_key acme (fold_label plain (codes "Jose")) e)) family.nodes)
    × (g'.edges
        ≡ filter
            (λ e. not (str_eq e.scope acme && touches plain (fold_label plain (codes "Jose")) e))
            family.edges)
    × (g'.next_id ≡ family.next_id)
    × ((has_node acme (fold_label plain (codes "Jose")) family ≡ true) ⊎ (g' ≡ family))
delete_node-IsValid_example =
    delete_node-IsValid plain acme (codes "Jose") family allowed family-IsValid

purge_scope-IsValid_example :
    (g' : Graph) × (purge_scope acme family
      ≡ ok (g', length (of_scope acme family.edges) + length (entries_of_scope acme family.nodes)))
    × IsValid plain g'
    × (of_scope acme g'.edges ≡ [])
    × (entries_of_scope acme g'.nodes ≡ [])
    × ((other : Str)
        → str_eq other acme ≡ false
        → (of_scope other g'.edges ≡ of_scope other family.edges)
          × (entries_of_scope other g'.nodes ≡ entries_of_scope other family.nodes))
purge_scope-IsValid_example = purge_scope-IsValid plain acme family allowed family-IsValid

delete_edges_by_session-IsValid_example :
    ((is_blank (codes "s1") ≡ true)
      × (delete_edges_by_session acme (codes "s1") family ≡ raise blank_session))
    ⊎ ((is_blank (codes "s1") ≡ false)
        × ((g' : Graph) × (delete_edges_by_session acme (codes "s1") family
              ≡ ok (
                g',
                length (
                    filter
                      (λ e. str_eq e.scope acme && str_eq e.source_session (codes "s1"))
                      family.edges),
              ))
            × IsValid plain g'
            × (g'.nodes ≡ family.nodes)
            × (g'.edges
                ≡ filter
                    (λ e. not (str_eq e.scope acme && str_eq e.source_session (codes "s1")))
                    family.edges)
            × (filter (λ e. str_eq e.scope acme && str_eq e.source_session (codes "s1")) g'.edges
                ≡ [])
            × (filter (λ e. is_blank e.source_session) g'.edges
                ≡ filter (λ e. is_blank e.source_session) family.edges)))
delete_edges_by_session-IsValid_example =
    delete_edges_by_session-IsValid plain acme (codes "s1") family allowed family-IsValid

walk_run-ends_example : (walk_run plain (codes "José") 2 family.edges).frontier ≡ []
walk_run-ends_example = walk_run-ends plain (codes "José") 2 family.edges

walk_sound_example :
    (es : List GraphEdge) × (walk plain acme (codes "ana") (codes "identity:7") 2 family ≡ ok es)
    × All
        (λ e.
          IsReadable acme (codes "identity:7") e
          × IsReached plain (codes "ana") 2 (readable acme (codes "identity:7") family) e)
        es
walk_sound_example = walk_sound plain acme (codes "ana") (codes "identity:7") 2 family allowed
