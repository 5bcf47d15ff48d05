-- ===== src/Tests/Upkeep.antt =====
-- The theorems of GraphContext and Maintenance at the family, and at its nodes without the edges.
use cogno_engram.Prelude.{
  ℕ, refl, All, suc, true, false, Option, some, ◌≤◌, ◌<◌, ◌≡◌, ◌⊎◌, none, List, [], ◌∷◌, map, take,
  length,
}
use cogno_engram.Text.{Str, codes, str_eq, strip, starts_with, is_blank}
use cogno_engram.Errors.{Result, ok}
use cogno_engram.Types.{GraphNode, audience_staff, sanitize_audience}
use cogno_engram.Graph.Read.{list_nodes}
use cogno_engram.Chunking.Passage.{join}
use cogno_engram.GraphContext.{edge_line, accepted_edges, format_graph_context}
use cogno_engram.GraphContext.Budget.{format_graph_context-fits}
use cogno_engram.Maintenance.{prune_orphan_nodes, classify_edge_audience}
use cogno_engram.Maintenance.Orphans.{is_attached, without_orphans, prune_orphan_nodes-removes}
use cogno_engram.Maintenance.Classified.{DiffersInAudience, classify_edge_audience_dry}
use cogno_engram.Graph.State.{Graph, has_node, at_key}
use cogno_engram.Graph.Write.{is_edge}
use cogno_engram.Graph.Valid.{IsValid}
use cogno_engram.Folding.{fold_label}
use cogno_engram.Tests.Samples.{plain, acme, allowed, family, family-IsValid, jose_ana, ana_rex}

format_graph_context-fits_example :
    ((accepted_edges (jose_ana ∷ ana_rex ∷ []) ≡ [])
      × (format_graph_context 60 (codes "[KG]") (jose_ana ∷ ana_rex ∷ []) ≡ []))
    ⊎ ((k : ℕ) × (format_graph_context 60 (codes "[KG]") (jose_ana ∷ ana_rex ∷ [])
          ≡ join
              (10 ∷ [])
              (codes "[KG]" ∷ map edge_line (take k (accepted_edges (jose_ana ∷ ana_rex ∷ [])))))
        × ((length (format_graph_context 60 (codes "[KG]") (jose_ana ∷ ana_rex ∷ []))
              ≡ length (codes "[KG]"))
            ⊎ (length (format_graph_context 60 (codes "[KG]") (jose_ana ∷ ana_rex ∷ [])) ≤ 60))
        × ((length (accepted_edges (jose_ana ∷ ana_rex ∷ [])) ≤ k)
            ⊎ (60
                < length (
                    join (10 ∷ []) (
                      codes "[KG]"
                      ∷ map edge_line (take (suc k) (accepted_edges (jose_ana ∷ ana_rex ∷ []))))))))
format_graph_context-fits_example =
    format_graph_context-fits 60 (codes "[KG]") (jose_ana ∷ ana_rex ∷ [])

-- Nobody is related to Rex.
abbrev lonely : Graph
lonely = record family { edges = jose_ana ∷ [] }

lonely-IsValid : IsValid plain lonely
unfolding fold_label str_eq has_node at_key is_edge sanitize_audience strip starts_with is_blank
lonely-IsValid = record {
  keyed = family-IsValid.keyed;
  numbered = family-IsValid.numbered;
  distinct = family-IsValid.distinct;
  attached = ((refl, refl), tt);
  canonical = (refl, tt);
  unique = (tt, tt);
}

prune_orphan_nodes-removes_example :
    (n : ℕ) × (nodes : List GraphNode) × (list_nodes plain acme audience_staff none 10 lonely
      ≡ ok nodes)
    × (prune_orphan_nodes plain acme 10 lonely ≡ ok (without_orphans plain acme nodes lonely, n))
    × ((10 < length lonely.nodes)
        ⊎ All
            (λ e. str_eq e.scope acme ≡ true → is_attached plain acme lonely.edges e.key ≡ true)
            (without_orphans plain acme nodes lonely).nodes)
prune_orphan_nodes-removes_example =
    prune_orphan_nodes-removes plain acme 10 lonely allowed lonely-IsValid

-- Every session is one of the contact 7.
abbrev known : Option (Str → Result (Option Str))
known = some (λ session. ok (some (codes "7")))

classify_edge_audience_dry_example :
    ((classify_edge_audience plain known acme true family).0 ≡ family)
    × ((classify_edge_audience plain known acme false family).1
        ≡ (classify_edge_audience plain known acme true family).1)
    × DiffersInAudience family (classify_edge_audience plain known acme false family).0
classify_edge_audience_dry_example = classify_edge_audience_dry plain known acme family allowed
