-- ===== src/Maintenance.antt =====
-- maintenance.py, over the in-memory adapters.
pub mod Listed
pub mod Orphans
pub mod Classified
use cogno_engram.Prelude.{
  ℕ, ◌+◌, ◌-◌, Bool, true, false, not, ◌&&◌, ◌||◌, Option, none, some, List, [], ◌∷◌, ◌++◌, any,
  if◌then◌else◌,
}
use cogno_engram.Text.{Str, str_eq, strip, is_empty, is_blank}
use cogno_engram.Errors.{Result, ok, raise, ◌>>=◌}
use cogno_engram.Folding.{Unicode}
use cogno_engram.Types.{
  Date, GraphNode, GraphEdge, audience_staff, audience_tenant, audience_unclassified, audience_for,
  sanitize_audience,
}
use cogno_engram.Graph.State.{Graph}
use cogno_engram.Graph.Read.{list_nodes, has_edges, pending_edges}
use cogno_engram.Graph.Walk.{walk}
use cogno_engram.Graph.Write.{set_edge_audience}
use cogno_engram.Graph.Remove.{delete_node}
use cogno_engram.Store.State.{Store}
use cogno_engram.Store.Memories.{delete_memories}

-- The counts of the edges that are classified, by the outcome.
pub record Counts : Type 0 where
  pub tenant : ℕ
  pub identity : ℕ
  pub unresolved : ℕ

-- `now` where it was given, and the clock otherwise; an age above it reaches back to the beginning.
unfoldable pub prune_memories :
    Date → Str → Date → Option ℕ → Option Str → Option Date → Bool → Store → Result (Store × ℕ)
unfolding delete_memories
prune_memories clock scope older_than max_confidence category now dry_run st =
    let cutoff = (elim now [ none ↦ clock | some t ↦ t ]) - older_than in
    delete_memories scope (some cutoff) category max_confidence dry_run st

module _ (uni : Unicode) where
  unfoldable pub prune_loop : Str → List GraphNode → ℕ → Graph → Result (Graph × ℕ)
  unfolding has_edges delete_node
  prune_loop scope [] deleted g = ok (g, deleted)
  prune_loop scope (n ∷ nodes) deleted g = has_edges uni scope n.label g >>= λ attached.
      elim attached [
        | true ↦ prune_loop scope nodes deleted g
        | false ↦ delete_node uni scope n.label g >>= λ r.
            prune_loop scope nodes (if r.1 then deleted + 1 else deleted) r.0
      ]

  unfoldable pub prune_orphan_nodes : Str → ℕ → Graph → Result (Graph × ℕ)
  unfolding list_nodes prune_loop
  prune_orphan_nodes scope limit g = do
    nodes ← list_nodes uni scope audience_staff none limit g
    prune_loop scope nodes 0 g

  -- The proposals, and what a walk of one step from each node reaches.
  unfoldable pub walks_from : Str → List GraphNode → Graph → Result (List GraphEdge)
  unfolding walk
  walks_from scope [] g = ok []
  walks_from scope (n ∷ nodes) g = walk uni scope n.label audience_staff 1 g >>= λ es.
      walks_from scope nodes g >>= λ rest. ok (es ++ rest)

  unfoldable pub edges_to_classify : Str → Graph → Result (List GraphEdge)
  unfolding pending_edges list_nodes walks_from
  edges_to_classify scope g = pending_edges scope audience_staff 100_000 g >>= λ pending.
      list_nodes uni scope audience_staff none 100_000 g >>= λ nodes.
      walks_from scope nodes g >>= λ walked. ok (pending ++ walked)

  -- What is written, and what is counted for it: what the host knows of the session may be missing.
  unfoldable pub want_of : Option (Str → Result (Option Str)) → GraphEdge → Result Str
  unfolding is_blank strip audience_for
  want_of resolver e = if is_blank e.source_session then ok audience_tenant else (elim resolver [
    | none ↦ ok audience_unclassified
    | some identity_of_session ↦
        identity_of_session (strip e.source_session) >>= λ who. ok (audience_for who)
  ])

  unfoldable pub counted : GraphEdge → Str → Counts → Counts
  unfolding is_blank
  counted e want c =
      if is_blank e.source_session
      then record c { tenant = c.tenant + 1 }
      else if is_empty want
      then record c { unresolved = c.unresolved + 1 }
      else record c { identity = c.identity + 1 }

  unfoldable pub write_audience : Str → Bool → GraphEdge → Str → Graph → Result Graph
  unfolding set_edge_audience
  write_audience scope dry_run e want g =
      if is_empty want || dry_run
      then ok g
      else (set_edge_audience uni scope e.source e.target e.relation (some want) g >>= λ r. ok r.0)

  -- An edge that was seen, or has an audience, is passed over.
  abbrev pub is_settled : List (Str × Str × Str) → GraphEdge → Bool
  is_settled seen e =
      any (λ k. str_eq k.0 e.source && str_eq k.1 e.target && str_eq k.2 e.relation) seen
      || not (is_empty (sanitize_audience (some e.audience)))

  -- The graph that is left, with the counts or what was raised.
  unfoldable pub classify_loop :
      Option (Str → Result (Option Str))
      → Str
      → Bool
      → List GraphEdge
      → List (Str × Str × Str)
      → Counts
      → Graph
      → Graph × Result Counts
  unfolding want_of counted write_audience sanitize_audience
  classify_loop resolver scope dry_run [] seen counts g = (g, ok counts)
  classify_loop resolver scope dry_run (e ∷ es) seen counts g = elim (is_settled seen e) [
    | true ↦ classify_loop resolver scope dry_run es seen counts g
    | false ↦ elim (want_of resolver e) [
      | raise x ↦ (g, raise x)
      | ok want ↦ elim (write_audience scope dry_run e want g) [
        | raise x ↦ (g, raise x)
        | ok written ↦
            classify_loop resolver scope dry_run es ((e.source, e.target, e.relation) ∷ seen)
              (counted e want counts) written
      ]
    ]
  ]

  unfoldable pub classify_edge_audience :
      Option (Str → Result (Option Str)) → Str → Bool → Graph → Graph × Result Counts
  unfolding edges_to_classify classify_loop
  classify_edge_audience resolver scope dry_run g = elim (edges_to_classify scope g) [
    | raise x ↦ (g, raise x)
    | ok edges ↦
        classify_loop resolver scope dry_run edges []
          (record { tenant = 0; identity = 0; unresolved = 0 }) g
  ]
