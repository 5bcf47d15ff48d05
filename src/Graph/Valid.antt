-- ===== src/Graph/Valid.antt =====
-- in_memory.py: what is true of every `InMemoryGraph` that its own methods built.
pub mod Nodes
pub mod Keys
pub mod Edges
pub mod Removal
use cogno_engram.Prelude.{ℕ, ◌<◌, ◌≡◌, ◌≢◌, true, false, Option, some, All, Pairwise}
use cogno_engram.Folding.{Unicode, fold_label}
use cogno_engram.Types.{GraphEdge, sanitize_audience}
use cogno_engram.Graph.State.{Entry, Graph, at_key, has_node}
use cogno_engram.Graph.Write.{is_edge}

abbrev pub HasId : ℕ → Entry → Type 0
HasId next e = (i : ℕ) × (e.node.id ≡ some i) × (i < next)

abbrev pub IsCanonical : GraphEdge → Type 0
IsCanonical e = sanitize_audience (some e.audience) ≡ e.audience

module _ (uni : Unicode) where
  abbrev pub HasKey : Entry → Type 0
  HasKey e = (e.node.scope ≡ e.scope) × (fold_label uni e.node.label ≡ e.key)

  abbrev pub Differ : Entry → Entry → Type 0
  Differ a b = (at_key a.scope a.key b ≡ false) × (a.node.id ≢ b.node.id)

  -- Both ends of the edge are nodes of its scope.
  abbrev pub HasEnds : Graph → GraphEdge → Type 0
  HasEnds g e =
      (has_node e.scope (fold_label uni e.source) g ≡ true)
      × (has_node e.scope (fold_label uni e.target) g ≡ true)

  abbrev pub DifferEdges : GraphEdge → GraphEdge → Type 0
  DifferEdges a b = is_edge uni a.scope a.source a.target a.relation b ≡ false

  -- A node stands under its own key and carries an id below the next one; no two share a key or an
  -- id; every edge has its two nodes and a canonical audience; no two edges share their four keys.
  pub record IsValid (g : Graph) : Type 0 where
    pub keyed : All HasKey g.nodes
    pub numbered : All (HasId g.next_id) g.nodes
    pub distinct : Pairwise Differ g.nodes
    pub attached : All (HasEnds g) g.edges
    pub canonical : All IsCanonical g.edges
    pub unique : Pairwise DifferEdges g.edges
