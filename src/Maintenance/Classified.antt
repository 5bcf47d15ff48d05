-- ===== src/Maintenance/Classified.antt =====
-- maintenance.py: the dry and the wet run of `classify_edge_audience`.
use cogno_engram.Prelude.{
  ◌≡◌, refl, ◌∙◌, ap, Bool, true, false, Option, some, List, [], ◌∷◌, map, Bool-cases, inl, inr,
  update_first,
}
use cogno_engram.Text.{Str, is_empty}
use cogno_engram.Errors.{Result, ok, Result-cases}
use cogno_engram.Folding.{Unicode}
use cogno_engram.Types.{GraphEdge, sanitize_audience}
use cogno_engram.Graph.State.{Graph, require_scope}
use cogno_engram.Graph.Write.{set_edge_audience, is_edge}
use cogno_engram.Maintenance.{
  Counts, want_of, counted, write_audience, is_settled, classify_loop, edges_to_classify,
  classify_edge_audience,
}

-- An edge without what is said of its audience.
abbrev pub without_audience : GraphEdge → GraphEdge
without_audience e = record e { audience = [] }

-- The same nodes, and edges that differ in their audience only.
abbrev pub DiffersInAudience : Graph → Graph → Type 0
DiffersInAudience g h =
    (h.nodes ≡ g.nodes)
    × (h.next_id ≡ g.next_id)
    × (map without_audience h.edges ≡ map without_audience g.edges)

audience-update_first :
    (p : GraphEdge → Bool) (a : Str) (es : List GraphEdge)
    → map without_audience (update_first p (λ e. record e { audience = a }) es)
      ≡ map without_audience es
audience-update_first p a [] = refl
audience-update_first p a (e ∷ es) = elim (Bool-cases (p e)) [
  | inl h ↦ rw h refl
  | inr h ↦ rw h (ap (λ r. without_audience e ∷ r) (audience-update_first p a es))
]

module _ (uni : Unicode) (resolver : Option (Str → Result (Option Str))) (scope : Str) where
  -- A dry run writes nothing.
  write_audience_dry :
      (e : GraphEdge) (want : Str) (g : Graph) → write_audience uni scope true e want g ≡ ok g
  unfolding write_audience
  write_audience_dry e want g = elim (Bool-cases (is_empty want)) [
    | inl h ↦ rw h refl
    | inr h ↦ rw h refl
  ]

  write_audience_wet :
      (e : GraphEdge) (want : Str) (g : Graph)
      → require_scope scope ≡ ok tt
      → (h : Graph) × (write_audience uni scope false e want g ≡ ok h) × DiffersInAudience g h
  unfolding write_audience set_edge_audience
  write_audience_wet e want g allowed = elim (Bool-cases (is_empty want)) [
    | inl w ↦ (g, rw w refl, (refl, refl, refl))
    | inr w ↦ (
      record g {
        edges =
            update_first (is_edge uni scope e.source e.target e.relation)
              (λ x. record x { audience = sanitize_audience (some want) }) g.edges;
      },
      rw (w, set_edge_audience, allowed) refl,
      (
        refl,
        refl,
        audience-update_first (is_edge uni scope e.source e.target e.relation)
            (sanitize_audience (some want)) g.edges,
      ),
    )
  ]

  classify_loop_dry :
      (es : List GraphEdge) (seen : List (Str × Str × Str)) (c : Counts) (g h : Graph)
      → require_scope scope ≡ ok tt
      → ((classify_loop uni resolver scope true es seen c g).0 ≡ g)
        × ((classify_loop uni resolver scope false es seen c h).1
            ≡ (classify_loop uni resolver scope true es seen c g).1)
        × DiffersInAudience h (classify_loop uni resolver scope false es seen c h).0
  unfolding classify_loop
  classify_loop_dry [] seen c g h allowed = (refl, refl, (refl, refl, refl))
  classify_loop_dry (e ∷ es) seen c g h allowed = elim (Bool-cases (is_settled uni seen e)) [
    | inl s ↦ rw (classify_loop, s) (classify_loop_dry es seen c g h allowed)
    | inr s ↦ elim (Result-cases (want_of uni resolver e)) [
      | inl (x, w) ↦ rw (classify_loop, s, w) (refl, refl, (refl, refl, refl))
      | inr (want, w) ↦
          let (left, wet, (nodes, ids, edges)) = write_audience_wet e want h allowed in
          let (same, counts, (nodes', ids', edges')) =
            classify_loop_dry es ((e.source, e.target, e.relation) ∷ seen) (counted uni e want c) g
              left allowed in
          rw (classify_loop, s, w, wet, write_audience_dry e want g)
            (same, counts, (nodes' ∙ nodes, ids' ∙ ids, edges' ∙ edges))
    ]
  ]

  -- A dry run changes nothing and answers what the wet run answers; and the wet run changes nothing
  -- but audiences of edges.
  pub classify_edge_audience_dry :
      (g : Graph)
      → require_scope scope ≡ ok tt
      → ((classify_edge_audience uni resolver scope true g).0 ≡ g)
        × ((classify_edge_audience uni resolver scope false g).1
            ≡ (classify_edge_audience uni resolver scope true g).1)
        × DiffersInAudience g (classify_edge_audience uni resolver scope false g).0
  unfolding classify_edge_audience
  classify_edge_audience_dry g allowed = elim (Result-cases (edges_to_classify uni scope g)) [
    | inl (x, e) ↦ rw (classify_edge_audience, e) (refl, refl, (refl, refl, refl))
    | inr (es, e) ↦
        rw (classify_edge_audience, e)
          (classify_loop_dry es [] (record { tenant = 0; identity = 0; unresolved = 0 }) g g
            allowed)
  ]
