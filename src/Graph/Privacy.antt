-- ===== src/Graph/Privacy.antt =====
-- in_memory.py: `upsert_edge`, as a reader sees it that may not read the edge.
use cogno_engram.Prelude.{
  ℕ, ◌≡◌, ◌∙◌, ap, Bool, true, false, List, [], ◌∷◌, ◌++◌, arith, filter, any, Bool-cases, inl, inr,
  take,
}
use cogno_engram.Text.{Str, str_eq}
use cogno_engram.Errors.{ok, ◌>>◌}
use cogno_engram.Folding.{Unicode}
use cogno_engram.Types.{Date, GraphEdge, audience_can_read, audience_staff, is_proposed}
use cogno_engram.Graph.State.{Graph, require_scope, readable, can_see, visible_labels, endpoints}
use cogno_engram.Graph.Write.{is_edge, put_edge, upsert_edge, or_else}
use cogno_engram.Graph.Read.{pending_edges}
use cogno_engram.Graph.Walk.{walk, walk_run}
use cogno_engram.Graph.Valid.{IsValid}
use cogno_engram.Graph.Valid.Edges.{ensure_node-Grown}

filter-snoc_not {ℓ} :
    {A : Type ℓ} (p : A → Bool) (xs : List A) (y : A)
    → p y ≡ false
    → filter p (xs ++ y ∷ []) ≡ filter p xs
filter-snoc_not p [] y h = rw h
filter-snoc_not p (x ∷ xs) y h = ground (arith, filter-snoc_not p xs y)

hidden :
    (scope reader : Str) (e : GraphEdge)
    → audience_can_read reader e.audience ≡ false
    → can_see scope reader e ≡ false
unfolding can_see
hidden scope reader e h = ground (arith, h)

not_staff :
    (reader row : Str) → audience_can_read reader row ≡ false → str_eq reader audience_staff ≡ false
unfolding audience_can_read
not_staff reader row h = elim (Bool-cases (str_eq reader audience_staff)) [
  | inr e ↦ e
  | inl e ↦ absurd (clash (rw (audience_can_read, e) at h))
]
  where
    clash : true ≡ false → ⊥
    clash k = cc

module _ (uni : Unicode) where
  -- What a reader has to go on: its edges, its walks, its queue of proposals and the labels it sees.
  abbrev pub SameView : Str → Graph → Graph → Type 0
  SameView reader g g' =
      (scope : Str)
      → (readable scope reader g' ≡ readable scope reader g)
        × ((start : Str) (depth : ℕ)
            → walk uni scope start reader depth g' ≡ walk uni scope start reader depth g)
        × ((limit : ℕ) → pending_edges scope reader limit g' ≡ pending_edges scope reader limit g)
        × (visible_labels uni scope reader g' ≡ visible_labels uni scope reader g)

  same_edges-SameView :
      (reader : Str) (g g' : Graph)
      → str_eq reader audience_staff ≡ false
      → ((scope : Str) → readable scope reader g' ≡ readable scope reader g)
      → SameView reader g g'
  unfolding walk pending_edges visible_labels
  same_edges-SameView reader g g' other same scope = (
    same scope,
    λ start depth.
        ap (λ es. require_scope scope >> ok (walk_run uni start depth es).result) (same scope),
    λ limit.
        ap (λ es. require_scope scope >> ok (take limit (filter (λ e. is_proposed e.status) es)))
          (same scope),
    rw other (ap (endpoints uni) (same scope)),
  )

  -- Upserting a new edge, of an audience that a reader may not read, into a valid graph returns, and in
  -- every scope the reader has the edges, the walks, the proposals to review and the visible labels
  -- that it had.
  pub upsert_edge-SameView :
      (now : Date) (edge : GraphEdge) (g : Graph) (reader : Str)
      → require_scope edge.scope ≡ ok tt
      → IsValid uni g
      → any (is_edge uni edge.scope edge.source edge.target edge.relation) g.edges ≡ false
      → audience_can_read reader edge.audience ≡ false
      → (g' : Graph) × (upsert_edge uni now edge g ≡ ok g') × SameView reader g g'
  unfolding upsert_edge put_edge readable
  upsert_edge-SameView now edge g reader allowed v new unread =
      let (g₁, made₁, grown₁) = ensure_node-Grown uni now edge.scope edge.source g allowed v in
      let (g₂, made₂, grown₂) =
        ensure_node-Grown uni now edge.scope edge.target g₁ allowed grown₁.valid in
      let edges : g₂.edges ≡ g.edges = grown₂.edges ∙ grown₁.edges in
      let stored : GraphEdge = record edge { created_at = or_else edge.created_at now } in
      let new₂ : any (is_edge uni edge.scope edge.source edge.target edge.relation) g₂.edges
          ≡ false =
        ap (any (is_edge uni edge.scope edge.source edge.target edge.relation)) edges ∙ new in
      let g' : Graph = record g₂ { edges = g₂.edges ++ stored ∷ [] } in
      (
        g',
        rw (allowed, made₁, made₂, new₂),
        same_edges-SameView reader g g' (not_staff reader edge.audience unread) (λ scope.
            filter-snoc_not (can_see scope reader) g₂.edges stored
              (hidden scope reader stored unread)
            ∙ ap (filter (can_see scope reader)) edges),
      )
