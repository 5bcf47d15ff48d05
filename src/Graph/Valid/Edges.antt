-- ===== src/Graph/Valid/Edges.antt =====
-- in_memory.py: `upsert_edge`, `set_edge_status` and `set_edge_audience` on a valid graph.
use cogno_engram.Prelude.{
  ap, not, filter, ◌≡◌, refl, ◌∙◌, Bool, true, false, Option, some, [], ◌∷◌, ◌++◌, arith,
  All-append, All-map, All-update_first, All-not_any, Pairwise-snoc, Pairwise-update_first, any,
  any-update_first, any-append, subst, update_first, Bool-cases, inl, inr,
}
use cogno_engram.Text.{Str, str_eq_comm}
use cogno_engram.Errors.{ok, bind-returned, ok-injective}
use cogno_engram.Folding.{Unicode, fold_label}
use cogno_engram.Types.{
  Date, GraphEdge, sanitize_audience, graph_node, concept, require_edge_status,
}
use cogno_engram.Types.Audience.Isolation.{sanitize_audience_idem}
use cogno_engram.Graph.State.{Graph, require_scope, has_node}
use cogno_engram.Graph.Write.{
  is_edge, revise_edge, put_edge, ensure_node, upsert_edge, or_else, set_edge_status,
  set_edge_audience,
}
use cogno_engram.Graph.Valid.{HasEnds, IsCanonical, DifferEdges, IsValid}
use cogno_engram.Graph.Valid.Keys.{
  SameKey, revise_edge-SameKey, is_edge-same, is_edge_self, stored, Stored, put_edge-Stored,
}
use cogno_engram.Graph.Valid.Nodes.{upsert_node-IsValid}

module _ (uni : Unicode) where
  HasEnds-same : (g : Graph) (a b : GraphEdge) → SameKey a b → HasEnds uni g b → HasEnds uni g a
  HasEnds-same g a b s h = rw (s.scope, s.source, s.target) h

  Differ-left : (a b c : GraphEdge) → SameKey a b → DifferEdges uni b c → DifferEdges uni a c
  Differ-left a b c s h = rw (s.scope, s.source, s.target, s.relation) h

  Differ-right : (a b c : GraphEdge) → SameKey a b → DifferEdges uni c b → DifferEdges uni c a
  unfolding is_edge
  Differ-right a b c s h = rw (s.scope, s.source, s.target, s.relation) h

  -- A write in place that leaves the keys and a canonical audience keeps the graph valid.
  pub write-IsValid :
      (p : GraphEdge → Bool) (f : GraphEdge → GraphEdge) (g : Graph)
      → ((e : GraphEdge) → SameKey (f e) e)
      → ((e : GraphEdge) → IsCanonical e → IsCanonical (f e))
      → IsValid uni g
      → IsValid uni (record g { edges = update_first p f g.edges })
  unfolding has_node
  write-IsValid p f g same canon v = record {
    keyed = v.keyed;
    numbered = v.numbered;
    distinct = v.distinct;
    attached =
        All-update_first (HasEnds uni g) p f g.edges (λ e _. HasEnds-same g (f e) e (same e))
          v.attached;
    canonical = All-update_first IsCanonical p f g.edges (λ e _. canon e) v.canonical;
    unique =
        Pairwise-update_first (DifferEdges uni) p f g.edges
          (λ a b _. Differ-left (f a) a b (same a)) (λ a b _. Differ-right (f b) b a (same b))
          v.unique;
  }

  revise_edge-IsCanonical :
      (edge e : GraphEdge) → IsCanonical e → IsCanonical (revise_edge uni edge e)
  unfolding revise_edge
  revise_edge-IsCanonical edge e h = ground (arith, sanitize_audience_idem (some edge.audience))

  -- The test for an edge's own key is symmetric.
  is_edge_comm :
      (a b : GraphEdge)
      → is_edge uni a.scope a.source a.target a.relation b
        ≡ is_edge uni b.scope b.source b.target b.relation a
  unfolding is_edge
  is_edge_comm a b = rw (
    str_eq_comm b.scope a.scope,
    str_eq_comm (fold_label uni b.source) (fold_label uni a.source),
    str_eq_comm (fold_label uni b.target) (fold_label uni a.target),
    str_eq_comm b.relation a.relation,
  )

  append-IsValid :
      (edge : GraphEdge) (g : Graph)
      → any (is_edge uni edge.scope edge.source edge.target edge.relation) g.edges ≡ false
      → HasEnds uni g edge
      → IsCanonical edge
      → IsValid uni g
      → IsValid uni (record g { edges = g.edges ++ edge ∷ [] })
  unfolding has_node
  append-IsValid edge g fresh ends canon v = record {
    keyed = v.keyed;
    numbered = v.numbered;
    distinct = v.distinct;
    attached = All-append (HasEnds uni g) g.edges (edge ∷ []) v.attached (ends, tt);
    canonical = All-append IsCanonical g.edges (edge ∷ []) v.canonical (canon, tt);
    unique = Pairwise-snoc (DifferEdges uni) g.edges edge v.unique (
        All-map _ _ g.edges (λ e h. is_edge_comm e edge ∙ h)
          (All-not_any (is_edge uni edge.scope edge.source edge.target edge.relation) g.edges
            fresh));
  }

  pub put_edge-IsValid :
      (now : Date) (edge : GraphEdge) (g : Graph)
      → HasEnds uni g edge
      → IsCanonical edge
      → IsValid uni g
      → IsValid uni (put_edge uni now edge g)
  unfolding put_edge
  put_edge-IsValid now edge g ends canon v =
      elim (Bool-cases
        (any (is_edge uni edge.scope edge.source edge.target edge.relation) g.edges)) [
          | inl e ↦ rw e (
              write-IsValid _ (revise_edge uni edge) g (revise_edge-SameKey uni edge)
                (revise_edge-IsCanonical edge) v)
          | inr e ↦ rw e (
              append-IsValid (record edge { created_at = or_else edge.created_at now }) g e ends
                canon v)
        ]

  -- What a write before the edge leaves behind: a valid graph with the label's node, and with every
  -- node and edge that was there.
  pub record Grown (scope label : Str) (g g' : Graph) : Type 0 where
    pub valid : IsValid uni g'
    pub present : has_node scope (fold_label uni label) g' ≡ true
    pub kept : (s k : Str) → has_node s k g ≡ true → has_node s k g' ≡ true
    pub edges : g'.edges ≡ g.edges

  pub ensure_node-Grown :
      (now : Date) (scope label : Str) (g : Graph)
      → require_scope scope ≡ ok tt
      → IsValid uni g
      → (g' : Graph) × (ensure_node uni now scope label g ≡ ok g') × Grown scope label g g'
  unfolding ensure_node graph_node
  ensure_node-Grown now scope label g allowed v =
      elim (Bool-cases (has_node scope (fold_label uni label) g)) [
        | inl e ↦ (g, rw e, record { valid = v; present = e; kept = λ s k h. h; edges = refl })
        | inr e ↦
            let (g', i, returns, valid, present, edges, kept, _, _, _, _) =
              upsert_node-IsValid uni now (graph_node uni scope label concept) g allowed v in
            (
              g',
              rw (e, returns),
              record { valid = valid; present = present; kept = kept; edges = edges },
            )
      ]

  put_edge-has_node :
      (now : Date) (edge : GraphEdge) (g : Graph) (s k : Str)
      → has_node s k (put_edge uni now edge g) ≡ has_node s k g
  unfolding put_edge has_node
  put_edge-has_node now edge g s k = ground arith

  any-is_edge_put :
      (now : Date) (edge : GraphEdge) (g : Graph)
      → any
          (is_edge uni edge.scope edge.source edge.target edge.relation)
          (put_edge uni now edge g).edges
        ≡ true
  unfolding put_edge
  any-is_edge_put now edge g =
      elim (Bool-cases
        (any (is_edge uni edge.scope edge.source edge.target edge.relation) g.edges)) [
          | inl e ↦ rw e (
              any-update_first (is_edge uni edge.scope edge.source edge.target edge.relation) _
                (revise_edge uni edge) g.edges
                (λ x _.
                  is_edge-same uni _ _ _ _ (revise_edge uni edge x) x
                    (revise_edge-SameKey uni edge x))
              ∙ e)
          | inr e ↦ rw e (
              any-append (is_edge uni edge.scope edge.source edge.target edge.relation) g.edges _
              ∙ rw (e, is_edge_self uni edge))
        ]

  -- On a valid graph, for a scope that is not blank and an edge whose audience is in its stored
  -- form, `upsert_edge` returns. The graph is valid again: both ends have their nodes, and the edge
  -- is there once: as it was given, or, where one was there, revised as the verdict and the
  -- audience of that one allow. Every other edge stays.
  pub upsert_edge-IsValid :
      (now : Date) (edge : GraphEdge) (g : Graph)
      → require_scope edge.scope ≡ ok tt
      → IsCanonical edge
      → IsValid uni g
      → (g' : Graph) × (upsert_edge uni now edge g ≡ ok g')
        × IsValid uni g'
        × HasEnds uni g' edge
        × (any (is_edge uni edge.scope edge.source edge.target edge.relation) g'.edges ≡ true)
        × (new : GraphEdge) × (stored uni edge g' ≡ some new)
        × Stored uni now edge g new
        × (filter
              (λ e. not (is_edge uni edge.scope edge.source edge.target edge.relation e))
              g'.edges
            ≡ filter
                (λ e. not (is_edge uni edge.scope edge.source edge.target edge.relation e))
                g.edges)
  unfolding upsert_edge
  upsert_edge-IsValid now edge g allowed canon v =
      let (g₁, made₁, grown₁) = ensure_node-Grown now edge.scope edge.source g allowed v in
      let (g₂, made₂, grown₂) =
        ensure_node-Grown now edge.scope edge.target g₁ allowed grown₁.valid in
      let ends : HasEnds uni g₂ edge = (grown₂.kept _ _ grown₁.present, grown₂.present) in
      let (new, found, written, rest) = put_edge-Stored uni now edge g₂ in
      let same : g₂.edges ≡ g.edges = grown₂.edges ∙ grown₁.edges in
      let is_it = is_edge uni edge.scope edge.source edge.target edge.relation in
      (
        put_edge uni now edge g₂,
        rw (allowed, made₁, made₂),
        put_edge-IsValid now edge g₂ ends canon grown₂.valid,
        (put_edge-has_node now edge g₂ _ _ ∙ ends.0, put_edge-has_node now edge g₂ _ _ ∙ ends.1),
        any-is_edge_put now edge g₂,
        new,
        found,
        subst (λ es. Stored uni now edge (record g { edges = es }) new) same written,
        rest ∙ ap (filter (λ e. not (is_it e))) same,
      )

  -- A verdict or a new audience keeps the graph valid, whatever the four keys name.
  pub set_edge_status-IsValid :
      (scope source target relation : Str) (status : Option Str) (g : Graph) {g' : Graph}
      {found : Bool}
      → IsValid uni g
      → set_edge_status uni scope source target relation status g ≡ ok (g', found)
      → IsValid uni g'
  unfolding set_edge_status
  set_edge_status-IsValid scope source target relation status g v h =
      let (_, h₁, _) = bind-returned (require_scope scope) h in
      let (want, h₂, _) = bind-returned (require_edge_status uni status) h₁ in
      subst (λ (r : Graph × Bool). IsValid uni r.0) (ok-injective h₂)
        (write-IsValid (is_edge uni scope source target relation) (λ e. record e { status = want })
          g (λ e. record { scope = refl; source = refl; target = refl; relation = refl }) (λ e k. k)
          v)

  pub set_edge_audience-IsValid :
      (scope source target relation : Str) (audience : Option Str) (g : Graph) {g' : Graph}
      {found : Bool}
      → IsValid uni g
      → set_edge_audience uni scope source target relation audience g ≡ ok (g', found)
      → IsValid uni g'
  unfolding set_edge_audience
  set_edge_audience-IsValid scope source target relation audience g v h =
      let (_, h₁, _) = bind-returned (require_scope scope) h in
      subst (λ (r : Graph × Bool). IsValid uni r.0) (ok-injective h₁)
        (write-IsValid (is_edge uni scope source target relation)
          (λ e. record e { audience = sanitize_audience audience }) g
          (λ e. record { scope = refl; source = refl; target = refl; relation = refl })
          (λ e _. sanitize_audience_idem audience) v)
