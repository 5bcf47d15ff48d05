-- ===== src/Graph/Valid/Keys.antt =====
-- in_memory.py: the key of an edge, the edge that is stored under it, and what a write makes of it.
use cogno_engram.Prelude.{
  Bool-cases, ◌&&◌, ◌⊎◌, inl, inr, ◌≡◌, refl, true, false, not, none, Option, some, arith, find?,
  filter, any_of_find?, any_of_find?-none, find?-update_first_found, find?-snoc,
  filter-update_first, filter-snoc, Option-cases,
}
use cogno_engram.Text.{Str, is_empty, str_eq_self}
use cogno_engram.Folding.{Unicode, fold_label}
use cogno_engram.Types.{
  EdgeStatus, is_accepted, is_proposed, Date, GraphEdge, accepted, proposed, rejected,
  sanitize_audience, merge,
}
use cogno_engram.Graph.State.{Graph}
use cogno_engram.Graph.Write.{is_edge, revise_edge, put_edge, or_else}

-- What an edge's write in place leaves: its scope, its ends and its relation.
pub record SameKey (a b : GraphEdge) : Type 0 where
  pub scope : a.scope ≡ b.scope
  pub source : a.source ≡ b.source
  pub target : a.target ≡ b.target
  pub relation : a.relation ≡ b.relation

module _ (uni : Unicode) where
  pub revise_edge-SameKey : (edge e : GraphEdge) → SameKey (revise_edge uni edge e) e
  unfolding revise_edge
  revise_edge-SameKey edge e = ground arith

  pub is_edge-same :
      (scope source target relation : Str) (a b : GraphEdge)
      → SameKey a b
      → is_edge uni scope source target relation a ≡ is_edge uni scope source target relation b
  unfolding is_edge
  is_edge-same scope source target relation a b s = rw (s.scope, s.source, s.target, s.relation)

  pub is_edge_self : (e : GraphEdge) → is_edge uni e.scope e.source e.target e.relation e ≡ true
  unfolding is_edge
  is_edge_self e = rw (
    str_eq_self e.scope,
    str_eq_self (fold_label uni e.source),
    str_eq_self (fold_label uni e.target),
    str_eq_self e.relation,
  )

  abbrev pub stored : GraphEdge → Graph → Option GraphEdge
  stored edge g = find? (is_edge uni edge.scope edge.source edge.target edge.relation) g.edges

  pub put_edge-stored :
      (now : Date) (edge : GraphEdge) (g : Graph) {old : GraphEdge}
      → stored edge g ≡ some old
      → stored edge (put_edge uni now edge g) ≡ some (revise_edge uni edge old)
  unfolding put_edge
  put_edge-stored now edge g {old} h =
      rw (any_of_find? (is_edge uni edge.scope edge.source edge.target edge.relation) g.edges h) (
        find?-update_first_found _ (revise_edge uni edge) g.edges
          (λ y. is_edge-same _ _ _ _ (revise_edge uni edge y) y (revise_edge-SameKey edge y)) h)

  -- What a revision leaves of a verdict and of an audience.
  pub record Respects (edge old new : GraphEdge) : Type 0 where
    pub held : old.status ≡ accepted → edge.status ≡ proposed → new ≡ old
    pub kept : old.status ≡ accepted → new.status ≡ accepted
    pub sticky : old.status ≡ rejected → new.status ≡ rejected
    pub promoted : old.status ≡ proposed → new.status ≡ edge.status
    pub narrow : is_empty old.audience ≡ false → new.audience ≡ old.audience
    pub classified :
        is_empty old.audience ≡ true
        → (new.audience ≡ sanitize_audience (some edge.audience)) ⊎ (new ≡ old)

  pub revise_edge-Respects : (edge old : GraphEdge) → Respects edge old (revise_edge uni edge old)
  unfolding revise_edge
  revise_edge-Respects edge old = record {
    held = λ a p. ground arith;
    kept = λ a. ground arith;
    sticky = λ r. ground arith;
    promoted = λ p. ground arith;
    narrow = λ c. ground arith;
    classified = λ c. ground arith;
  }

  -- What a revision writes, unless a proposal meets an accepted edge.
  pub record Writes (edge old new : GraphEdge) : Type 0 where
    pub key : SameKey new old
    pub confidence : new.confidence ≡ edge.confidence
    pub source_session : new.source_session ≡ edge.source_session
    pub attributes : new.attributes ≡ merge old.attributes edge.attributes
    pub created_at : new.created_at ≡ old.created_at

  revise_edge-Writes :
      (edge old : GraphEdge)
      → ((old.status ≡ accepted) × (edge.status ≡ proposed))
        ⊎ Writes edge old (revise_edge uni edge old)
  unfolding revise_edge
  revise_edge-Writes edge old =
      elim (Bool-cases (is_accepted old.status && is_proposed edge.status)) [
        | inl held ↦ inl (was_held old.status edge.status held)
        | inr free ↦ inr (
            rw (revise_edge, free)
              (record {
                confidence = refl;
                source_session = refl;
                attributes = refl;
                created_at = refl;
                key = record { scope = refl; source = refl; target = refl; relation = refl };
              }))
      ]
    where
      was_held :
          (s t : EdgeStatus)
          → (is_accepted s && is_proposed t) ≡ true
          → (s ≡ accepted) × (t ≡ proposed)
      was_held accepted proposed h = (refl, refl)
      was_held accepted accepted h = absurd (cc)
      was_held accepted rejected h = absurd (cc)
      was_held proposed t h = absurd (cc)
      was_held rejected t h = absurd (cc)

  -- What is stored under the key of a written edge: the edge itself, or the revision of the edge that
  -- was there.
  abbrev pub Stored : Date → GraphEdge → Graph → GraphEdge → Type 0
  Stored now edge g new =
      ((stored edge g ≡ none) × (new ≡ record edge { created_at = or_else edge.created_at now }))
      ⊎ ((old : GraphEdge) × (stored edge g ≡ some old)
          × Respects edge old new
          × (((old.status ≡ accepted) × (edge.status ≡ proposed)) ⊎ Writes edge old new))

  pub put_edge-Stored :
      (now : Date) (edge : GraphEdge) (g : Graph)
      → (new : GraphEdge) × (stored edge (put_edge uni now edge g) ≡ some new)
        × Stored now edge g new
        × (filter
              (λ e. not (is_edge uni edge.scope edge.source edge.target edge.relation e))
              (put_edge uni now edge g).edges
            ≡ filter
                (λ e. not (is_edge uni edge.scope edge.source edge.target edge.relation e))
                g.edges)
  unfolding put_edge
  put_edge-Stored now edge g =
      let same = is_edge uni edge.scope edge.source edge.target edge.relation in
      elim (Option-cases (stored edge g)) [
        | inl missing ↦
            let added = record edge { created_at = or_else edge.created_at now } in
            (
              added,
              rw (put_edge, any_of_find?-none same g.edges missing)
                  (find?-snoc same g.edges added (any_of_find?-none same g.edges missing)
                    (is_edge_self edge)),
              inl (missing, refl),
              rw (put_edge, any_of_find?-none same g.edges missing)
                  (filter-snoc same g.edges added (is_edge_self edge)),
            )
        | inr (old, found) ↦ (
          revise_edge uni edge old,
          put_edge-stored now edge g found,
          inr (old, found, revise_edge-Respects edge old, revise_edge-Writes edge old),
          rw (put_edge, any_of_find? same g.edges found)
              (filter-update_first same (revise_edge uni edge) g.edges (λ y.
                is_edge-same _ _ _ _ (revise_edge uni edge y) y (revise_edge-SameKey edge y))),
        )
      ]
