-- ===== src/Graph/Walk/Sound.antt =====
-- in_memory.py: what `walk` returns.
use mathlib.Core.List.{Memᴰ}
use cogno_engram.Prelude.{
  ℕ, zero, suc, ◌+◌, ◌*◌, ◌<◌, ◌≡◌, refl, subst, true, some, List, [], ◌∷◌, arith, ◌==◌, is_some,
  any, length, leb, All, All-append, All-map, All-filter_of, All-Memᴰ, All-at, Bool-cases,
  Option-cases, inl, inr,
}
use cogno_engram.Text.{Str, str_eq_iff}
use cogno_engram.Errors.{ok}
use cogno_engram.Folding.{Unicode, fold_label}
use cogno_engram.Types.{GraphEdge, is_accepted, audience_can_read}
use cogno_engram.Graph.State.{Graph, require_scope, contains, readable, can_see}
use cogno_engram.Graph.Read.{far_end}
use cogno_engram.Graph.Walk.{
  Traversal, numbered, note_edge, note_label, visit, visit_all, walk_step, walk_loop, walk_start,
  walk_run, walk,
}

-- A folded label that is `n` hops from the start, over accepted edges of the list.
pub data Near (uni : Unicode) (start_label : Str) (edges : List GraphEdge) : ℕ → Str → Type 0 where
  start : Near uni start_label edges zero (fold_label uni start_label)
  hop :
      {n : ℕ} {key : Str} (e : GraphEdge) (far : Str)
      → Near uni start_label edges n key
      → Memᴰ e edges
      → is_accepted e.status ≡ true
      → far_end uni key e ≡ some far
      → Near uni start_label edges (suc n) (fold_label uni far)

module _ (uni : Unicode) (start_label : Str) (max_depth : ℕ) (edges : List GraphEdge) where
  -- An edge that may be returned: accepted, and with an end fewer than `max_depth` hops away.
  abbrev pub IsReached : GraphEdge → Type 0
  IsReached e =
      Memᴰ e edges
      × (is_accepted e.status ≡ true)
      × ((n : ℕ) × (key : Str) × Near uni start_label edges n key
          × (n < max_depth)
          × (is_some (far_end uni key e) ≡ true))

  abbrev Waits : Str × ℕ → Type 0
  Waits w = Near uni start_label edges w.1 w.0

  record Inv (t : Traversal) : Type 0 where
    reached : All IsReached t.result
    waiting : All Waits t.frontier

  note_edge-Inv :
      (i : ℕ) (e : GraphEdge) (t : Traversal) → IsReached e → Inv t → Inv (note_edge i e t)
  unfolding note_edge
  note_edge-Inv i e t r v = elim (Bool-cases (any (λ j. j == i) t.seen_edges)) [
    | inl old ↦ rw old v
    | inr new ↦ rw new (record {
      reached = All-append IsReached t.result (e ∷ []) v.reached (r, tt);
      waiting = v.waiting;
    })
  ]

  note_label-Inv :
      (key : Str) (depth : ℕ) (t : Traversal)
      → Near uni start_label edges depth key
      → Inv t
      → Inv (note_label key depth t)
  unfolding note_label
  note_label-Inv key depth t near v = elim (Bool-cases (contains key t.visited)) [
    | inl old ↦ rw old v
    | inr new ↦ rw new (record {
      reached = v.reached;
      waiting = All-append Waits t.frontier ((key, depth) ∷ []) v.waiting (near, tt);
    })
  ]

  visit-Inv :
      (label : Str) (depth i : ℕ) (e : GraphEdge) (t : Traversal)
      → Near uni start_label edges depth label
      → depth < max_depth
      → Memᴰ e edges
      → Inv t
      → Inv (visit uni label depth (i, e) t)
  unfolding visit
  visit-Inv label depth i e t near below here v = elim (Bool-cases (is_accepted e.status)) [
    | inr held ↦ rw held v
    | inl accepted ↦ elim (Option-cases (far_end uni label e)) [
      | inl missing ↦ rw (accepted, missing) v
      | inr (far, found) ↦
          rw (accepted, found)
            (note_label-Inv (fold_label uni far) (depth + 1) (note_edge i e t)
              (subst (λ n. Near uni start_label edges n (fold_label uni far)) (omega arith)
                (hop e far near here accepted found))
              (note_edge-Inv i e t (here, accepted, (depth, label, near, below, rw found)) v))
    ]
  ]

  visit_all-Inv :
      (label : Str) (depth : ℕ) (es : List (ℕ × GraphEdge)) (t : Traversal)
      → Near uni start_label edges depth label
      → depth < max_depth
      → All (λ e. Memᴰ e.1 edges) es
      → Inv t
      → Inv (visit_all uni label depth es t)
  unfolding visit_all
  visit_all-Inv label depth [] t near below here v = v
  visit_all-Inv label depth (e ∷ es) t near below here v =
      visit_all-Inv label depth es (visit uni label depth e t) near below here.1
        (visit-Inv label depth e.0 e.1 t near below here.0 v)

  walk_step-Inv :
      (es : List (ℕ × GraphEdge)) (label : Str) (depth : ℕ) (t : Traversal)
      → All (λ e. Memᴰ e.1 edges) es
      → Near uni start_label edges depth label
      → Inv t
      → Inv (walk_step uni max_depth es label depth t)
  unfolding walk_step
  walk_step-Inv es label depth t here near v = elim (Bool-cases (leb max_depth depth)) [
    | inl far ↦ rw far v
    | inr below ↦ rw below (visit_all-Inv label depth es t near (ground arith) here v)
  ]

  walk_loop-Inv :
      (fuel : ℕ) (es : List (ℕ × GraphEdge)) (frontier : List (Str × ℕ)) (t : Traversal)
      → All (λ e. Memᴰ e.1 edges) es
      → t.frontier ≡ frontier
      → Inv t
      → Inv (walk_loop uni fuel max_depth es frontier t)
  unfolding walk_loop
  walk_loop-Inv zero es frontier t here same v = v
  walk_loop-Inv (suc fuel) es [] t here same v = v
  walk_loop-Inv (suc fuel) es ((label, depth) ∷ rest) t here same v =
      let t₀ : Traversal = record t { frontier = rest } in
      let split : All Waits ((label, depth) ∷ rest) = rw same at (v.waiting) in
      let v₀ : Inv t₀ = record { reached = v.reached; waiting = split.1 } in
      walk_loop-Inv fuel es _ (walk_step uni max_depth es label depth t₀) here refl
        (walk_step-Inv es label depth t₀ here split.0 v₀)

  numbered-here :
      (i : ℕ) (es : List GraphEdge)
      → All (λ e. Memᴰ e edges) es
      → All (λ e. Memᴰ e.1 edges) (numbered i es)
  numbered-here i [] h = tt
  numbered-here i (e ∷ es) h = (h.0, numbered-here (suc i) es h.1)

  pub walk_run-IsReached : All IsReached (walk_run uni start_label max_depth edges).result
  unfolding walk_run walk_start
  walk_run-IsReached =
      (walk_loop-Inv (2 * length edges + 2) (numbered 0 edges) _ _
        (numbered-here 0 edges (All-Memᴰ edges)) refl
        (record { reached = tt; waiting = (start, tt) })).reached

-- An edge of the scope that the reader may read.
abbrev pub IsReadable : Str → Str → GraphEdge → Type 0
IsReadable scope audience e = (e.scope ≡ scope) × (audience_can_read audience e.audience ≡ true)

can_see-IsReadable :
    (scope audience : Str) (e : GraphEdge)
    → can_see scope audience e ≡ true
    → IsReadable scope audience e
unfolding can_see
can_see-IsReadable scope audience e h = ground (arith, str_eq_iff e.scope scope)

readable-IsReadable :
    (scope audience : Str) (g : Graph) → All (IsReadable scope audience) (readable scope audience g)
unfolding readable
readable-IsReadable scope audience g =
    All-filter_of (IsReadable scope audience) (can_see scope audience) g.edges
      (can_see-IsReadable scope audience)

-- For a scope that is not blank `walk` returns, and each edge that it returns is of the scope, may be
-- read by the audience, is accepted, and has an end fewer than `max_depth` hops from the start, over
-- edges of the same kind.
pub walk_sound :
    (uni : Unicode) (scope start_label audience : Str) (max_depth : ℕ) (g : Graph)
    → require_scope scope ≡ ok tt
    → (es : List GraphEdge) × (walk uni scope start_label audience max_depth g ≡ ok es)
      × All
          (λ e.
            IsReadable scope audience e
            × IsReached uni start_label max_depth (readable scope audience g) e)
          es
unfolding walk
walk_sound uni scope start_label audience max_depth g allowed =
    let edges = readable scope audience g in
    (
      _,
      rw allowed,
      All-map (IsReached uni start_label max_depth edges) _ _
          (λ e r. (
            All-at (IsReadable scope audience) edges (readable-IsReadable scope audience g) r.0,
            r,
          ))
          (walk_run-IsReached uni start_label max_depth edges),
    )
