-- ===== src/Graph/Walk/Ends.antt =====
-- in_memory.py: the loop of `walk` and the fuel that `walk_run` gives.
use cogno_engram.Prelude.{
  ℕ, zero, suc, ◌+◌, ◌*◌, ◌≤◌, ◌≡◌, refl, true, false, some, List, [], ◌∷◌, arith, if◌then◌else◌,
  length, length-append, All, Option-cases, List-cases, ap, All-map, inl, inr,
}
use cogno_engram.Text.{Str, str_eq_iff, str_eq_self}
use cogno_engram.Folding.{Unicode, fold_label}
use cogno_engram.Types.{GraphEdge}
use cogno_engram.Graph.State.{contains, endpoints}
use cogno_engram.Graph.Read.{far_end}
use cogno_engram.Graph.Walk.{
  Traversal, numbered, note_edge, note_label, visit, visit_all, walk_step, walk_loop, walk_start,
  walk_run,
}

-- How many of the labels are not visited yet.
pending : List Str → List Str → ℕ
pending [] visited = 0
pending (a ∷ ends) visited =
    let rest = pending ends visited in if contains a visited then rest else suc rest

pending_mono :
    (ends visited : List Str) (key : Str) → pending ends (key ∷ visited) ≤ pending ends visited
unfolding pending
pending_mono [] visited key = omega arith
pending_mono (a ∷ ends) visited key = ground (arith, pending_mono ends visited key)

-- A label that was not visited counts until it is.
pending-visit :
    (ends visited : List Str) (key : Str)
    → contains key ends ≡ true
    → contains key visited ≡ false
    → pending ends (key ∷ visited) + 1 ≤ pending ends visited
unfolding pending
pending-visit [] visited key h k = absurd (cc)
pending-visit (a ∷ ends) visited key h k = ground (
  arith,
  pending-visit ends visited key,
  pending_mono ends visited key,
  str_eq_iff a key,
  str_eq_iff key a,
)

abbrev measure : List Str → Traversal → ℕ
measure ends t = length t.frontier + pending ends t.visited

note_label-measure :
    (ends : List Str) (key : Str) (depth : ℕ) (t : Traversal)
    → contains key ends ≡ true
    → measure ends (note_label key depth t) ≤ measure ends t
unfolding note_label
note_label-measure ends key depth t h =
    ground (arith, pending-visit ends t.visited key h, length-append t.frontier ((key, depth) ∷ []))

note_edge-measure :
    (ends : List Str) (i : ℕ) (e : GraphEdge) (t : Traversal)
    → measure ends (note_edge i e t) ≡ measure ends t
unfolding note_edge
note_edge-measure ends i e t = ground arith

module _ (uni : Unicode) where
  abbrev HasBoth : List Str → GraphEdge → Type 0
  HasBoth ends e =
      (contains (fold_label uni e.source) ends ≡ true)
      × (contains (fold_label uni e.target) ends ≡ true)

  far_end-known :
      (ends : List Str) (key : Str) (e : GraphEdge) {far : Str}
      → HasBoth ends e
      → far_end uni key e ≡ some far
      → contains (fold_label uni far) ends ≡ true
  unfolding far_end
  far_end-known ends key e {far} h at = ground (arith, h.0, h.1)

  visit-measure :
      (ends : List Str) (label : Str) (depth i : ℕ) (e : GraphEdge) (t : Traversal)
      → HasBoth ends e
      → measure ends (visit uni label depth (i, e) t) ≤ measure ends t
  unfolding visit
  visit-measure ends label depth i e t h = elim (Option-cases (far_end uni label e)) [
    | inl missing ↦ rw missing (ground arith)
    | inr (far, found) ↦ rw found (
        ground (
          arith,
          note_label-measure ends (fold_label uni far) (depth + 1) (note_edge i e t)
              (far_end-known ends label e h found),
          note_edge-measure ends i e t,
        ))
  ]

  visit_all-measure :
      (ends : List Str) (label : Str) (depth : ℕ) (es : List (ℕ × GraphEdge)) (t : Traversal)
      → All (λ e. HasBoth ends e.1) es
      → measure ends (visit_all uni label depth es t) ≤ measure ends t
  unfolding visit_all
  visit_all-measure ends label depth [] t h = omega arith
  visit_all-measure ends label depth (e ∷ es) t h = omega (
    arith,
    visit_all-measure ends label depth es (visit uni label depth e t) h.1,
    visit-measure ends label depth e.0 e.1 t h.0,
  )

  walk_step-measure :
      (ends : List Str) (max_depth : ℕ) (es : List (ℕ × GraphEdge)) (label : Str) (depth : ℕ)
      (t : Traversal)
      → All (λ e. HasBoth ends e.1) es
      → measure ends (walk_step uni max_depth es label depth t) ≤ measure ends t
  unfolding walk_step
  walk_step-measure ends max_depth es label depth t h =
      ground (arith, visit_all-measure ends label depth es t h)

  walk_loop-ends :
      (ends : List Str) (fuel max_depth : ℕ) (es : List (ℕ × GraphEdge)) (frontier : List (Str × ℕ))
      (t : Traversal)
      → t.frontier ≡ frontier
      → All (λ e. HasBoth ends e.1) es
      → measure ends t ≤ fuel
      → (walk_loop uni fuel max_depth es frontier t).frontier ≡ []
  unfolding walk_loop
  walk_loop-ends ends zero max_depth es frontier t e h enough = elim (List-cases t.frontier) [
    | inl empty ↦ empty
    | inr (x, xs, more) ↦ absurd (omega (arith, ap length more))
  ]
  walk_loop-ends ends (suc fuel) max_depth es [] t e h enough = e
  walk_loop-ends ends (suc fuel) max_depth es ((label, depth) ∷ rest) t e h enough =
      let t₀ : Traversal = record t { frontier = rest } in
      walk_loop-ends ends fuel max_depth es (walk_step uni max_depth es label depth t₀).frontier
        (walk_step uni max_depth es label depth t₀) refl h
        (omega (arith, ap length e, walk_step-measure ends max_depth es label depth t₀ h))

  pending-le : (ends visited : List Str) → pending ends visited ≤ length ends
  unfolding pending
  pending-le [] visited = omega arith
  pending-le (a ∷ ends) visited = ground (arith, pending-le ends visited)

  length-endpoints : (es : List GraphEdge) → length (endpoints uni es) ≡ 2 * length es
  unfolding endpoints
  length-endpoints [] = refl
  length-endpoints (e ∷ es) = omega (arith, length-endpoints es)

  HasBoth-grow : (a : Str) (ends : List Str) (e : GraphEdge) → HasBoth ends e → HasBoth (a ∷ ends) e
  HasBoth-grow a ends e h = ground (arith, h.0, h.1)

  numbered-HasBoth :
      (ends : List Str) (i : ℕ) (es : List GraphEdge)
      → All (HasBoth ends) es
      → All (λ e. HasBoth ends e.1) (numbered i es)
  numbered-HasBoth ends i [] h = tt
  numbered-HasBoth ends i (e ∷ es) h = (h.0, numbered-HasBoth ends (suc i) es h.1)

  endpoints-HasBoth : (es : List GraphEdge) → All (HasBoth (endpoints uni es)) es
  unfolding endpoints
  endpoints-HasBoth [] = tt
  endpoints-HasBoth (e ∷ es) = (
    ground (arith, str_eq_self (fold_label uni e.source), str_eq_self (fold_label uni e.target)),
    All-map (HasBoth (endpoints uni es)) _ es
        (λ x h.
          HasBoth-grow (fold_label uni e.source) (fold_label uni e.target ∷ endpoints uni es) x
            (HasBoth-grow (fold_label uni e.target) (endpoints uni es) x h))
        (endpoints-HasBoth es),
  )

  -- The loop ends by its own test, for every start, depth and list of readable edges: the rounds that
  -- `walk_run` allows are enough, and nothing waits in the frontier at the end.
  pub walk_run-ends :
      (start_label : Str) (max_depth : ℕ) (edges : List GraphEdge)
      → (walk_run uni start_label max_depth edges).frontier ≡ []
  unfolding walk_run walk_start
  walk_run-ends start_label max_depth edges =
      walk_loop-ends (endpoints uni edges) (2 * length edges + 2) max_depth (numbered 0 edges) _ _
        refl (numbered-HasBoth (endpoints uni edges) 0 edges (endpoints-HasBoth edges))
        (omega (
          arith,
          pending-le (endpoints uni edges) (fold_label uni start_label ∷ []),
          length-endpoints edges,
        ))
