-- ===== src/Graph/Valid/Removal.antt =====
-- in_memory.py: the removals on a valid graph.
use cogno_engram.Prelude.{
  sym, filter_no, ◌+◌, ◌-◌, ◌≡◌, refl, ◌∙◌, Bool, true, false, not, ◌&&◌, List, [], arith, length,
  filter, any, any-filter, any-filter-not, filter-filter_of, filter-filter-not, length-filter-not,
  All-map, any_of_All-not, All-filter, All-filter_imp, Pairwise-filter, Bool-cases, inl, inr, ◌⊎◌,
}
use cogno_engram.Text.{Str, str_eq, str_eq_iff, str_eq_comm, is_blank}
use cogno_engram.Errors.{ok, raise, blank_session}
use cogno_engram.Folding.{Unicode, fold_label}
use cogno_engram.Types.{GraphEdge}
use cogno_engram.Graph.State.{
  Entry, Graph, require_scope, require_session, at_key, has_node, touches,
}
use cogno_engram.Graph.Read.{has_edges}
use cogno_engram.Graph.Remove.{delete_node, delete_edges_by_session, purge_scope}
use cogno_engram.Graph.Valid.{HasId, HasKey, Differ, HasEnds, IsCanonical, DifferEdges, IsValid}

module _ (uni : Unicode) where
  -- Keeping some entries and some edges is valid, if the ends of each kept edge are kept.
  pub filter-IsValid :
      (keep : Entry → Bool) (spare : GraphEdge → Bool) (g : Graph)
      → ((e : GraphEdge)
          → spare e ≡ true
          → HasEnds uni g e
          → HasEnds uni (record g { nodes = filter keep g.nodes }) e)
      → IsValid uni g
      → IsValid uni (record g { nodes = filter keep g.nodes; edges = filter spare g.edges })
  unfolding has_node
  filter-IsValid keep spare g ends v = record {
    keyed = All-filter (HasKey uni) keep g.nodes v.keyed;
    numbered = All-filter (HasId g.next_id) keep g.nodes v.numbered;
    distinct = Pairwise-filter (Differ uni) keep g.nodes v.distinct;
    attached =
        All-filter_imp (HasEnds uni g) (HasEnds uni (record g { nodes = filter keep g.nodes }))
          spare g.edges ends v.attached;
    canonical = All-filter IsCanonical spare g.edges v.canonical;
    unique = Pairwise-filter (DifferEdges uni) spare g.edges v.unique;
  }

  pub spare-IsValid :
      (spare : GraphEdge → Bool) (g : Graph)
      → IsValid uni g
      → IsValid uni (record g { edges = filter spare g.edges })
  unfolding has_node
  spare-IsValid spare g v = record {
    keyed = v.keyed;
    numbered = v.numbered;
    distinct = v.distinct;
    attached = All-filter (HasEnds uni g) spare g.edges v.attached;
    canonical = All-filter IsCanonical spare g.edges v.canonical;
    unique = Pairwise-filter (DifferEdges uni) spare g.edges v.unique;
  }

  -- A filter that spares the entries at a key leaves its node.
  has_node-filter :
      (keep : Entry → Bool) (g : Graph) (scope key : Str)
      → ((e : Entry) → at_key scope key e ≡ true → keep e ≡ true)
      → has_node scope key (record g { nodes = filter keep g.nodes }) ≡ has_node scope key g
  unfolding has_node
  has_node-filter keep g scope key spared = any-filter (at_key scope key) keep g.nodes spared

  at_key-scope :
      (scope s k : Str) (e : Entry)
      → not (str_eq s scope) ≡ true
      → at_key s k e ≡ true
      → not (str_eq e.scope scope) ≡ true
  unfolding at_key
  at_key-scope scope s k e differ at = ground (arith, str_eq_iff e.scope s)

  purge_scope-ends :
      (scope : Str) (g : Graph) (e : GraphEdge)
      → not (str_eq e.scope scope) ≡ true
      → HasEnds uni g e
      → HasEnds uni (record g { nodes = filter (λ n. not (str_eq n.scope scope)) g.nodes }) e
  purge_scope-ends scope g e spared h = (
    has_node-filter _ g _ _ (λ n. at_key-scope scope _ _ n spared) ∙ h.0,
    has_node-filter _ g _ _ (λ n. at_key-scope scope _ _ n spared) ∙ h.1,
  )

  at_key-other :
      (scope key s k : Str) (e : Entry)
      → (str_eq s scope && str_eq k key) ≡ false
      → at_key s k e ≡ true
      → not (at_key scope key e) ≡ true
  unfolding at_key
  at_key-other scope key s k e differ at = ground (arith, str_eq_iff e.scope s, str_eq_iff e.key k)

  delete_node-ends :
      (scope key : Str) (g : Graph) (e : GraphEdge)
      → not (str_eq e.scope scope && touches uni key e) ≡ true
      → HasEnds uni g e
      → HasEnds uni (record g { nodes = filter (λ n. not (at_key scope key n)) g.nodes }) e
  unfolding touches
  delete_node-ends scope key g e spared h = (
    has_node-filter _ g _ _ (λ n.
          at_key-other scope key _ _ n (ground (arith, str_eq_comm key (fold_label uni e.source))))
        ∙ h.0,
    has_node-filter _ g _ _ (λ n.
          at_key-other scope key _ _ n (ground (arith, str_eq_comm key (fold_label uni e.target))))
        ∙ h.1,
  )

  at_node : Str → Str → GraphEdge → Bool
  at_node scope key e = str_eq e.scope scope && touches uni key e

  apart :
      (scope key : Str) (g : Graph) (e : GraphEdge)
      → has_node scope key g ≡ false
      → HasEnds uni g e
      → at_node scope key e ≡ false
  unfolding at_node touches
  apart scope key g e absent h = ground (
    arith,
    str_eq_iff e.scope scope,
    str_eq_iff key (fold_label uni e.source),
    str_eq_iff key (fold_label uni e.target),
    h.0,
    h.1,
  )

  -- With no node under a key no edge of the scope ends there.
  no_node-no_edges :
      (scope key : Str) (g : Graph)
      → has_node scope key g ≡ false
      → IsValid uni g
      → any (at_node scope key) g.edges ≡ false
  no_node-no_edges scope key g absent v = any_of_All-not (at_node scope key) g.edges (
      All-map (HasEnds uni g) (λ e. at_node scope key e ≡ false) g.edges
        (λ e. apart scope key g e absent) v.attached)

  -- A node that is deleted takes its edges along: the graph is valid, holds no node under the folded
  -- label, and no edge of the scope has it for an end. Every other entry and every other edge stays
  -- as it is, those of other scopes too, and with no such node nothing changes.
  pub delete_node-IsValid :
      (scope label : Str) (g : Graph)
      → require_scope scope ≡ ok tt
      → IsValid uni g
      → (g' : Graph) × (delete_node uni scope label g
          ≡ ok (g', has_node scope (fold_label uni label) g))
        × IsValid uni g'
        × (has_node scope (fold_label uni label) g' ≡ false)
        × (has_edges uni scope label g' ≡ ok false)
        × (g'.nodes ≡ filter (λ e. not (at_key scope (fold_label uni label) e)) g.nodes)
        × (g'.edges
            ≡ filter
                (λ e. not (str_eq e.scope scope && touches uni (fold_label uni label) e))
                g.edges)
        × (g'.next_id ≡ g.next_id)
        × ((has_node scope (fold_label uni label) g ≡ true) ⊎ (g' ≡ g))
  unfolding delete_node has_edges at_node
  delete_node-IsValid scope label g allowed v =
      elim (Bool-cases (has_node scope (fold_label uni label) g)) [
        | inl e ↦ (
          _,
          rw (allowed, e),
          filter-IsValid _ _ g (delete_node-ends scope (fold_label uni label) g) v,
          unfold has_node in any-filter-not (at_key scope (fold_label uni label)) g.nodes,
          rw (allowed, any-filter-not (at_node scope (fold_label uni label)) g.edges),
          refl,
          refl,
          refl,
          inl e,
        )
        | inr e ↦ (
          g,
          rw (allowed, e),
          v,
          e,
          rw (allowed, no_node-no_edges scope (fold_label uni label) g e v),
          sym (filter_no (at_key scope (fold_label uni label)) g.nodes (unfold has_node in e)),
          sym (
              filter_no (at_node scope (fold_label uni label)) g.edges
                (no_node-no_edges scope (fold_label uni label) g e v)),
          refl,
          inr refl,
        )
      ]

abbrev pub of_scope : Str → List GraphEdge → List GraphEdge
of_scope scope = filter (λ e. str_eq e.scope scope)

abbrev pub entries_of_scope : Str → List Entry → List Entry
entries_of_scope scope = filter (λ e. str_eq e.scope scope)

-- What is counted as removed is what a filter leaves out.
removed-count {ℓ} :
    {A : Type ℓ} (p : A → Bool) (xs : List A)
    → length xs - length (filter (λ x. not (p x)) xs) ≡ length (filter p xs)
removed-count p xs = omega (arith, length-filter-not p xs)

other-scope :
    (scope other a : Str)
    → str_eq other scope ≡ false
    → str_eq a other ≡ true
    → not (str_eq a scope) ≡ true
other-scope scope other a differ same = ground (arith, str_eq_iff a other)

-- A purge of a scope leaves a valid graph with no node and no edge of it, and every other scope as
-- it was. The answer is the number of nodes and edges that the scope had.
pub purge_scope-IsValid :
    (uni : Unicode) (scope : Str) (g : Graph)
    → require_scope scope ≡ ok tt
    → IsValid uni g
    → (g' : Graph) × (purge_scope scope g
        ≡ ok (g', length (of_scope scope g.edges) + length (entries_of_scope scope g.nodes)))
      × IsValid uni g'
      × (of_scope scope g'.edges ≡ [])
      × (entries_of_scope scope g'.nodes ≡ [])
      × ((other : Str)
          → str_eq other scope ≡ false
          → (of_scope other g'.edges ≡ of_scope other g.edges)
            × (entries_of_scope other g'.nodes ≡ entries_of_scope other g.nodes))
unfolding purge_scope
purge_scope-IsValid uni scope g allowed v = (
  record g {
    nodes = filter (λ e. not (str_eq e.scope scope)) g.nodes;
    edges = filter (λ e. not (str_eq e.scope scope)) g.edges;
  },
  rw (
    allowed,
    removed-count (λ (e : GraphEdge). str_eq e.scope scope) g.edges,
    removed-count (λ (e : Entry). str_eq e.scope scope) g.nodes,
  ),
  filter-IsValid uni (λ e. not (str_eq e.scope scope)) (λ e. not (str_eq e.scope scope)) g
      (purge_scope-ends uni scope g) v,
  filter-filter-not (λ (e : GraphEdge). str_eq e.scope scope) g.edges,
  filter-filter-not (λ (e : Entry). str_eq e.scope scope) g.nodes,
  λ other differ. (
    filter-filter_of (λ (e : GraphEdge). str_eq e.scope other) _ g.edges
        (λ e. other-scope scope other e.scope differ),
    filter-filter_of (λ (e : Entry). str_eq e.scope other) _ g.nodes
        (λ e. other-scope scope other e.scope differ),
  ),
)

asserted_by : Str → Str → GraphEdge → Bool
asserted_by scope session_id e = str_eq e.scope scope && str_eq e.source_session session_id

unstamped-spared :
    (scope session_id : Str) (e : GraphEdge)
    → is_blank session_id ≡ false
    → is_blank e.source_session ≡ true
    → not (asserted_by scope session_id e) ≡ true
unfolding asserted_by
unstamped-spared scope session_id e named blank =
    ground (arith, str_eq_iff e.source_session session_id)

-- A prune by session refuses a blank session, and never takes an edge with a blank one: what a person
-- wrote stays. It removes exactly the edges of the scope that the session asserted, counts them, and
-- leaves a valid graph with the same nodes and with all other edges, of other sessions and scopes too.
pub delete_edges_by_session-IsValid :
    (uni : Unicode) (scope session_id : Str) (g : Graph)
    → require_scope scope ≡ ok tt
    → IsValid uni g
    → ((is_blank session_id ≡ true)
        × (delete_edges_by_session scope session_id g ≡ raise blank_session))
      ⊎ ((is_blank session_id ≡ false)
          × ((g' : Graph) × (delete_edges_by_session scope session_id g
                ≡ ok (
                  g',
                  length (
                      filter
                        (λ e. str_eq e.scope scope && str_eq e.source_session session_id)
                        g.edges),
                ))
              × IsValid uni g'
              × (g'.nodes ≡ g.nodes)
              × (g'.edges
                  ≡ filter
                      (λ e. not (str_eq e.scope scope && str_eq e.source_session session_id))
                      g.edges)
              × (filter (λ e. str_eq e.scope scope && str_eq e.source_session session_id) g'.edges
                  ≡ [])
              × (filter (λ e. is_blank e.source_session) g'.edges
                  ≡ filter (λ e. is_blank e.source_session) g.edges)))
unfolding delete_edges_by_session asserted_by
delete_edges_by_session-IsValid uni scope session_id g allowed v =
    elim (Bool-cases (is_blank session_id)) [
      | inl blank ↦ inl (blank, unfold require_session in rw (allowed, blank))
      | inr named ↦ inr (
        named,
        (
          record g { edges = filter (λ e. not (asserted_by scope session_id e)) g.edges },
          unfold require_session in
              rw (allowed, named, removed-count (asserted_by scope session_id) g.edges),
          spare-IsValid uni (λ e. not (asserted_by scope session_id e)) g v,
          refl,
          refl,
          filter-filter-not (asserted_by scope session_id) g.edges,
          filter-filter_of (λ (e : GraphEdge). is_blank e.source_session) _ g.edges
              (λ e. unstamped-spared scope session_id e named),
        ),
      )
    ]
