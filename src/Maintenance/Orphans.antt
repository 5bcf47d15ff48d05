-- ===== src/Maintenance/Orphans.antt =====
-- maintenance.py: what `prune_orphan_nodes` removes.
use cogno_engram.Prelude.{
  filter_cong, filter_all, filter-filter_and, filter_no, All, All-filter_imp, length, ltb, ltb→lt,
  ◌≤◌, ◌<◌, ◌⊎◌, ℕ, ◌+◌, ◌≡◌, refl, ◌∙◌, Bool, true, false, not, ◌&&◌, List, [], ◌∷◌, map, filter,
  any, take, none, arith, Bool-cases, inl, inr, ap, subst, sym,
}
use cogno_engram.Text.{Str, str_eq, str_eq_iff, str_eq_comm}
use cogno_engram.Errors.{ok}
use cogno_engram.Folding.{Unicode, fold_label}
use cogno_engram.Types.{GraphNode, GraphEdge, audience_staff}
use cogno_engram.Graph.State.{Entry, Graph, require_scope, at_key, has_node, touches, contains}
use cogno_engram.Graph.Read.{of_type, list_nodes, has_edges, visible_entries}
use cogno_engram.Graph.Remove.{delete_node}
use cogno_engram.Graph.Valid.{HasKey, IsValid}
use cogno_engram.Maintenance.Listed.{listed, list_nodes-all}
use cogno_engram.Maintenance.{prune_loop, prune_orphan_nodes}

never : (s a : Bool) → not (s && false && a) ≡ true
never s a = ground arith

attached_keeps : (s c d : Bool) → not (s && c && not true) ≡ not (s && d && not true)
attached_keeps s c d = ground arith

loose_goes :
    (s c : Bool) → (not (s && true) && not (s && c && not false)) ≡ not (s && true && not false)
loose_goes s c = ground arith

other_stays : (s c a : Bool) → (not (s && false) && not (s && c && a)) ≡ not (s && c && a)
other_stays s c a = ground arith

still_attached : (s c a : Bool) → s ≡ true → c ≡ true → not (s && c && not a) ≡ true → a ≡ true
still_attached s c a hs hc h = ground arith

module _ (uni : Unicode) (scope : Str) where
  -- An edge of the scope has an end with the folded label.
  abbrev pub is_attached : List GraphEdge → Str → Bool
  is_attached edges key = any (λ e. str_eq e.scope scope && touches uni key e) edges

  -- An entry of the scope whose key is that of one of the nodes, and that no edge touches.
  abbrev pub is_orphan : List GraphNode → List GraphEdge → Entry → Bool
  is_orphan nodes edges e =
      str_eq e.scope scope
      && contains e.key (map (λ n. fold_label uni n.label) nodes)
      && not (is_attached edges e.key)

  abbrev pub without_orphans : List GraphNode → Graph → Graph
  without_orphans nodes g = record g {
    nodes = filter (λ e. not (is_orphan nodes g.edges e)) g.nodes;
  }

  -- An attached node is no reason to remove an entry.
  attached-keeps :
      (n : GraphNode) (ns : List GraphNode) (edges : List GraphEdge)
      → is_attached edges (fold_label uni n.label) ≡ true
      → (e : Entry) → not (is_orphan ns edges e) ≡ not (is_orphan (n ∷ ns) edges e)
  attached-keeps n ns edges h e = elim (Bool-cases (str_eq (fold_label uni n.label) e.key)) [
    | inl same ↦
        let key = (str_eq_iff (fold_label uni n.label) e.key).0 same in
        rw (same, subst (λ k. is_attached edges k ≡ true) key h)
          (attached_keeps (str_eq e.scope scope)
            (contains e.key (map (λ m. fold_label uni m.label) ns)) true)
    | inr other ↦ rw other refl
  ]

  -- A node that no edge touches takes the entry of its key.
  loose-removes :
      (n : GraphNode) (ns : List GraphNode) (edges : List GraphEdge)
      → is_attached edges (fold_label uni n.label) ≡ false
      → (e : Entry)
      → (not (at_key scope (fold_label uni n.label) e) && not (is_orphan ns edges e))
        ≡ not (is_orphan (n ∷ ns) edges e)
  unfolding at_key
  loose-removes n ns edges h e = elim (Bool-cases (str_eq (fold_label uni n.label) e.key)) [
    | inl same ↦
        let key = (str_eq_iff (fold_label uni n.label) e.key).0 same in
        rw
          (
            str_eq_comm e.key (fold_label uni n.label),
            same,
            subst (λ k. is_attached edges k ≡ false) key h,
          )
          (loose_goes (str_eq e.scope scope)
            (contains e.key (map (λ m. fold_label uni m.label) ns)))
    | inr other ↦
        rw (str_eq_comm e.key (fold_label uni n.label), other)
          (other_stays (str_eq e.scope scope)
            (contains e.key (map (λ m. fold_label uni m.label) ns)) (not (is_attached edges e.key)))
  ]

  -- What is left without a node that no edge touches, and then without the others.
  loose-without :
      (n : GraphNode) (ns : List GraphNode) (g : Graph) (edges : List GraphEdge)
      → edges ≡ g.edges
      → is_attached g.edges (fold_label uni n.label) ≡ false
      → without_orphans ns (record g {
        nodes = filter (λ e. not (at_key scope (fold_label uni n.label) e)) g.nodes;
        edges = edges;
      })
        ≡ without_orphans (n ∷ ns) g
  loose-without n ns g edges same loose = rw same (
      ap (λ es. record g { nodes = es })
        (filter-filter_and _ (λ e. not (at_key scope (fold_label uni n.label) e)) g.nodes
          ∙ filter_cong _ _ g.nodes (loose-removes n ns g.edges loose)))

  prune_loop-removes :
      (nodes : List GraphNode) (deleted : ℕ) (g : Graph)
      → require_scope scope ≡ ok tt
      → (n : ℕ) × (prune_loop uni scope nodes deleted g ≡ ok (without_orphans nodes g, n))
  unfolding prune_loop has_edges delete_node has_node
  prune_loop-removes [] deleted g allowed = (
    deleted,
    ap (λ es. ok (record g { nodes = es }, deleted))
        (sym (
          filter_all _ g.nodes
            λ e. never (str_eq e.scope scope) (not (is_attached g.edges e.key)))),
  )
  prune_loop-removes (n ∷ ns) deleted g allowed =
      elim (Bool-cases (is_attached g.edges (fold_label uni n.label))) [
        | inl e ↦
            let (m, rest) = prune_loop-removes ns deleted g allowed in
            (
              m,
              rw (has_edges, allowed, e)
                  (rest
                    ∙ ap (λ es. ok (record g { nodes = es }, m))
                        (filter_cong _ _ g.nodes (attached-keeps n ns g.edges e))),
            )
        | inr e ↦ elim (Bool-cases (has_node scope (fold_label uni n.label) g)) [
          | inl there ↦
              let key = fold_label uni n.label in
              let edges = filter (λ e. not (str_eq e.scope scope && touches uni key e)) g.edges in
              let gone = record g {
                nodes = filter (λ e. not (at_key scope key e)) g.nodes;
                edges = edges;
              } in
              let (m, rest) = prune_loop-removes ns (deleted + 1) gone allowed in
              let kept = filter_no (λ x. str_eq x.scope scope && touches uni key x) g.edges e in
              (
                m,
                rw (has_edges, allowed, e, delete_node, there, allowed)
                    (rest ∙ ap (λ h. ok (h, m)) (loose-without n ns g edges kept e)),
              )
          | inr missing ↦
              let (m, rest) = prune_loop-removes ns deleted g allowed in
              (
                m,
                rw (has_edges, allowed, e, delete_node, missing, allowed)
                    (rest
                      ∙ ap (λ es. ok (without_orphans ns (record g { nodes = es }), m))
                          (sym (filter_no (at_key scope (fold_label uni n.label)) g.nodes missing))
                      ∙ ap (λ h. ok (h, m)) (loose-without n ns g g.edges refl e)),
              )
        ]
      ]

  -- A list that is long enough leaves no node of the scope that no edge touches.
  without_orphans-attached :
      (limit : ℕ) (g : Graph)
      → length g.nodes ≤ limit
      → All (HasKey uni) g.nodes
      → (nodes : List GraphNode)
      → map (λ n. fold_label uni n.label) nodes ≡ listed uni scope g limit
      → All
          (λ e. str_eq e.scope scope ≡ true → is_attached g.edges e.key ≡ true)
          (without_orphans nodes g).nodes
  without_orphans-attached limit g enough keyed nodes shown =
      All-filter_imp _ _ (λ e. not (is_orphan nodes g.edges e)) g.nodes
        (λ e stays seen here.
          still_attached (str_eq e.scope scope)
            (contains e.key (map (λ n. fold_label uni n.label) nodes)) (is_attached g.edges e.key)
            here (rw shown (seen here)) stays)
        (list_nodes-all uni scope g limit enough keyed)

  -- On a valid graph exactly the listed nodes that no edge of the scope touches go; the edges, the
  -- other nodes and the other scopes stay as they are; and unless the graph has more nodes than the
  -- limit, every node of the scope that is left has an edge.
  pub prune_orphan_nodes-removes :
      (limit : ℕ) (g : Graph)
      → require_scope scope ≡ ok tt
      → IsValid uni g
      → (n : ℕ) × (nodes : List GraphNode) × (list_nodes uni scope audience_staff none limit g
          ≡ ok nodes)
        × (prune_orphan_nodes uni scope limit g ≡ ok (without_orphans nodes g, n))
        × ((limit < length g.nodes)
            ⊎ All
                (λ e. str_eq e.scope scope ≡ true → is_attached g.edges e.key ≡ true)
                (without_orphans nodes g).nodes)
  unfolding prune_orphan_nodes list_nodes
  prune_orphan_nodes-removes limit g allowed valid =
      let seen = map (λ e. e.node) (visible_entries uni scope audience_staff g) in
      let nodes = take limit (filter (of_type none) seen) in
      let (n, rest) = prune_loop-removes nodes 0 g allowed in
      (
        n,
        nodes,
        rw allowed refl,
        rw (list_nodes, allowed) rest,
        elim (Bool-cases (ltb limit (length g.nodes))) [
          | inl over ↦ inl (ltb→lt limit (length g.nodes) over)
          | inr fits ↦ inr (without_orphans-attached limit g (ground arith) valid.keyed nodes refl)
        ],
      )
