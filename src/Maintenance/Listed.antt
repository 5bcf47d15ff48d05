-- ===== src/Maintenance/Listed.antt =====
-- in_memory.py: the nodes that `list_nodes` shows to staff.
use cogno_engram.Prelude.{
  ℕ, zero, suc, ◌≤◌, ◌≡◌, refl, Bool, true, ◌&&◌, List, [], ◌∷◌, map, filter, take, none, arith,
  length, Bool-cases, inl, inr, ap, subst, All, All-map, All-both, length-filter-le,
}
use cogno_engram.Text.{Str, str_eq, str_eq_self}
use cogno_engram.Folding.{Unicode, fold_label}
use cogno_engram.Types.{GraphNode, audience_staff}
use cogno_engram.Graph.State.{Entry, Graph, contains, visible_labels}
use cogno_engram.Graph.Valid.{HasKey}
use cogno_engram.Graph.Read.{of_type, visible_entries}

-- A key of an entry that a test keeps is among the keys of what it keeps.
keys-kept :
    (f : Entry → Str) (q : Entry → Bool) (xs : List Entry)
    → All (λ e. f e ≡ e.key) xs
    → All (λ e. q e ≡ true → contains e.key (map f (filter q xs)) ≡ true) xs
keys-kept f q [] h = tt
keys-kept f q (e ∷ es) h = elim (Bool-cases (q e)) [
  | inl kept ↦ (
    λ _. rw (kept, h.0, str_eq_self e.key) refl,
    All-map _ _ es (λ x k y. rw kept (ground (arith, k y))) (keys-kept f q es h.1),
  )
  | inr gone ↦
      (λ y. absurd (ground arith), All-map _ _ es (λ x k y. rw gone (k y)) (keys-kept f q es h.1))
]

map-map_node :
    (f : GraphNode → Str) (xs : List Entry) → map f (map (λ e. e.node) xs) ≡ map (λ e. f e.node) xs
map-map_node f [] = refl
map-map_node f (x ∷ xs) = ap (λ r. f x.node ∷ r) (map-map_node f xs)

every_type : (ns : List GraphNode) → filter (of_type none) ns ≡ ns
every_type [] = refl
every_type (n ∷ ns) = ap (λ r. n ∷ r) (every_type ns)

take_all : (k : ℕ) (ns : List GraphNode) → length ns ≤ k → take k ns ≡ ns
take_all zero [] h = refl
take_all zero (n ∷ ns) h = absurd (omega arith)
take_all (suc k) [] h = refl
take_all (suc k) (n ∷ ns) h = ap (λ r. n ∷ r) (take_all k ns (omega arith))

length-map_node : (xs : List Entry) → length (map (λ e. e.node) xs) ≡ length xs
length-map_node [] = refl
length-map_node (x ∷ xs) = ap suc (length-map_node xs)

own_keys : (xs : List Entry) → All (λ e. e.key ≡ e.key) xs
own_keys [] = tt
own_keys (x ∷ xs) = (refl, own_keys xs)

module _ (uni : Unicode) (scope : Str) (g : Graph) where
  -- Staff sees every entry of the scope.
  visible_entries-staff :
      All
        (λ e.
          str_eq e.scope scope ≡ true
          → (str_eq e.scope scope && contains e.key (visible_labels uni scope audience_staff g))
            ≡ true)
        g.nodes
  unfolding visible_labels str_eq
  visible_entries-staff =
      All-map _ _ g.nodes (λ e k h. rw (h, k h) refl)
        (keys-kept (λ e. e.key) (λ e. str_eq e.scope scope) g.nodes (own_keys g.nodes))

  visible_entries-short :
      (limit : ℕ)
      → length g.nodes ≤ limit
      → length (map (λ e. e.node) (visible_entries uni scope audience_staff g)) ≤ limit
  unfolding visible_entries
  visible_entries-short limit enough = omega (
    arith,
    length-map_node (visible_entries uni scope audience_staff g),
    length-filter-le
        (λ e. str_eq e.scope scope && contains e.key (visible_labels uni scope audience_staff g))
        g.nodes,
    enough,
  )

  -- The folded labels of the nodes that are listed for staff.
  abbrev pub listed : ℕ → List Str
  listed limit =
      map (λ n. fold_label uni n.label)
        (take limit
          (filter (of_type none) (map (λ e. e.node) (visible_entries uni scope audience_staff g))))

  listed_all :
      (limit : ℕ)
      → length g.nodes ≤ limit
      → map (λ e. fold_label uni e.node.label) (visible_entries uni scope audience_staff g)
        ≡ listed limit
  listed_all limit enough =
      rw
        (
          every_type (map (λ e. e.node) (visible_entries uni scope audience_staff g)),
          take_all limit (map (λ e. e.node) (visible_entries uni scope audience_staff g))
              (visible_entries-short limit enough),
          map-map_node (λ n. fold_label uni n.label) (visible_entries uni scope audience_staff g),
        )
        refl

  -- A list that is long enough shows every node of the scope.
  pub list_nodes-all :
      (limit : ℕ)
      → length g.nodes ≤ limit
      → All (HasKey uni) g.nodes
      → All (λ e. str_eq e.scope scope ≡ true → contains e.key (listed limit) ≡ true) g.nodes
  unfolding visible_entries
  list_nodes-all limit enough keyed =
      subst (λ ls. All (λ e. str_eq e.scope scope ≡ true → contains e.key ls ≡ true) g.nodes)
        (listed_all limit enough)
        (All-map _ _ g.nodes (λ e both h. both.1 (both.0 h))
          (All-both _ _ g.nodes visible_entries-staff (
            keys-kept (λ e. fold_label uni e.node.label)
              (λ e.
                str_eq e.scope scope && contains e.key (visible_labels uni scope audience_staff g))
              g.nodes (All-map _ _ g.nodes (λ e k. k.1) keyed))))
