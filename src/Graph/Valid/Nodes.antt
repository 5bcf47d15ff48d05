-- ===== src/Graph/Valid/Nodes.antt =====
-- in_memory.py: `upsert_node` on a valid graph, and its assertion.
use cogno_engram.Prelude.{
  ◌⊎◌, not, filter, filter-snoc, filter-update_first, find?-snoc, find?-update_first_found, ℕ, ◌+◌,
  ◌≡◌, refl, ◌∙◌, true, false, ◌&&◌, ◌||◌, none, some, [], ◌∷◌, arith, All-append, All-map,
  All-update_first, All_find?, Pairwise-snoc, Pairwise-update_first, any-append, any-update_first,
  find?, All_find?, any_of_find?, any_of_find?-none, All-both, All-not_any, update_first,
  Option-cases, inl, inr,
}
use cogno_engram.Text.{Str, str_eq, str_eq_iff, str_eq_comm, str_eq_self}
use cogno_engram.Errors.{ok}
use cogno_engram.Folding.{Unicode, fold_label, has_diacritics}
use cogno_engram.Types.{Date, Vector, GraphNode, merge}
use cogno_engram.Graph.State.{Entry, Graph, require_scope, at_key, get_node, has_node}
use cogno_engram.Graph.Write.{
  or_else, better_label, revise_node, new_entry, insert_node, upsert_node,
}
use cogno_engram.Graph.Valid.{HasId, HasKey, Differ, HasEnds, IsValid}

-- Two entries under one key cannot stand at different keys.
at_key_trans :
    (scope key : Str) (a b : Entry)
    → at_key scope key a ≡ true
    → at_key a.scope a.key b ≡ at_key scope key b
unfolding at_key
at_key_trans scope key a b h = ground (arith, str_eq_iff a.scope scope, str_eq_iff a.key key)

-- What a write makes of the node that was there: it keeps what identifies it, merges the attributes,
-- takes a vector where one is given, and a label only for its diacritics.
pub record Revises (uni : Unicode) (now : Date) (node old new : GraphNode) : Type 0 where
  pub scope : new.scope ≡ old.scope
  pub id : new.id ≡ old.id
  pub node_type : new.node_type ≡ old.node_type
  pub created_at : new.created_at ≡ old.created_at
  pub updated_at : new.updated_at ≡ some now
  pub attributes : new.attributes ≡ merge old.attributes node.attributes
  pub same_vector : node.embedding ≡ none → new.embedding ≡ old.embedding
  pub new_vector : (v : Vector) → node.embedding ≡ some v → new.embedding ≡ some v
  pub kept_label : has_diacritics uni old.label ≡ true → new.label ≡ old.label
  pub plain_label : has_diacritics uni node.label ≡ false → new.label ≡ old.label
  pub better_label :
      has_diacritics uni node.label ≡ true
      → has_diacritics uni old.label ≡ false
      → new.label ≡ node.label

get_node_found :
    (scope k : Str) (g : Graph) {e : Entry}
    → find? (at_key scope k) g.nodes ≡ some e
    → get_node scope k g ≡ some e.node
unfolding get_node
get_node_found scope k g h = rw (get_node, h) refl

get_node_missing :
    (scope k : Str) (g : Graph) → find? (at_key scope k) g.nodes ≡ none → get_node scope k g ≡ none
unfolding get_node
get_node_missing scope k g h = rw (get_node, h) refl

module _ (uni : Unicode) (now : Date) (node : GraphNode) where
  revise_node-Revises : (old : GraphNode) → Revises uni now node old (revise_node uni now node old)
  unfolding revise_node better_label
  revise_node-Revises old = record {
    scope = refl;
    id = refl;
    node_type = refl;
    created_at = refl;
    updated_at = refl;
    attributes = refl;
    same_vector = λ h. rw h refl;
    new_vector = λ v h. rw h refl;
    kept_label = λ h. ground arith;
    plain_label = λ h. ground arith;
    better_label = λ h k. ground arith;
  }

  -- The node under the key of a written one: itself, with the next id and the clock where it gives no
  -- date, or the revision of the node that was there.
  abbrev pub Written : Graph → GraphNode → Type 0
  Written g new =
      ((get_node node.scope (fold_label uni node.label) g ≡ none)
        × (new ≡ record node {
          id = some g.next_id;
          created_at = or_else node.created_at now;
          updated_at = or_else node.updated_at now;
        }))
      ⊎ ((old : GraphNode) × (get_node node.scope (fold_label uni node.label) g ≡ some old)
          × Revises uni now node old new)

  key : Str
  key = fold_label uni node.label

  written : Entry → Entry
  written e = record e { node = revise_node uni now node e.node }

  update : Graph → Graph
  unfolding key written
  update g = record g { nodes = update_first (at_key node.scope key) written g.nodes }

  written-HasKey :
      (e : Entry) → at_key node.scope key e ≡ true → HasKey uni e → HasKey uni (written e)
  unfolding written revise_node better_label at_key key
  written-HasKey e t h = (h.0, ground (arith, h.1, str_eq_iff e.key (fold_label uni node.label)))

  update-has_node : (g : Graph) (scope k : Str) → has_node scope k (update g) ≡ has_node scope k g
  unfolding has_node update written at_key
  update-has_node g scope k =
      any-update_first (at_key scope k) (at_key node.scope key) written g.nodes (λ e _. refl)

  update-IsValid : (g : Graph) → IsValid uni g → IsValid uni (update g)
  unfolding update
  update-IsValid g v = record {
    keyed =
        All-update_first (HasKey uni) (at_key node.scope key) written g.nodes written-HasKey
          v.keyed;
    numbered =
        All-update_first (HasId g.next_id) (at_key node.scope key) written g.nodes
          (λ e _ h. unfold written revise_node in h) v.numbered;
    distinct =
        Pairwise-update_first (Differ uni) (at_key node.scope key) written g.nodes
          (λ a b _ h. unfold written revise_node at_key in h)
          (λ a b _ h. unfold written revise_node at_key in h) v.distinct;
    attached =
        All-map (HasEnds uni g) (HasEnds uni (update g)) g.edges
          (λ e h. (update-has_node g e.scope _ ∙ h.0, update-has_node g e.scope _ ∙ h.1))
          v.attached;
    canonical = v.canonical;
    unique = v.unique;
  }

  insert-has_node :
      (g : Graph) (scope k : Str)
      → has_node scope k (insert_node uni now node g)
        ≡ (has_node scope k g || (str_eq node.scope scope && str_eq key k))
  unfolding has_node insert_node at_key key
  insert-has_node g scope k =
      ground (arith, any-append (at_key scope k) g.nodes (new_entry uni now node g.next_id ∷ []))

  kept-HasId : (next : ℕ) (e : Entry) → HasId next e → HasId (next + 1) e
  kept-HasId next e h = (h.0, h.1, omega arith)

  new-Differ :
      (next : ℕ) (e : Entry)
      → (at_key node.scope key e ≡ false) × HasId next e
      → Differ uni e (new_entry uni now node next)
  unfolding at_key new_entry key
  new-Differ next e (absent, (i, e', lt)) = (
    ground (arith, str_eq_comm node.scope e.scope, str_eq_comm (fold_label uni node.label) e.key),
    λ same. ground arith,
  )

  pub insert-IsValid :
      (g : Graph)
      → has_node node.scope (fold_label uni node.label) g ≡ false
      → IsValid uni g
      → IsValid uni (insert_node uni now node g)
  unfolding key has_node insert_node
  insert-IsValid g absent v = record {
    keyed = All-append (HasKey uni) g.nodes _ v.keyed ((refl, refl), tt);
    numbered =
        All-append (HasId (g.next_id + 1)) g.nodes _
          (All-map (HasId g.next_id) (HasId (g.next_id + 1)) g.nodes (kept-HasId g.next_id)
            v.numbered)
          ((g.next_id, refl, omega arith), tt);
    distinct = Pairwise-snoc (Differ uni) g.nodes _ v.distinct (
        All-map _ _ g.nodes (new-Differ g.next_id) (
          All-both (λ e. at_key node.scope key e ≡ false) (HasId g.next_id) g.nodes
            (All-not_any (at_key node.scope key) g.nodes absent) v.numbered));
    attached =
        All-map (HasEnds uni g) (HasEnds uni (insert_node uni now node g)) g.edges
          (λ e h. (grows g e.scope _ h.0, grows g e.scope _ h.1)) v.attached;
    canonical = v.canonical;
    unique = v.unique;
  }
    where
      grows :
          (g : Graph) (scope k : Str)
          → has_node scope k g ≡ true
          → has_node scope k (insert_node uni now node g) ≡ true
      grows g scope k h = rw (insert-has_node g scope k, h)

  -- The outcomes of the search for the key.
  found-has_node :
      (g : Graph) {e : Entry}
      → find? (at_key node.scope key) g.nodes ≡ some e
      → has_node node.scope key g ≡ true
  unfolding has_node
  found-has_node g {e} h = any_of_find? (at_key node.scope key) g.nodes h

  update_lem :
      (g : Graph) (e : Entry) (i : ℕ)
      → require_scope node.scope ≡ ok tt
      → find? (at_key node.scope key) g.nodes ≡ some e
      → e.node.id ≡ some i
      → upsert_node uni now node g ≡ ok (update g, i)
  unfolding upsert_node get_node update written key
  update_lem g e i allowed found numbered = rw (allowed, found, numbered)

  insert_lem :
      (g : Graph)
      → require_scope node.scope ≡ ok tt
      → find? (at_key node.scope key) g.nodes ≡ none
      → upsert_node uni now node g ≡ ok (insert_node uni now node g, g.next_id)
  unfolding upsert_node get_node key
  insert_lem g allowed missing = rw (allowed, missing)

  new-at_key : (i : ℕ) → at_key node.scope key (new_entry uni now node i) ≡ true
  unfolding at_key new_entry key
  new-at_key i = ground (arith, str_eq_self node.scope, str_eq_self (fold_label uni node.label))

  written-at_key : (e : Entry) → at_key node.scope key (written e) ≡ at_key node.scope key e
  unfolding at_key written
  written-at_key e = refl

  insert-get_node :
      (g : Graph)
      → find? (at_key node.scope key) g.nodes ≡ none
      → get_node node.scope key (insert_node uni now node g)
        ≡ some (new_entry uni now node g.next_id).node
  unfolding insert_node
  insert-get_node g missing = get_node_found node.scope key (insert_node uni now node g) (
      find?-snoc (at_key node.scope key) g.nodes (new_entry uni now node g.next_id)
        (any_of_find?-none (at_key node.scope key) g.nodes missing) (new-at_key g.next_id))

  update-get_node :
      (g : Graph) {e : Entry}
      → find? (at_key node.scope key) g.nodes ≡ some e
      → get_node node.scope key (update g) ≡ some (written e).node
  unfolding update
  update-get_node g {e} found =
      get_node_found node.scope key (update g)
        (find?-update_first_found (at_key node.scope key) written g.nodes written-at_key found)

  -- On a valid graph and for a scope that is not blank `upsert_node` returns: its assertion on the id
  -- never fails. The graph is valid again; under the folded label it has the new node, or the node
  -- that was there, revised; and every edge and every other entry stays as it is.
  pub upsert_node-IsValid :
      (g : Graph)
      → require_scope node.scope ≡ ok tt
      → IsValid uni g
      → (g' : Graph) × (i : ℕ) × (upsert_node uni now node g ≡ ok (g', i))
        × IsValid uni g'
        × (has_node node.scope (fold_label uni node.label) g' ≡ true)
        × (g'.edges ≡ g.edges)
        × ((scope k : Str) → has_node scope k g ≡ true → has_node scope k g' ≡ true)
        × (new : GraphNode) × (get_node node.scope (fold_label uni node.label) g' ≡ some new)
        × Written g new
        × (filter (λ e. not (at_key node.scope (fold_label uni node.label) e)) g'.nodes
            ≡ filter (λ e. not (at_key node.scope (fold_label uni node.label) e)) g.nodes)
  unfolding key
  upsert_node-IsValid g allowed v = elim (Option-cases (find? (at_key node.scope key) g.nodes)) [
    | inl missing ↦ (
      insert_node uni now node g,
      g.next_id,
      insert_lem g allowed missing,
      insert-IsValid g
          (unfold has_node in any_of_find?-none (at_key node.scope key) g.nodes missing) v,
      ground (arith, insert-has_node g node.scope key, str_eq_self node.scope, str_eq_self key),
      unfold insert_node in refl,
      λ scope k h. rw (insert-has_node g scope k, h),
      (new_entry uni now node g.next_id).node,
      insert-get_node g missing,
      unfold new_entry in inl (get_node_missing node.scope key g missing, refl),
      unfold insert_node in
          filter-snoc (at_key node.scope key) g.nodes (new_entry uni now node g.next_id)
            (new-at_key g.next_id),
    )
    | inr (e, found) ↦
        let (i, numbered, below) =
          All_find? (HasId g.next_id) (at_key node.scope key) g.nodes v.numbered found in
        (
          update g,
          i,
          update_lem g e i allowed found numbered,
          update-IsValid g v,
          update-has_node g node.scope key ∙ found-has_node g found,
          unfold update in refl,
          λ scope k h. rw (update-has_node g scope k, h),
          (written e).node,
          update-get_node g found,
          unfold written in
              inr (e.node, get_node_found node.scope key g found, revise_node-Revises e.node),
          unfold update in
              filter-update_first (at_key node.scope key) written g.nodes written-at_key,
        )
  ]
