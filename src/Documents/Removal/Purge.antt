-- ===== src/Documents/Removal/Purge.antt =====
-- in_memory.py: `purge_owner_subtree` and `stored_original_bytes`.
use cogno_engram.Prelude.{
  ◌≡◌, refl, ◌∙◌, sym, ap, subst, Bool, true, false, not, ◌&&◌, ◌||◌, List, [], ◌∷◌, arith, filter,
  any, length, Bool-cases, inl, inr, All, All-map, All-filter_imp, All-Memᴰ,
}
use cogno_engram.Text.{Str, str_eq, str_eq_iff, str_eq_self}
use cogno_engram.Errors.{ok}
use cogno_engram.Types.{Date}
use cogno_engram.Documents.Rules.{require_owner, owner_in_subtree, TombstoneKind, tombstone_purged}
use cogno_engram.Documents.State.{DocRow, Original, Documents}
use cogno_engram.Prelude.{any-at, any-filter_and}
use cogno_engram.Documents.Removal.{
  remove_document, remove_all, in_subtree, purge_owner_subtree, original_bytes,
  stored_original_bytes,
}
use cogno_engram.Documents.Removal.Complete.{
  Attached, remove_document-rows, remove_document-Attached,
}

remove_all-rows :
    (now : Date) (kind : TombstoneKind) (actor : Str) (rows : List DocRow) (st : Documents)
    → Attached st
    → Attached (remove_all now kind actor rows st)
      × ((remove_all now kind actor rows st).docs
          ≡ filter (λ d. not (any (λ r. str_eq d.id r.id) rows)) st.docs)
remove_all-rows now kind actor [] st a = (a, sym (all_kept st.docs))
  where
    all_kept : (ds : List DocRow) → filter (λ d. true) ds ≡ ds
    all_kept [] = refl
    all_kept (d ∷ ds) = ap (◌∷◌ d) (all_kept ds)
remove_all-rows now kind actor (row ∷ rows) st a =
    let (a', docs) =
      remove_all-rows now kind actor rows (remove_document now row kind actor st)
        (remove_document-Attached now row kind actor st a) in
    (
      a',
      docs
          ∙ ap (filter (λ d. not (any (λ r. str_eq d.id r.id) rows)))
              (remove_document-rows now row kind actor st a).0
          ∙ both st.docs,
    )
  where
    both :
        (ds : List DocRow)
        → filter
            (λ d. not (any (λ r. str_eq d.id r.id) rows))
            (filter (λ d. not (str_eq d.id row.id)) ds)
          ≡ filter (λ d. not (str_eq d.id row.id || any (λ r. str_eq d.id r.id) rows)) ds
    both [] = refl
    both (d ∷ ds) = ground (arith, both ds)

no_bytes :
    (owner_prefix : Str) (docs : List DocRow) (os : List Original)
    → All (λ d. in_subtree owner_prefix d ≡ false) docs
    → All
        (λ o. any (λ d. str_eq d.id o.document_id && str_eq d.owner_key o.owner_key) docs ≡ true)
        os
    → original_bytes owner_prefix os ≡ 0
unfolding original_bytes
no_bytes owner_prefix docs [] h k = refl
no_bytes owner_prefix docs (o ∷ os) h k =
    rw (outside docs h k.0) (no_bytes owner_prefix docs os h k.1)
  where
    outside :
        (ds : List DocRow)
        → All (λ d. in_subtree owner_prefix d ≡ false) ds
        → any (λ d. str_eq d.id o.document_id && str_eq d.owner_key o.owner_key) ds ≡ true
        → owner_in_subtree o.owner_key owner_prefix ≡ false
    outside [] h e = absurd (cc)
    outside (d ∷ ds) h e = elim (Bool-cases (str_eq d.owner_key o.owner_key)) [
      | inl same ↦
          subst (λ w. owner_in_subtree w owner_prefix ≡ false)
            ((str_eq_iff d.owner_key o.owner_key).0 same) h.0
      | inr other ↦ outside ds h.1 (ground (arith, other, e))
    ]

named :
    (p : DocRow → Bool) (docs : List DocRow)
    → All (λ d. p d ≡ true → any (λ r. str_eq d.id r.id) (filter p docs) ≡ true) docs
named p docs =
    All-map _ _ docs
      (λ d m h.
        any-filter_and (λ r. str_eq d.id r.id) p docs
        ∙ any-at (λ r. p r && str_eq d.id r.id) docs {x = d} m
            (ground (arith, h, str_eq_self d.id)))
      (All-Memᴰ docs)

-- A purge of a subtree, in a store whose content all belongs to versions and owners, returns how many
-- documents it removed. No document of the subtree is left and no byte of an original of the subtree,
-- and every document that shares its id with none of the removed ones stays.
pub purge_owner_subtree_complete :
    (now : Date) (owner_prefix actor : Str) (st : Documents)
    → require_owner owner_prefix ≡ ok tt
    → Attached st
    → (st' : Documents) × (purge_owner_subtree now owner_prefix actor st
        ≡ ok (st', length (filter (in_subtree owner_prefix) st.docs)))
      × Attached st'
      × All (λ d. in_subtree owner_prefix d ≡ false) st'.docs
      × (stored_original_bytes owner_prefix st' ≡ ok 0)
      × (st'.docs
          ≡ filter
              (λ d. not (any (λ r. str_eq d.id r.id) (filter (in_subtree owner_prefix) st.docs)))
              st.docs)
unfolding purge_owner_subtree stored_original_bytes
purge_owner_subtree_complete now owner_prefix actor st allowed a =
    let rows = filter (in_subtree owner_prefix) st.docs in
    let (a', docs) = remove_all-rows now tombstone_purged actor rows st a in
    let gone : All (λ d. in_subtree owner_prefix d ≡ false)
        (remove_all now tombstone_purged actor rows st).docs =
      subst (All (λ d. in_subtree owner_prefix d ≡ false)) (sym docs) (
        All-filter_imp
          (λ d. in_subtree owner_prefix d ≡ true → any (λ r. str_eq d.id r.id) rows ≡ true) _ _
          st.docs
          (λ d kept h. elim (Bool-cases (in_subtree owner_prefix d)) [
            | inl inside ↦ absurd (clash (h inside) kept)
            | inr outside ↦ outside
          ])
          (named (in_subtree owner_prefix) st.docs)) in
    (
      remove_all now tombstone_purged actor rows st,
      rw allowed,
      a',
      gone,
      rw allowed (ap ok (no_bytes owner_prefix _ _ gone a'.of_owners)),
      docs,
    )
  where
    clash : {b : Bool} → b ≡ true → not b ≡ true → ⊥
    clash h k = cc
