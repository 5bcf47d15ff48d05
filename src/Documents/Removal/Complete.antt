-- ===== src/Documents/Removal/Complete.antt =====
-- in_memory.py: `_remove` and `delete_document`, over a store whose rows belong together.
use cogno_engram.Prelude.{
  ℕ, ◌≡◌, refl, ◌∙◌, sym, ap, subst, Bool, true, false, not, ◌&&◌, none, some, List, [], ◌∷◌, ◌++◌,
  map, arith, filter, any, ◌==◌, leb, sort_by, Bool-cases, Option-cases, ◌⊎◌, inl, inr, All,
  All-map, All-Memᴰ, All-filter_imp, any-filter,
}
use cogno_engram.Text.{Str, str_eq, str_eq_iff, str_eq_self}
use cogno_engram.Errors.{ok}
use cogno_engram.Types.{Date}
use cogno_engram.Documents.Rules.{require_owner, tombstone_deleted, TombstoneKind}
use cogno_engram.Documents.State.{DocRow, VersionRow, Documents, owned, versions_of, bury}
use cogno_engram.Prelude.{any-sort_by, any-map, any-filter_and, any-at}
use cogno_engram.Documents.State.Dropping.{survives, drop_versions-rows}
use cogno_engram.Documents.Removal.{remove_document, delete_document}

-- Every entry of the other tables belongs to a version that is there, and an original to a document of
-- its own owner.
pub record Attached (st : Documents) : Type 0 where
  pub of_chunks :
      All
        (λ c.
          any (λ v. str_eq v.document_id c.document_id && (v.version == c.version)) st.versions
          ≡ true)
        st.chunks
  pub of_originals :
      All
        (λ o.
          any (λ v. str_eq v.document_id o.document_id && (v.version == o.version)) st.versions
          ≡ true)
        st.originals
  pub of_drafts :
      All
        (λ d.
          any (λ v. str_eq v.document_id d.document_id && (v.version == d.version)) st.versions
          ≡ true)
        st.drafts
  pub of_owners :
      All
        (λ o. any (λ d. str_eq d.id o.document_id && str_eq d.owner_key o.owner_key) st.docs ≡ true)
        st.originals

-- The numbers of all the versions of a document.
abbrev pub numbers : Str → List VersionRow → List ℕ
numbers document_id versions =
    map (λ v. v.version)
      (sort_by (λ a b. leb a.version b.version)
        (filter (λ v. str_eq v.document_id document_id) versions))

any-numbers :
    (document_id : Str) (p : ℕ → Bool) (versions : List VersionRow)
    → any p (numbers document_id versions)
      ≡ any (λ v. str_eq v.document_id document_id && p v.version) versions
any-numbers document_id p versions =
    any-map p _ _
    ∙ any-sort_by _ (λ v. p v.version) _
    ∙ any-filter_and (λ v. p v.version) (λ v. str_eq v.document_id document_id) versions

any-imp {ℓ} :
    {A : Type ℓ} (p q : A → Bool) (xs : List A)
    → ((x : A) → p x ≡ true → q x ≡ true)
    → any p xs ≡ true
    → any q xs ≡ true
any-imp p q [] f h = h
any-imp p q (x ∷ xs) f h = ground (arith, f x, any-imp p q xs f)

-- Of a list whose entries have versions, the drop of all versions of a document takes exactly the
-- entries of that document.
all_dropped {ℓ} :
    {A : Type ℓ} (document : A → Str) (number : A → ℕ) (document_id : Str)
    (versions : List VersionRow) (xs : List A)
    → All
        (λ x.
          any (λ v. str_eq v.document_id (document x) && (v.version == number x)) versions ≡ true)
        xs
    → filter (λ x. survives document_id (numbers document_id versions) (document x) (number x)) xs
      ≡ filter (λ x. not (str_eq (document x) document_id)) xs
all_dropped document number document_id versions [] h = refl
all_dropped document number document_id versions (x ∷ xs) h =
    elim (Bool-cases (str_eq (document x) document_id)) [
      | inl own ↦
          let taken : any (λ n. number x == n) (numbers document_id versions) ≡ true =
            any-numbers document_id (λ n. number x == n) versions
            ∙ any-imp _ _ versions
                (λ v k. ground (
                  arith,
                  own,
                  k,
                  str_eq_iff v.document_id (document x),
                  str_eq_iff (document x) document_id,
                  str_eq_iff v.document_id document_id,
                ))
                h.0 in
          rw (own, taken) (all_dropped document number document_id versions xs h.1)
      | inr other ↦ rw other (ap (◌∷◌ x) (all_dropped document number document_id versions xs h.1))
    ]

versions-attached :
    (versions : List VersionRow)
    → All
        (λ w.
          any (λ v. str_eq v.document_id w.document_id && (v.version == w.version)) versions ≡ true)
        versions
versions-attached versions =
    All-map _ _ versions
      (λ w m.
        any-at (λ v. str_eq v.document_id w.document_id && (v.version == w.version)) versions
          {x = w} m (ground (arith, str_eq_self w.document_id)))
      (All-Memᴰ versions)

pub remove_document-rows :
    (now : Date) (row : DocRow) (kind : TombstoneKind) (actor : Str) (st : Documents)
    → Attached st
    → ((remove_document now row kind actor st).docs
        ≡ filter (λ d. not (str_eq d.id row.id)) st.docs)
      × ((remove_document now row kind actor st).versions
          ≡ filter (λ v. not (str_eq v.document_id row.id)) st.versions)
      × ((remove_document now row kind actor st).chunks
          ≡ filter (λ c. not (str_eq c.document_id row.id)) st.chunks)
      × ((remove_document now row kind actor st).originals
          ≡ filter (λ o. not (str_eq o.document_id row.id)) st.originals)
      × ((remove_document now row kind actor st).drafts
          ≡ filter (λ d. not (str_eq d.document_id row.id)) st.drafts)
      × ((remove_document now row kind actor st).tombstones
          ≡ st.tombstones
            ++ record {
              owner_key = row.owner_key;
              document_id = row.id;
              versions = numbers row.id st.versions;
              kind = kind;
              actor = actor;
              removed_at = now;
              reason = [];
            }
              ∷ [])
unfolding remove_document versions_of bury
remove_document-rows now row kind actor st a =
    let (docs, tombs, versions, chunks, originals, drafts) =
      drop_versions-rows row.id (numbers row.id st.versions) st in
    (
      ap (filter (λ d. not (str_eq d.id row.id))) docs,
      versions
          ∙ all_dropped (λ v. v.document_id) (λ v. v.version) row.id st.versions st.versions
              (versions-attached st.versions),
      chunks
          ∙ all_dropped (λ v. v.document_id) (λ v. v.version) row.id st.versions st.chunks
              a.of_chunks,
      originals
          ∙ all_dropped (λ v. v.document_id) (λ v. v.version) row.id st.versions st.originals
              a.of_originals,
      drafts
          ∙ all_dropped (λ v. v.document_id) (λ v. v.version) row.id st.versions st.drafts
              a.of_drafts,
      ap
          (λ ts.
            ts
            ++ record {
              owner_key = row.owner_key;
              document_id = row.id;
              versions = numbers row.id st.versions;
              kind = kind;
              actor = actor;
              removed_at = now;
              reason = [];
            }
              ∷ [])
          tombs,
    )

still_attached {ℓ} :
    {A : Type ℓ} {B : Type ℓ} (document : A → Str) (owner_of : B → Str) (q : A → B → Bool)
    (document_id : Str) (rows : List B) (xs : List A)
    → ((x : A) (r : B) → q x r ≡ true → owner_of r ≡ document x)
    → All (λ x. any (q x) rows ≡ true) xs
    → All
        (λ x. any (q x) (filter (λ r. not (str_eq (owner_of r) document_id)) rows) ≡ true)
        (filter (λ x. not (str_eq (document x) document_id)) xs)
still_attached document owner_of q document_id rows xs same h =
    All-filter_imp _ _ _ xs
      (λ x other k.
        any-filter (q x) (λ r. not (str_eq (owner_of r) document_id)) rows
          (λ r e. subst (λ i. not (str_eq i document_id) ≡ true) (sym (same x r e)) other)
        ∙ k)
      h

pub remove_document-Attached :
    (now : Date) (row : DocRow) (kind : TombstoneKind) (actor : Str) (st : Documents)
    → Attached st
    → Attached (remove_document now row kind actor st)
remove_document-Attached now row kind actor st a =
    let (docs, versions, chunks, originals, drafts, tombs) =
      remove_document-rows now row kind actor st a in
    record {
      of_chunks =
          rw (versions, chunks)
            (still_attached (λ c. c.document_id) (λ v. v.document_id)
              (λ c v. str_eq v.document_id c.document_id && (v.version == c.version)) row.id
              st.versions st.chunks
              (λ c v e. (str_eq_iff v.document_id c.document_id).0 (ground (arith, e)))
              a.of_chunks);
      of_originals =
          rw (versions, originals)
            (still_attached (λ c. c.document_id) (λ v. v.document_id)
              (λ c v. str_eq v.document_id c.document_id && (v.version == c.version)) row.id
              st.versions st.originals
              (λ c v e. (str_eq_iff v.document_id c.document_id).0 (ground (arith, e)))
              a.of_originals);
      of_drafts =
          rw (versions, drafts)
            (still_attached (λ c. c.document_id) (λ v. v.document_id)
              (λ c v. str_eq v.document_id c.document_id && (v.version == c.version)) row.id
              st.versions st.drafts
              (λ c v e. (str_eq_iff v.document_id c.document_id).0 (ground (arith, e)))
              a.of_drafts);
      of_owners =
          rw (docs, originals)
            (still_attached (λ o. o.document_id) (λ d. d.id)
              (λ o d. str_eq d.id o.document_id && str_eq d.owner_key o.owner_key) row.id st.docs
              st.originals (λ o d e. (str_eq_iff d.id o.document_id).0 (ground (arith, e)))
              a.of_owners);
    }

-- Deleting a document, in a store whose content all belongs to versions, returns. Of a document of the
-- owner no row is left, not of it nor of its versions, chunks, originals and drafts, every row of another
-- document stays, and one tombstone names its owner, its id, all its versions and who asked. Of any
-- other id the store stays as it was.
pub delete_document_complete :
    (now : Date) (owner_key document_id actor : Str) (st : Documents)
    → require_owner owner_key ≡ ok tt
    → Attached st
    → (st' : Documents) × Attached st'
      × (((owned owner_key document_id st ≡ none)
            × (st' ≡ st)
            × (delete_document now owner_key document_id actor st ≡ ok (st', false)))
          ⊎ ((row : DocRow) × (owned owner_key document_id st ≡ some row)
              × (delete_document now owner_key document_id actor st ≡ ok (st', true))
              × (st'.docs ≡ filter (λ d. not (str_eq d.id row.id)) st.docs)
              × (st'.versions ≡ filter (λ v. not (str_eq v.document_id row.id)) st.versions)
              × (st'.chunks ≡ filter (λ c. not (str_eq c.document_id row.id)) st.chunks)
              × (st'.originals ≡ filter (λ o. not (str_eq o.document_id row.id)) st.originals)
              × (st'.drafts ≡ filter (λ d. not (str_eq d.document_id row.id)) st.drafts)
              × (st'.tombstones
                  ≡ st.tombstones
                    ++ record {
                      owner_key = row.owner_key;
                      document_id = row.id;
                      versions = numbers row.id st.versions;
                      kind = tombstone_deleted;
                      actor = actor;
                      removed_at = now;
                      reason = [];
                    }
                      ∷ [])))
unfolding delete_document
delete_document_complete now owner_key document_id actor st allowed a =
    elim (Option-cases (owned owner_key document_id st)) [
      | inl missing ↦ (st, a, inl (missing, refl, rw (allowed, missing)))
      | inr (row, found) ↦
          let (docs, versions, chunks, originals, drafts, tombs) =
            remove_document-rows now row tombstone_deleted actor st a in
          (
            remove_document now row tombstone_deleted actor st,
            remove_document-Attached now row tombstone_deleted actor st a,
            inr (row, found, rw (allowed, found), docs, versions, chunks, originals, drafts, tombs),
          )
    ]
