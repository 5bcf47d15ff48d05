-- ===== src/Documents/Ingest/Swap.antt =====
-- in_memory.py, `commit_version`: what the swap of a version writes, keeps and drops.
use cogno_engram.Prelude.{
  not_none, some_same, ℕ, ◌≡◌, refl, ◌∙◌, sym, ap, subst, Bool, true, false, ◌&&◌, none, some, List,
  [], ◌∷◌, map, arith, if◌then◌else◌, filter, any, find?, find?-passes, update_first, length, leb,
  ltb, ◌==◌, sort_by, Bool-cases, inl, inr, All, All-Memᴰ, All-map, All-filter_imp, Option-cases,
}
use cogno_engram.Text.{Str, str_eq, str_eq_iff, is_empty}
use cogno_engram.Types.{Date}
use cogno_engram.Documents.Rules.{kb_ready}
use cogno_engram.Documents.State.{
  VersionRow, DocRow, Documents, is_version, is_entry, owned, version_at, versions_of, chunks_at,
  drop_versions, supersede_tombstone, bury, set_version, set_document,
}
use cogno_engram.Prelude.{any-sort_by, any-map, any-filter_and, any-at, find?-filter}
use cogno_engram.Documents.State.Dropping.{survives, drop_versions-rows}
use cogno_engram.Documents.State.Ownership.{find?-set}
use cogno_engram.Documents.Ingest.{swap}

-- What the swap writes on the row of the version, and what it drops.
abbrev pub ready_version : Date → ℕ → ℕ → VersionRow → VersionRow
ready_version now pages count v = record v {
  state = kb_ready;
  reason = [];
  finished_at = some now;
  pages = pages;
  chunks = count;
}

supersede-rows :
    (row : DocRow) (ns : List ℕ) (now : Date) (st : Documents)
    → ((supersede_tombstone row ns now st).docs ≡ st.docs)
      × ((supersede_tombstone row ns now st).versions ≡ st.versions)
      × ((supersede_tombstone row ns now st).chunks ≡ st.chunks)
unfolding supersede_tombstone bury
supersede-rows row ns now st = elim (Bool-cases (is_empty ns)) [
  | inl e ↦ (rw e, rw e, rw e)
  | inr e ↦ (rw e, rw e, rw e)
]

-- The numbers of the older versions of a document.
abbrev older : Str → ℕ → List VersionRow → List ℕ
older document_id n versions =
    map (λ w. w.version)
      (filter (λ w. ltb w.version n)
        (sort_by (λ a b. leb a.version b.version)
          (filter (λ w. str_eq w.document_id document_id) versions)))

any-older :
    (document_id : Str) (n : ℕ) (p : ℕ → Bool) (versions : List VersionRow)
    → any p (older document_id n versions)
      ≡ any (λ w. str_eq w.document_id document_id && (ltb w.version n && p w.version)) versions
any-older document_id n p versions =
    any-map p _ _
    ∙ any-filter_and (λ w. p w.version) (λ w. ltb w.version n) _
    ∙ any-sort_by _ (λ w. ltb w.version n && p w.version) _
    ∙ any-filter_and (λ w. ltb w.version n && p w.version) (λ w. str_eq w.document_id document_id)
        versions

any-none {ℓ} :
    {A : Type ℓ} (p : A → Bool) (xs : List A) → ((x : A) → p x ≡ false) → any p xs ≡ false
any-none p [] h = refl
any-none p (x ∷ xs) h = ground (arith, h x, any-none p xs h)

-- The version itself is not among the older ones.
swapped-survives :
    (document_id : Str) (n : ℕ) (versions : List VersionRow) (d : Str)
    → survives document_id (older document_id n versions) d n ≡ true
swapped-survives document_id n versions d = ground (
  arith,
  any-older document_id n (λ k. n == k) versions,
  any-none (λ w. str_eq w.document_id document_id && (ltb w.version n && (n == w.version))) versions
      (λ w. ground arith),
)

survivors-newer :
    (document_id : Str) (n : ℕ) (versions : List VersionRow)
    → All
        (λ w. str_eq w.document_id document_id ≡ true → leb n w.version ≡ true)
        (filter
          (λ w. survives document_id (older document_id n versions) w.document_id w.version)
          versions)
survivors-newer document_id n versions =
    All-filter_imp
      (λ w.
        any (λ k. w.version == k) (older document_id n versions) ≡ false
        → str_eq w.document_id document_id ≡ true
        → leb n w.version ≡ true)
      _ _ versions (λ w kept h own. h (ground (arith, kept, own)) own)
      (All-map _ _ versions
        (λ w m spared own. elim (Bool-cases (leb n w.version)) [
          | inl e ↦ e
          | inr e ↦ absurd (
              clash
                (any-older document_id n (λ k. w.version == k) versions
                  ∙ any-at
                      (λ u.
                        str_eq u.document_id document_id
                        && (ltb u.version n && (w.version == u.version)))
                      versions {x = w} m (ground (arith, own, e)))
                spared)
        ])
        (All-Memᴰ versions))
  where
    clash : {b : Bool} → b ≡ true → b ≡ false → ⊥
    clash h k = cc

find?-document :
    (document_id : Str) (f : DocRow → DocRow) (docs : List DocRow) {row : DocRow}
    → ((d : DocRow) → (f d).id ≡ d.id)
    → find? (λ d. str_eq d.id document_id) docs ≡ some row
    → find? (λ d. str_eq d.id document_id) (update_first (λ d. str_eq d.id row.id) f docs)
      ≡ some (f row)
find?-document document_id f docs {row} same h =
    let found = find?-passes (λ d. str_eq d.id document_id) docs h in
    go ((str_eq_iff row.id document_id).0 found)
  where
    go :
        {d : Str}
        → d ≡ document_id
        → find? (λ e. str_eq e.id document_id) (update_first (λ e. str_eq e.id d) f docs)
          ≡ some (f row)
    go e = rw e (
        find?-set (λ d. str_eq d.id document_id) f docs
          (λ d. ap (λ i. str_eq i document_id) (same d)) h)

-- A row that is found for its owner is found changed, its id and its owner kept.
owned-update :
    (owner document_id : Str) (f : DocRow → DocRow) (st st' : Documents) {row : DocRow}
    → ((d : DocRow) → (f d).id ≡ d.id)
    → ((d : DocRow) → (f d).owner_key ≡ d.owner_key)
    → st'.docs ≡ update_first (λ d. str_eq d.id row.id) f st.docs
    → owned owner document_id st ≡ some row
    → owned owner document_id st' ≡ some (f row)
unfolding owned
owned-update owner document_id f st st' {row} same_id same_owner e h =
    elim (Option-cases (find? (λ d. str_eq d.id document_id) st.docs)) [
      | inl none_found ↦ absurd (not_none (rw (owned, none_found) at h))
      | inr (d, found) ↦
          let both = owner_of d (rw (owned, found) at h) in
          let found' =
            ap (find? (λ d. str_eq d.id document_id)) e
            ∙ find?-document document_id f st.docs {row = row} same_id (found ∙ ap some both.1) in
          rw (
            owned,
            found',
            same_owner row,
            subst (λ d. str_eq d.owner_key owner ≡ true) both.1 both.0,
          )
    ]
  where
    owner_of :
        (d : DocRow)
        → (if str_eq d.owner_key owner then some d else none) ≡ some row
        → (str_eq d.owner_key owner ≡ true) × (d ≡ row)
    owner_of d k = elim (Bool-cases (str_eq d.owner_key owner)) [
      | inl t ↦ (t, some_same (rw t at k))
      | inr f ↦ absurd (not_none (rw f at k))
    ]

swap-rows :
    (now : Date) (row : DocRow) (v : VersionRow) (pages : ℕ) (st : Documents)
    → ((swap now row v pages st).docs
        ≡ update_first
            (λ d. str_eq d.id row.id)
            (λ d. record d { active_version = some v.version; updated_at = some now })
            st.docs)
      × ((versions : List VersionRow) × (versions
            ≡ update_first
                (is_version row.id v.version)
                (ready_version now pages (length (chunks_at row.id v.version st)))
                st.versions)
          × ((swap now row v pages st).versions
              ≡ filter
                  (λ w. survives row.id (older row.id v.version versions) w.document_id w.version)
                  versions)
          × ((swap now row v pages st).chunks
              ≡ filter
                  (λ c. survives row.id (older row.id v.version versions) c.document_id c.version)
                  st.chunks))
unfolding swap versions_of
swap-rows now row v pages st =
    let st1 =
      set_document row.id (λ d. record d { active_version = some v.version; updated_at = some now })
        (set_version row.id v.version
          (ready_version now pages (length (chunks_at row.id v.version st))) st) in
    let ns = older row.id v.version st1.versions in
    let (docs1, tombs1, versions1, chunks1, originals1, drafts1) =
      drop_versions-rows row.id ns st1 in
    let (docs2, versions2, chunks2) = supersede-rows row ns now (drop_versions row.id ns st1) in
    (docs2 ∙ docs1, (st1.versions, refl, versions2 ∙ versions1, chunks2 ∙ chunks1))

survives_key :
    (document_id : Str) (n : ℕ) (versions : List VersionRow) (d : Str) (m : ℕ)
    → (str_eq d document_id && (m == n)) ≡ true
    → survives document_id (older document_id n versions) d m ≡ true
survives_key document_id n versions d m h =
    let same : m ≡ n = ground (arith, h) in rw same (swapped-survives document_id n versions d)

-- The swap of a version that is there.
pub swap-serves :
    (now : Date) (owner document_id : Str) (row : DocRow) (v : VersionRow) (pages : ℕ)
    (st : Documents)
    → owned owner document_id st ≡ some row
    → version_at row.id v.version st ≡ some v
    → (owned owner document_id (swap now row v pages st)
        ≡ some (record row { active_version = some v.version; updated_at = some now }))
      × (version_at row.id v.version (swap now row v pages st)
          ≡ some (ready_version now pages (length (chunks_at row.id v.version st)) v))
      × All
          (λ w. str_eq w.document_id row.id ≡ true → leb v.version w.version ≡ true)
          (swap now row v pages st).versions
      × (chunks_at row.id v.version (swap now row v pages st) ≡ chunks_at row.id v.version st)
unfolding version_at chunks_at
swap-serves now owner document_id row v pages st found there =
    let (docs, (versions, e, kept, chunks)) = swap-rows now row v pages st in
    (
      owned-update owner document_id
          (λ d. record d { active_version = some v.version; updated_at = some now }) st
          (swap now row v pages st) (λ d. refl) (λ d. refl) docs found,
      ap (find? (is_version row.id v.version)) kept
          ∙ find?-filter (is_version row.id v.version) _ versions
              (λ w h. survives_key row.id v.version versions w.document_id w.version h)
          ∙ ap (find? (is_version row.id v.version)) e
          ∙ find?-set (is_version row.id v.version)
              (ready_version now pages (length (chunks_at row.id v.version st))) st.versions
              (λ w. refl) there,
      subst (All (λ w. str_eq w.document_id row.id ≡ true → leb v.version w.version ≡ true))
          (sym kept) (survivors-newer row.id v.version versions),
      ap (λ o. elim o [ none ↦ [] | some c ↦ c.rows ])
          (ap (find? (is_entry row.id v.version)) chunks
            ∙ find?-filter (is_entry row.id v.version) _ st.chunks
                (λ c h. survives_key row.id v.version versions c.document_id c.version h)),
    )
