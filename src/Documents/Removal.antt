-- ===== src/Documents/Removal.antt =====
-- in_memory.py: the removals of `InMemoryDocumentStore`, and the tombstones they leave.
pub mod Complete
pub mod Purge
use cogno_engram.Prelude.{
  ℕ, ◌+◌, ◌-◌, ◌≡◌, Bool, true, false, not, ◌&&◌, ◌||◌, Option, none, some, List, [], ◌∷◌, ◌++◌,
  map, if◌then◌else◌, filter, find?, length, leb, sort_by, take,
}
use cogno_engram.Text.{Str, codes, str_eq}
use cogno_engram.Errors.{Result, ok, ◌>>=◌, ◌>>◌}
use cogno_engram.Types.{Date}
use cogno_engram.Documents.Rules.{
  require_owner, owner_in_subtree, TombstoneKind, tombstone_deleted, tombstone_purged,
}
use cogno_engram.Documents.State.{
  DocRow, Original, KbTombstone, Documents, owned, versions_of, drop_version, drop_versions, bury,
}

-- `_remove`
unfoldable pub remove_document : Date → DocRow → TombstoneKind → Str → Documents → Documents
unfolding versions_of drop_version bury
remove_document now row kind actor st =
    let numbers = map (λ v. v.version) (versions_of row.id st) in
    let dropped = drop_versions row.id numbers st in
    bury
      (record {
        owner_key = row.owner_key;
        document_id = row.id;
        versions = numbers;
        kind = kind;
        actor = actor;
        removed_at = now;
        reason = [];
      })
      (record dropped { docs = filter (λ d. not (str_eq d.id row.id)) dropped.docs })

unfoldable pub delete_document : Date → Str → Str → Str → Documents → Result (Documents × Bool)
unfolding require_owner owned remove_document
delete_document now owner_key document_id actor st = do
  require_owner owner_key
  ok (elim (owned owner_key document_id st) [
    | none ↦ (st, false)
    | some row ↦ (remove_document now row tombstone_deleted actor st, true)
  ])

abbrev pub remove_all : Date → TombstoneKind → Str → List DocRow → Documents → Documents
remove_all now kind actor [] st = st
remove_all now kind actor (row ∷ rows) st =
    remove_all now kind actor rows (remove_document now row kind actor st)

abbrev pub in_subtree : Str → DocRow → Bool
in_subtree owner_prefix d = owner_in_subtree d.owner_key owner_prefix

unfoldable pub purge_owner_subtree : Date → Str → Str → Documents → Result (Documents × ℕ)
unfolding require_owner owner_in_subtree remove_document
purge_owner_subtree now owner_prefix actor st = do
  require_owner owner_prefix
  let rows = filter (in_subtree owner_prefix) st.docs
  ok (remove_all now tombstone_purged actor rows st, length rows)

abbrev pub reversed {ℓ} : {A : Type ℓ} → List A → List A → List A
reversed [] acc = acc
reversed (t ∷ ts) acc = reversed ts (t ∷ acc)

-- Newest first, and of one date the last written first: the rows from the last one on, sorted.
unfoldable pub tombstones_of : Str → ℕ → Documents → Result (List KbTombstone)
unfolding require_owner owner_in_subtree
tombstones_of owner_prefix limit st = do
  require_owner owner_prefix
  let rows = filter (λ t. owner_in_subtree t.owner_key owner_prefix) st.tombstones
  ok (take limit (sort_by (λ a b. leb b.removed_at a.removed_at) (reversed rows [])))

unfoldable pub prune_tombstones : Date → Documents → Documents × ℕ
prune_tombstones before st =
    let keep = filter (λ t. leb before t.removed_at) st.tombstones in
    (record st { tombstones = keep }, length st.tombstones - length keep)

-- `sum(len(data) …)`
unfoldable pub original_bytes : Str → List Original → ℕ
unfolding owner_in_subtree
original_bytes owner_prefix [] = 0
original_bytes owner_prefix (o ∷ os) =
    let rest = original_bytes owner_prefix os in
    if owner_in_subtree o.owner_key owner_prefix then length o.bytes + rest else rest

unfoldable pub stored_original_bytes : Str → Documents → Result ℕ
unfolding require_owner original_bytes
stored_original_bytes owner_prefix st = do
  require_owner owner_prefix
  ok (original_bytes owner_prefix st.originals)
