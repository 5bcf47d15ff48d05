-- ===== src/Documents/State.antt =====
-- in_memory.py: the rows of `InMemoryDocumentStore`, and the records that are read from them. A
-- dict is a list of its entries in the order of insertion; the clock is an argument.
pub mod Dropping
pub mod Ownership
use cogno_engram.Prelude.{
  ℕ, ◌+◌, ◌≡◌, Bool, true, false, not, ◌&&◌, ◌||◌, Option, none, some, List, [], ◌∷◌, ◌++◌, map,
  if◌then◌else◌, filter, any, find?, update_first, length, leb, ltb, ◌==◌, sort_by,
}
use cogno_engram.Text.{Str, codes, str_eq, is_empty}
use cogno_engram.Types.{Date, Vector}
use cogno_engram.Documents.Rules.{
  KbState, kb_processing, MediaType, TombstoneKind, tombstone_superseded,
}

pub record DocRow : Type 0 where
  pub owner_key : Str
  pub id : Str
  pub title : Str
  pub profiles : List Str
  pub media_type : MediaType
  pub active_version : Option ℕ
  pub created_at : Option Date
  pub updated_at : Option Date

pub record VersionRow : Type 0 where
  pub document_id : Str
  pub version : ℕ
  pub state : KbState
  pub sha256 : Str
  pub embed_model : Str
  pub reason : Str
  pub size_bytes : ℕ
  pub pages : ℕ
  pub chunks : ℕ
  pub created_at : Option Date
  pub finished_at : Option Date
  pub estimated_tokens : ℕ
  pub expires_at : Option Date
  pub claimed_at : Option Date

pub record KbChunk : Type 0 where
  pub ordinal : ℕ
  pub content : Str
  pub heading_path : List Str
  pub page : Option ℕ
  pub embedding : Option Vector

-- A chunk as a reader gets it, without its path in the text.
pub record KbTextChunk : Type 0 where
  pub ordinal : ℕ
  pub page : Option ℕ
  pub heading_path : List Str
  pub text : Str

-- An entry of `_chunks`, of `_originals` and of `_drafts`, under its `(document, version)`.
pub record ChunkEntry : Type 0 where
  pub document_id : Str
  pub version : ℕ
  pub rows : List KbChunk

pub record Original : Type 0 where
  pub document_id : Str
  pub version : ℕ
  pub owner_key : Str
  pub bytes : List ℕ

pub record DraftRow : Type 0 where
  pub document_id : Str
  pub version : ℕ
  pub chunks : List KbChunk
  pub created_at : Date

pub record KbTombstone : Type 0 where
  pub owner_key : Str
  pub document_id : Str
  pub versions : List ℕ
  pub kind : TombstoneKind
  pub actor : Str
  pub removed_at : Date
  pub reason : Str

pub record Documents : Type 0 where
  pub embedding_dim : ℕ
  pub max_original_bytes : ℕ
  pub docs : List DocRow
  pub versions : List VersionRow
  pub chunks : List ChunkEntry
  pub originals : List Original
  pub tombstones : List KbTombstone
  pub drafts : List DraftRow
  pub original_reads : ℕ

abbrev pub empty_documents : ℕ → ℕ → Documents
empty_documents embedding_dim max_original_bytes = record {
  embedding_dim = embedding_dim;
  max_original_bytes = max_original_bytes;
  docs = [];
  versions = [];
  chunks = [];
  originals = [];
  tombstones = [];
  drafts = [];
  original_reads = 0;
}

-- The key `(document_id, version)`.
abbrev pub keyed : Str → ℕ → Str → ℕ → Bool
keyed document_id version d v = str_eq d document_id && (v == version)

abbrev pub is_version : Str → ℕ → VersionRow → Bool
is_version document_id version v = keyed document_id version v.document_id v.version

abbrev pub is_original : Str → ℕ → Original → Bool
is_original document_id version o = keyed document_id version o.document_id o.version

abbrev pub is_draft : Str → ℕ → DraftRow → Bool
is_draft document_id version d = keyed document_id version d.document_id d.version

abbrev pub is_entry : Str → ℕ → ChunkEntry → Bool
is_entry document_id version c = keyed document_id version c.document_id c.version

-- `self._versions.get((document_id, version))`
unfoldable pub version_at : Str → ℕ → Documents → Option VersionRow
version_at document_id version st = find? (is_version document_id version) st.versions

-- `self._chunks.get((document_id, version), {}).values()`
unfoldable pub chunks_at : Str → ℕ → Documents → List KbChunk
chunks_at document_id version st = elim (find? (is_entry document_id version) st.chunks) [
  | none ↦ []
  | some c ↦ c.rows
]

-- `_versions_of`: by number.
unfoldable pub versions_of : Str → Documents → List VersionRow
versions_of document_id st =
    sort_by (λ a b. leb a.version b.version)
      (filter (λ v. str_eq v.document_id document_id) st.versions)

abbrev pub last_version {ℓ} : {A : Type ℓ} → List A → Option A
last_version [] = none
last_version (v ∷ []) = some v
last_version (v ∷ w ∷ vs) = last_version (w ∷ vs)

-- `_owned`: the row of a document, if it is this owner's.
unfoldable pub owned : Str → Str → Documents → Option DocRow
owned owner_key document_id st = elim (find? (λ d. str_eq d.id document_id) st.docs) [
  | none ↦ none
  | some row ↦ if str_eq row.owner_key owner_key then some row else none
]

-- `self._versions.get((row.id, int(version))) if row is not None else None`
unfoldable pub owned_version : Str → Str → ℕ → Documents → Option VersionRow
unfolding owned version_at
owned_version owner_key document_id version st = elim (owned owner_key document_id st) [
  | none ↦ none
  | some row ↦ version_at row.id version st
]

-- The attributes of the row that `v` points at are assigned.
abbrev pub set_version : Str → ℕ → (VersionRow → VersionRow) → Documents → Documents
set_version document_id version f st = record st {
  versions = update_first (is_version document_id version) f st.versions;
}

abbrev pub set_document : Str → (DocRow → DocRow) → Documents → Documents
set_document document_id f st = record st {
  docs = update_first (λ d. str_eq d.id document_id) f st.docs;
}

-- `store.pop((document_id, version), None)` for the drafts, the originals and the chunks.
unfoldable pub drop_draft : Str → ℕ → Documents → Documents
drop_draft document_id version st = record st {
  drafts = filter (λ d. not (is_draft document_id version d)) st.drafts;
}

unfoldable pub drop_content : Str → ℕ → Documents → Documents
drop_content document_id version st = record st {
  drafts = filter (λ d. not (is_draft document_id version d)) st.drafts;
  originals = filter (λ o. not (is_original document_id version o)) st.originals;
  chunks = filter (λ c. not (is_entry document_id version c)) st.chunks;
}

unfoldable pub drop_version : Str → ℕ → Documents → Documents
unfolding drop_content
drop_version document_id version st = record (drop_content document_id version st) {
  versions = filter (λ v. not (is_version document_id version v)) st.versions;
}

abbrev pub drop_versions : Str → List ℕ → Documents → Documents
drop_versions document_id [] st = st
drop_versions document_id (n ∷ ns) st = drop_versions document_id ns (drop_version document_id n st)

unfoldable pub bury : KbTombstone → Documents → Documents
bury t st = record st { tombstones = st.tombstones ++ t ∷ [] }

-- `_supersede_tombstone`: one for all the versions that a commit removed, none for none.
unfoldable pub supersede_tombstone : DocRow → List ℕ → Date → Documents → Documents
unfolding bury
supersede_tombstone row versions when st =
    if is_empty versions
    then st
    else bury
        (record {
          owner_key = row.owner_key;
          document_id = row.id;
          versions = versions;
          kind = tombstone_superseded;
          actor = [];
          removed_at = when;
          reason = [];
        })
        st

pub record KbVersion : Type 0 where
  pub row : VersionRow
  pub has_original : Bool

pub record KbDocument : Type 0 where
  pub row : DocRow
  pub active : Option KbVersion
  pub latest : Option KbVersion
  pub sections : List Str

-- `_version`
unfoldable pub kb_version : Documents → VersionRow → KbVersion
kb_version st row = record {
  row = row;
  has_original = any (is_original row.document_id row.version) st.originals;
}

abbrev pub map_option {ℓ κ} : {A : Type ℓ} {B : Type κ} → (A → B) → Option A → Option B
map_option f none = none
map_option f (some a) = some (f a)

-- `_document`
unfoldable pub kb_document : Documents → DocRow → KbDocument
unfolding version_at versions_of kb_version
kb_document st row = record {
  row = row;
  active = elim row.active_version [
    | none ↦ none
    | some n ↦ map_option (kb_version st) (version_at row.id n st)
  ];
  latest = map_option (kb_version st) (last_version (versions_of row.id st));
  sections = [];
}

-- `KbDocument.status`
unfoldable pub status : KbDocument → KbState
status d = elim d.latest [ none ↦ kb_processing | some v ↦ v.row.state ]
