-- ===== src/Documents/Ingest.antt =====
-- in_memory.py: `begin_version` to `get_version` of `InMemoryDocumentStore`.
pub mod Swap
pub mod Commit
pub mod Staging
pub mod Failure
pub mod Numbers
pub mod Reuse
pub mod Begin
pub mod Begun
pub mod Newest
use cogno_engram.Prelude.{
  ℕ, ◌+◌, ◌≡◌, Bool, true, false, not, ◌&&◌, ◌||◌, Option, none, some, List, [], ◌∷◌, ◌++◌, map,
  if◌then◌else◌, filter, any, find?, update_first, length, leb, ltb, ◌==◌,
}
use cogno_engram.Text.{Str, codes, str_eq, strip}
use cogno_engram.Folding.{Unicode}
use cogno_engram.Errors.{Result, ok, raise, ◌>>=◌, ◌>>◌, refuse_if, bad_vector, original_too_large}
use cogno_engram.Types.{Date, Vector}
use cogno_engram.Store.State.{date_or}
use cogno_engram.Documents.Rules.{
  require_owner, require_model, same_state, kb_processing, kb_ready, kb_error, KbState,
  CommitOutcome, commit_ready, commit_deleted, commit_superseded, sanitize_reason, tombstone_failed,
}
use cogno_engram.Documents.State.{
  DocRow, VersionRow, KbChunk, ChunkEntry, Original, Documents, is_entry, is_original, owned,
  owned_version, version_at, versions_of, last_version, chunks_at, set_version, set_document,
  drop_draft, drop_content, drop_version, drop_versions, supersede_tombstone, bury, KbVersion,
  kb_version,
}

abbrev pub same_upload : Str → Str → VersionRow → Bool
same_upload sha256 embed_model v = str_eq v.sha256 sha256 && str_eq v.embed_model embed_model

-- An upload that is not ready is processed again.
unfoldable pub restart_version : Date → VersionRow → Documents → Documents
restart_version claimed v st =
    if same_state v.state kb_ready
    then st
    else drop_draft v.document_id v.version (
        set_version v.document_id v.version
          (λ w. record w {
            state = kb_processing;
            reason = [];
            finished_at = none;
            claimed_at = some claimed;
          })
          st)

-- The bytes are kept once.
unfoldable pub keep_original : DocRow → ℕ → Option (List ℕ) → Documents → Documents
keep_original row version none st = st
keep_original row version (some bytes) st =
    if any (is_original row.id version) st.originals then st else record st {
      originals =
          st.originals
          ++ record {
            document_id = row.id;
            version = version;
            owner_key = row.owner_key;
            bytes = bytes;
          }
            ∷ [];
    }

-- `_originals[key] = …`: the entry of the key, or a new one.
unfoldable pub put_original : DocRow → ℕ → Option (List ℕ) → Documents → Documents
put_original row version none st = st
put_original row version (some bytes) st =
    let o : Original = record {
      document_id = row.id;
      version = version;
      owner_key = row.owner_key;
      bytes = bytes;
    } in
    record st {
      originals =
          if any (is_original row.id version) st.originals
          then update_first (is_original row.id version) (λ _. o) st.originals
          else st.originals ++ o ∷ [];
    }

-- `(existing[-1].version + 1) if existing else 1`
abbrev pub next_number : Str → Documents → ℕ
next_number document_id st = elim (last_version (versions_of document_id st)) [
  | none ↦ 1
  | some v ↦ v.version + 1
]

abbrev pub new_version : Str → ℕ → Str → Str → ℕ → Date → Date → VersionRow
new_version document_id version sha256 embed_model size_bytes now claimed = record {
  document_id = document_id;
  version = version;
  state = kb_processing;
  sha256 = sha256;
  embed_model = embed_model;
  reason = [];
  size_bytes = size_bytes;
  pages = 0;
  chunks = 0;
  created_at = some now;
  finished_at = none;
  estimated_tokens = 0;
  expires_at = none;
  claimed_at = some claimed;
}

-- The version that `begin_version` answers is read from the state it leaves, by its number.
abbrev pub begun : DocRow → ℕ → Documents → Documents × Option KbVersion
begun row version st =
    (st, (elim (version_at row.id version st) [ none ↦ none | some v ↦ some (kb_version st v) ]))

abbrev pub too_large : ℕ → Option (List ℕ) → Bool
too_large most none = false
too_large most (some bytes) = ltb most (length bytes)

unfoldable pub begin_version :
    Date
    → Str
    → Str
    → Str
    → Str
    → ℕ
    → Option (List ℕ)
    → Option Date
    → Documents
    → Result (Documents × Option KbVersion)
unfolding require_owner require_model owned version_at versions_of restart_version keep_original
    put_original kb_version
begin_version clock owner_key document_id sha256 embed_model size_bytes original now st = do
  require_owner owner_key
  require_model embed_model st.embedding_dim
  refuse_if (too_large st.max_original_bytes original) original_too_large
  ok (elim (owned owner_key document_id st) [
    | none ↦ (st, none)
    | some row ↦ elim (find? (same_upload sha256 embed_model) (versions_of row.id st)) [
      | some v ↦
          begun row v.version
            (keep_original row v.version original (restart_version (date_or clock now) v st))
      | none ↦
          let number = next_number row.id st in
          begun row number (
            put_original row number original (record st {
              versions =
                  st.versions
                  ++ new_version row.id number sha256 embed_model size_bytes clock
                      (date_or clock now)
                    ∷ [];
            }))
    ]
  ])

-- `require_vector`: a vector of the width of the store. The numbers of a vector are finite here.
abbrev pub is_vector : ℕ → Option Vector → Bool
is_vector dim none = false
is_vector dim (some v) = length v == dim

-- `staged[ordinal] = chunk`
unfoldable pub put_chunk : KbChunk → List KbChunk → List KbChunk
put_chunk c rows =
    if any (λ r. r.ordinal == c.ordinal) rows
    then update_first (λ r. r.ordinal == c.ordinal) (λ _. c) rows
    else rows ++ c ∷ []

unfoldable pub put_chunks : List KbChunk → List KbChunk → List KbChunk
unfolding put_chunk
put_chunks [] rows = rows
put_chunks (c ∷ cs) rows = put_chunks cs (put_chunk c rows)

-- `self._chunks.setdefault(key, {})`, and the rows put there.
unfoldable pub stage : Str → ℕ → List KbChunk → Documents → Documents
unfolding put_chunks
stage document_id version cs st = record st {
  chunks =
      if any (is_entry document_id version) st.chunks
      then update_first (is_entry document_id version)
          (λ e. record e { rows = put_chunks cs e.rows }) st.chunks
      else st.chunks
        ++ record { document_id = document_id; version = version; rows = put_chunks cs [] } ∷ [];
}

-- The store that is left, with the answer or what was raised: every vector is checked before any chunk
-- is staged.
unfoldable pub add_chunks : Str → Str → ℕ → List KbChunk → Documents → Documents × Result Bool
unfolding require_owner owned_version stage
add_chunks owner_key document_id version cs st = elim (require_owner owner_key) [
  | raise e ↦ (st, raise e)
  | ok _ ↦ elim (owned_version owner_key document_id version st) [
    | none ↦ (st, ok false)
    | some v ↦
        if not (same_state v.state kb_processing)
        then (st, ok false)
        else (if any (λ c. not (is_vector st.embedding_dim c.embedding)) cs
            then (st, raise bad_vector)
            else (stage v.document_id v.version cs st, ok true))
  ]
]

-- The swap: the version is ready and served, and every older one goes with a tombstone for all.
unfoldable pub swap : Date → DocRow → VersionRow → ℕ → Documents → Documents
unfolding chunks_at versions_of supersede_tombstone drop_version
swap now row v pages st =
    let served =
      set_document row.id (λ d. record d { active_version = some v.version; updated_at = some now })
        (set_version row.id v.version
          (λ w. record w {
            state = kb_ready;
            reason = [];
            finished_at = some now;
            pages = pages;
            chunks = length (chunks_at row.id v.version st);
          })
          st) in
    let replaced =
      map (λ w. w.version) (filter (λ w. ltb w.version v.version) (versions_of row.id served)) in
    supersede_tombstone row replaced now (drop_versions row.id replaced served)

abbrev pub is_active : DocRow → VersionRow → Bool
is_active row v = elim row.active_version [ none ↦ false | some n ↦ n == v.version ]

-- The version is the newest one of its document.
abbrev pub is_newest : Str → VersionRow → Documents → Bool
is_newest document_id v st = elim (last_version (versions_of document_id st)) [
  | none ↦ false
  | some w ↦ w.version == v.version
]

-- A commit of a version that is there.
unfoldable pub commit_found : Date → DocRow → VersionRow → ℕ → Documents → Documents × CommitOutcome
unfolding versions_of drop_version supersede_tombstone swap
commit_found now row v pages st =
    if not (is_newest row.id v st)
    then (
      supersede_tombstone row (v.version ∷ []) now (drop_version row.id v.version st),
      commit_superseded,
    )
    else (if same_state v.state kb_ready && is_active row v
        then (st, commit_ready)
        else (if not (same_state v.state kb_processing)
            then (st, commit_superseded)
            else (swap now row v pages st, commit_ready)))

unfoldable pub commit_version :
    Date → Str → Str → ℕ → ℕ → Documents → Result (Documents × CommitOutcome)
unfolding require_owner owned version_at commit_found
commit_version now owner_key document_id version pages st = do
  require_owner owner_key
  ok (elim (owned owner_key document_id st) [
    | none ↦ (st, commit_deleted)
    | some row ↦ elim (version_at row.id version st) [
      | none ↦ (st, commit_superseded)
      | some v ↦ commit_found now row v pages st
    ]
  ])

unfoldable pub get_version : Str → Str → ℕ → Documents → Result (Option KbVersion)
unfolding require_owner owned_version kb_version
get_version owner_key document_id version st = do
  require_owner owner_key
  ok (elim (owned_version owner_key document_id version st) [
    | none ↦ none
    | some v ↦ some (kb_version st v)
  ])

module _ (uni : Unicode) where
  -- The version in error, its content removed; one tombstone, unless it had ended in error before.
  unfoldable pub fail_found : Date → Str → VersionRow → Str → Documents → Documents
  unfolding sanitize_reason drop_content bury
  fail_found now owner_key v reason st =
      let ended = drop_content v.document_id v.version (
        set_version v.document_id v.version
          (λ w. record w {
            state = kb_error;
            reason = sanitize_reason uni reason;
            finished_at = some now;
          })
          st) in
      if same_state v.state kb_error
      then ended
      else bury
          (record {
            owner_key = owner_key;
            document_id = v.document_id;
            versions = v.version ∷ [];
            kind = tombstone_failed;
            actor = [];
            removed_at = now;
            reason = sanitize_reason uni reason;
          })
          ended

  unfoldable pub fail_version : Date → Str → Str → ℕ → Str → Documents → Result (Documents × Bool)
  unfolding require_owner owned_version fail_found
  fail_version now owner_key document_id version reason st = do
    require_owner owner_key
    ok (elim (owned_version owner_key document_id version st) [
      | none ↦ (st, false)
      | some v ↦
          if same_state v.state kb_ready
          then (st, false)
          else (fail_found now owner_key v reason st, true)
    ])
