-- ===== src/Documents/Manage.antt =====
-- in_memory.py: `create_document` to `get_original` of `InMemoryDocumentStore`.
use cogno_engram.Prelude.{
  ℕ, ◌+◌, Bool, true, false, ◌&&◌, ◌||◌, Option, none, some, List, [], ◌∷◌, ◌++◌, map, filter,
  find?, length, leb, ltb, ◌==◌, sort_by,
}
use cogno_engram.Text.{Str, codes, str_eq, words}
use cogno_engram.Errors.{
  Result, ok, raise, ◌>>=◌, ◌>>◌, refuse_if, bad_media_type, document_limit_reached,
}
use cogno_engram.Types.{Date}
use cogno_engram.Store.State.{date_or, str_le}
use cogno_engram.Documents.Rules.{
  require_owner, media_type_of, RawProfiles, sanitize_profiles, MediaType,
}
use cogno_engram.Documents.State.{
  DocRow, Documents, owned, set_document, is_original, KbDocument, kb_document,
}

-- `" ".join(words)`
abbrev pub join_spaced : List Str → Str
join_spaced [] = []
join_spaced (w ∷ []) = w
join_spaced (w ∷ v ∷ ws) = w ++ codes " " ++ join_spaced (v ∷ ws)

abbrev require_media_type : Str → Result MediaType
require_media_type raw = elim (media_type_of raw) [ none ↦ raise bad_media_type | some m ↦ ok m ]

abbrev pub owned_by : Str → DocRow → Bool
owned_by owner_key d = str_eq d.owner_key owner_key

-- `max_documents is not None and sum(…) >= max_documents`
abbrev pub at_limit : Str → Option ℕ → Documents → Bool
at_limit owner_key max_documents st = elim max_documents [
  | none ↦ false
  | some most ↦ leb most (length (filter (owned_by owner_key) st.docs))
]

unfoldable pub create_document :
    Date → Str → Str → Str → RawProfiles → Str → Option ℕ → Documents → Result (Documents × DocRow)
unfolding require_owner media_type_of sanitize_profiles words
create_document now new_id owner_key title profiles media_type max_documents st = do
  require_owner owner_key
  media ← require_media_type media_type
  refuse_if (at_limit owner_key max_documents st) document_limit_reached
  let row : DocRow = record {
    owner_key = owner_key;
    id = new_id;
    title = join_spaced (words title);
    profiles = sanitize_profiles profiles;
    media_type = media;
    active_version = none;
    created_at = some now;
    updated_at = some now;
  }
  ok (record st { docs = st.docs ++ row ∷ [] }, row)

unfoldable pub get_document : Str → Str → Documents → Result (Option KbDocument)
unfolding require_owner owned kb_document
get_document owner_key document_id st = do
  require_owner owner_key
  ok (elim (owned owner_key document_id st) [ none ↦ none | some row ↦ some (kb_document st row) ])

-- The order of `(created_at, id)`.
abbrev pub document_le : Date → DocRow → DocRow → Bool
document_le now a b =
    let d = date_or now a.created_at in
    let e = date_or now b.created_at in ltb d e || ((d == e) && str_le a.id b.id)

unfoldable pub list_documents : Date → Str → Documents → Result (List KbDocument)
unfolding require_owner kb_document
list_documents now owner_key st = do
  require_owner owner_key
  ok (map (kb_document st) (sort_by (document_le now) (filter (owned_by owner_key) st.docs)))

unfoldable pub set_profiles : Date → Str → Str → RawProfiles → Documents → Result (Documents × Bool)
unfolding require_owner owned sanitize_profiles
set_profiles now owner_key document_id profiles st = do
  require_owner owner_key
  ok (elim (owned owner_key document_id st) [
    | none ↦ (st, false)
    | some row ↦ (
      set_document row.id
          (λ d. record d { profiles = sanitize_profiles profiles; updated_at = some now }) st,
      true,
    )
  ])

abbrev or_active : DocRow → Option ℕ → Option ℕ
or_active row none = row.active_version
or_active row (some v) = some v

-- The one read of the originals, and it is counted.
unfoldable pub get_original :
    Str → Str → Option ℕ → Documents → Result (Documents × Option (List ℕ))
unfolding require_owner owned
get_original owner_key document_id version st = do
  require_owner owner_key
  ok (elim (owned owner_key document_id st) [
    | none ↦ (st, none)
    | some row ↦ elim (or_active row version) [
      | none ↦ (st, none)
      | some v ↦ (
        record st { original_reads = st.original_reads + 1 },
        elim (find? (is_original row.id v) st.originals) [ none ↦ none | some o ↦ some o.bytes ],
      )
    ]
  ])
