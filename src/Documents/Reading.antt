-- ===== src/Documents/Reading.antt =====
-- in_memory.py: the reader path of `InMemoryDocumentStore`, the text of a version, and
-- `stale_documents`.
pub mod Paging
pub mod Pages
pub mod Served
use cogno_engram.Prelude.{
  ℕ, ◌+◌, ◌≡◌, Bool, true, false, not, ◌&&◌, ◌||◌, Option, none, some, List, [], ◌∷◌, ◌++◌, map,
  if◌then◌else◌, filter, any, find?, length, leb, ltb, ◌==◌, sort_by, take, min,
}
use cogno_engram.Prelude.Int.{ℤ, pos, ltb_ℤ}
use cogno_engram.Text.{Str, codes, str_eq, is_empty, words}
use cogno_engram.Errors.{Result, ok, raise, ◌>>=◌, ◌>>◌}
use cogno_engram.Types.{Date}
use cogno_engram.Store.State.{date_or, str_le}
use cogno_engram.Chunking.Passage.{chunk_text}
use cogno_engram.Documents.Rules.{
  require_owner, require_profile, require_model, profile_can_read, text_window, TextWindow,
  text_page_filter, same_state, kb_ready, kb_awaiting_confirmation, KbState,
}
use cogno_engram.Documents.State.{
  DocRow, VersionRow, KbChunk, DraftRow, Documents, is_draft, is_original, owned, version_at,
  chunks_at, KbDocument, kb_document, KbTextChunk,
}
use cogno_engram.Documents.Manage.{document_le}

unfoldable pub text_chunk : KbChunk → KbTextChunk
text_chunk c = record {
  ordinal = c.ordinal;
  page = c.page;
  heading_path = c.heading_path;
  text = chunk_text c.content c.heading_path;
}

-- What `assemble_served_text` and `assemble_version_text` make of the chunks that were fetched, one
-- more than the limit at most.
pub record Slice : Type 0 where
  pub chunks : List KbTextChunk
  pub has_more : Bool
  pub next_after : Option ℕ

abbrev pub last_ordinal : List KbTextChunk → Option ℕ
last_ordinal [] = none
last_ordinal (c ∷ []) = some c.ordinal
last_ordinal (c ∷ d ∷ cs) = last_ordinal (d ∷ cs)

unfoldable pub assemble : ℕ → List KbTextChunk → Slice
assemble limit fetched =
    let has_more = ltb limit (length fetched) in
    record {
      chunks = take limit fetched;
      has_more = has_more;
      next_after = if has_more then last_ordinal (take limit fetched) else none;
    }

abbrev pub by_ordinal : List KbChunk → List KbChunk
by_ordinal = sort_by (λ a b. leb a.ordinal b.ordinal)

-- `sorted((c for c in source if c.ordinal > start and …), key=…)[:size + 1]`
unfoldable pub fetch : (KbChunk → Bool) → TextWindow → List KbChunk → List KbChunk
fetch wanted w source =
    take (w.size + 1) (by_ordinal (filter (λ c. ltb_ℤ w.start (pos c.ordinal) && wanted c) source))

unfoldable pub slice_of : (KbChunk → Bool) → TextWindow → List KbChunk → Slice
unfolding assemble fetch text_chunk
slice_of wanted w source = assemble w.size (map text_chunk (fetch wanted w source))

abbrev pub positive : ℕ → Option ℕ
positive n = if n == 0 then none else some n

pub record KbVersionText : Type 0 where
  pub document_id : Str
  pub version : ℕ
  pub state : KbState
  pub pages : Option ℕ
  pub page : Option ℕ
  pub has_original : Bool
  pub slice : Slice

-- The text that a version has to show: the served one's chunks, or those of a draft.
unfoldable pub text_source : DocRow → VersionRow → Documents → Option (List KbChunk)
unfolding chunks_at
text_source row v st =
    let draft = find? (is_draft row.id v.version) st.drafts in
    if same_state v.state kb_ready
      && (elim row.active_version [ none ↦ false | some n ↦ n == v.version ])
    then some (chunks_at row.id v.version st)
    else (if same_state v.state kb_awaiting_confirmation
        then (elim draft [ none ↦ none | some d ↦ some d.chunks ])
        else none)

abbrev pub has_page : Option ℕ → KbChunk → Bool
has_page none c = true
has_page (some p) c = elim c.page [ none ↦ false | some q ↦ q == p ]

unfoldable pub text_of :
    Option ℕ → TextWindow → DocRow → VersionRow → Documents → Option KbVersionText
unfolding text_source text_page_filter slice_of
text_of page w row v st = elim (text_source row v st) [
  | none ↦ none
  | some source ↦ some (record {
    document_id = row.id;
    version = v.version;
    state = v.state;
    pages = positive v.pages;
    page = text_page_filter page v.pages;
    has_original = any (is_original row.id v.version) st.originals;
    slice = slice_of (has_page (text_page_filter page v.pages)) w source;
  })
]

abbrev pub numbered_or_active : Option ℕ → DocRow → Option ℕ
numbered_or_active none row = row.active_version
numbered_or_active (some n) row = some n

unfoldable pub version_text :
    Str → Str → Option ℕ → Option ℕ → Option ℤ → ℕ → Documents → Result (Option KbVersionText)
unfolding require_owner text_window owned version_at text_of
version_text owner_key document_id version page after limit st = do
  require_owner owner_key
  w ← text_window page after limit
  ok (elim (owned owner_key document_id st) [
    | none ↦ none
    | some row ↦ elim (numbered_or_active version row) [
      | none ↦ none
      | some n ↦ elim (version_at row.id n st) [ none ↦ none | some v ↦ text_of page w row v st ]
    ]
  ])

-- A document and its served version, where a reader may have it.
unfoldable pub served_version : Str → Str → Documents → DocRow → Option VersionRow
unfolding profile_can_read version_at
served_version owner_key profile st row =
    if not (str_eq row.owner_key owner_key) || not (profile_can_read profile row.profiles)
    then none
    else elim row.active_version [
      | none ↦ none
      | some n ↦ elim (version_at row.id n st) [
        | none ↦ none
        | some v ↦ if same_state v.state kb_ready then some v else none
      ]
    ]

-- `_served`: the one filter of the reader path.
unfoldable pub served : Str → Str → Documents → List DocRow → List (DocRow × VersionRow)
unfolding served_version
served owner_key profile st [] = []
served owner_key profile st (row ∷ rows) =
    let rest = served owner_key profile st rows in
    elim (served_version owner_key profile st row) [ none ↦ rest | some v ↦ (row, v) ∷ rest ]

pub record KbServedText : Type 0 where
  pub document_id : Str
  pub version : ℕ
  pub title : Str
  pub pages : Option ℕ
  pub slice : Slice

-- `{row.id: (row, v) …}.get(document_id)`: of two rows of one id, which no store holds, the last.
abbrev pub served_at : Str → List (DocRow × VersionRow) → Option (DocRow × VersionRow)
served_at document_id [] = none
served_at document_id (p ∷ ps) = elim (served_at document_id ps) [
  | some q ↦ some q
  | none ↦ if str_eq p.0.id document_id then some p else none
]

unfoldable pub read_served :
    Str → Str → Str → Option ℤ → ℕ → Documents → Result (Option KbServedText)
unfolding require_owner require_profile text_window served chunks_at slice_of
read_served owner_key document_id profile after limit st = do
  require_owner owner_key
  require_profile profile
  w ← text_window none after limit
  ok (elim (served_at document_id (served owner_key profile st st.docs)) [
    | none ↦ none
    | some p ↦ some (record {
      document_id = p.0.id;
      version = p.1.version;
      title = p.0.title;
      pages = positive p.1.pages;
      slice = slice_of (λ c. true) w (chunks_at p.0.id p.1.version st);
    })
  ])

unfoldable pub stale_documents : Date → Str → ℕ → Documents → Result (List KbDocument)
unfolding require_model version_at kb_document
stale_documents now embed_model limit st = do
  require_model embed_model st.embedding_dim
  ok (
      map (kb_document st) (
        take limit (
          sort_by (document_le now) (
            filter
              (λ row. elim row.active_version [
                | none ↦ false
                | some n ↦ elim (version_at row.id n st) [
                  | none ↦ false
                  | some v ↦ not (str_eq v.embed_model embed_model)
                ]
              ])
              st.docs))))
