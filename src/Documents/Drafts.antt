-- ===== src/Documents/Drafts.antt =====
-- in_memory.py: the two steps of an ingestion, `save_draft` to `interrupt_stale`.
pub mod Claim
use cogno_engram.Prelude.{
  ℕ, ◌+◌, ◌≡◌, Bool, true, false, not, ◌&&◌, ◌||◌, Option, none, some, List, [], ◌∷◌, ◌++◌, map,
  if◌then◌else◌, filter, any, find?, update_first, length, leb, ltb, ◌==◌, sort_by, take,
}
use cogno_engram.Text.{Str, codes, str_eq}
use cogno_engram.Errors.{Result, ok, raise, ◌>>=◌, ◌>>◌, assertion_failed}
use cogno_engram.Types.{Date}
use cogno_engram.Store.State.{date_or, str_le, str_less}
use cogno_engram.Documents.Rules.{
  require_owner, same_state, kb_processing, kb_awaiting_confirmation, kb_error, reason_expired,
  reason_discarded, reason_interrupted, TombstoneKind, tombstone_expired, tombstone_discarded,
  tombstone_interrupted, DiscardOutcome, discard_ok, discard_not_a_draft, discard_missing,
  ClaimOutcome, claim_ok, claim_expired, claim_missing,
}
use cogno_engram.Documents.State.{
  DocRow, VersionRow, KbChunk, DraftRow, Documents, is_draft, owned_version, version_at,
  set_version, drop_draft, drop_content, bury,
}

pub record KbDraft : Type 0 where
  pub document_id : Str
  pub version : ℕ
  pub embed_model : Str
  pub chunk_count : ℕ
  pub pages : ℕ
  pub estimated_tokens : ℕ
  pub expires_at : Date
  pub chunks : List KbChunk
  pub created_at : Date

-- A chunk of a draft has no vector.
abbrev pub without_vector : KbChunk → KbChunk
without_vector c = record c { embedding = none }

unfoldable pub put_draft : DraftRow → List DraftRow → List DraftRow
put_draft d drafts =
    if any (is_draft d.document_id d.version) drafts
    then update_first (is_draft d.document_id d.version) (λ _. d) drafts
    else drafts ++ d ∷ []

unfoldable pub save_draft :
    Date → Str → Str → ℕ → List KbChunk → ℕ → ℕ → Date → Documents → Result (Documents × Bool)
unfolding require_owner owned_version put_draft
save_draft now owner_key document_id version cs pages estimated_tokens expires_at st = do
  require_owner owner_key
  ok (elim (owned_version owner_key document_id version st) [
    | none ↦ (st, false)
    | some v ↦ if not (same_state v.state kb_processing) then (st, false) else (
      set_version v.document_id v.version
          (λ w. record w {
            state = kb_awaiting_confirmation;
            reason = [];
            finished_at = none;
            pages = pages;
            estimated_tokens = estimated_tokens;
            expires_at = some expires_at;
          })
          (record st {
            drafts =
                put_draft
                  (record {
                    document_id = v.document_id;
                    version = v.version;
                    chunks = map without_vector cs;
                    created_at = now;
                  })
                  st.drafts;
          }),
      true,
    )
  ])

-- `_draft`, with its assertion.
unfoldable pub draft_of : VersionRow → DraftRow → Bool → Result KbDraft
draft_of v d with_chunks = elim v.expires_at [
  | none ↦ raise assertion_failed
  | some e ↦ ok (record {
    document_id = v.document_id;
    version = v.version;
    embed_model = v.embed_model;
    chunk_count = length d.chunks;
    pages = v.pages;
    estimated_tokens = v.estimated_tokens;
    expires_at = e;
    chunks = if with_chunks then d.chunks else [];
    created_at = d.created_at;
  })
]

abbrev pub has_expired : Date → VersionRow → Bool
has_expired now v = elim v.expires_at [ none ↦ false | some e ↦ leb e now ]

unfoldable pub claim_draft :
    Str → Str → ℕ → Date → Documents → Result (Documents × ClaimOutcome × Option KbDraft)
unfolding require_owner owned_version drop_draft draft_of
claim_draft owner_key document_id version now st = do
  require_owner owner_key
  elim (owned_version owner_key document_id version st) [
    | none ↦ ok (st, claim_missing, none)
    | some v ↦ elim (find? (is_draft v.document_id v.version) st.drafts) [
      | none ↦ ok (st, claim_missing, none)
      | some d ↦ if has_expired now v then ok (st, claim_expired, none) else (do
        draft ← draft_of v d true
        ok (
          set_version v.document_id v.version
              (λ w. record w { state = kb_processing; claimed_at = some now })
              (drop_draft v.document_id v.version st),
          claim_ok,
          some draft,
        ))
    ]
  ]

-- The order of `(date, document_id, version)`.
abbrev pub triple_le : Date × Str × ℕ → Date × Str × ℕ → Bool
triple_le a b =
    ltb a.0 b.0 || ((a.0 == b.0) && (str_less a.1 b.1 || (str_eq a.1 b.1 && leb a.2 b.2)))

-- The drafts of an owner, as far as their versions are there.
unfoldable pub drafts_of : Str → Documents → List DraftRow → Result (List KbDraft)
unfolding version_at draft_of
drafts_of owner_key st [] = ok []
drafts_of owner_key st (d ∷ ds) =
    let rest = drafts_of owner_key st ds in
    elim (find? (λ row. str_eq row.id d.document_id) st.docs) [
      | none ↦ rest
      | some row ↦
          if not (str_eq row.owner_key owner_key)
          then rest
          else elim (version_at d.document_id d.version st) [
            | none ↦ rest
            | some v ↦ (do draft ← draft_of v d false; drafts ← rest; ok (draft ∷ drafts))
          ]
    ]

unfoldable pub pending_drafts : Str → Documents → Result (List KbDraft)
unfolding require_owner drafts_of
pending_drafts owner_key st = do
  require_owner owner_key
  drafts ← drafts_of owner_key st st.drafts
  ok (
      sort_by
        (λ a b.
          triple_le (a.expires_at, a.document_id, a.version)
            (b.expires_at, b.document_id, b.version))
        drafts)

-- `_end_version`, and what `expire_drafts` does with a version: in error, its content removed, and
-- one tombstone if the document is there.
unfoldable pub end_version : Str → ℕ → Str → TombstoneKind → Str → Date → Documents → Documents
unfolding drop_content bury
end_version document_id version reason kind actor now st =
    let ended = drop_content document_id version (
      set_version document_id version
        (λ w. record w { state = kb_error; reason = reason; finished_at = some now }) st) in
    elim (find? (λ d. str_eq d.id document_id) st.docs) [
      | none ↦ ended
      | some row ↦
          bury
            (record {
              owner_key = row.owner_key;
              document_id = document_id;
              versions = version ∷ [];
              kind = kind;
              actor = actor;
              removed_at = now;
              reason = [];
            })
            ended
    ]

unfoldable pub end_all : Str → TombstoneKind → Date → List (Date × Str × ℕ) → Documents → Documents
unfolding end_version
end_all reason kind now [] st = st
end_all reason kind now (t ∷ ts) st =
    end_all reason kind now ts (end_version t.1 t.2 reason kind [] now st)

-- The versions that a date makes due, in the order of `(date, document_id, version)`.
unfoldable pub due : (VersionRow → Option Date) → List VersionRow → List (Date × Str × ℕ)
due date [] = []
due date (v ∷ vs) =
    let rest = due date vs in
    elim (date v) [ none ↦ rest | some d ↦ (d, v.document_id, v.version) ∷ rest ]

abbrev pub expiry : Date → VersionRow → Option Date
expiry now v =
    if same_state v.state kb_awaiting_confirmation && has_expired now v then v.expires_at else none

unfoldable pub expire_drafts : Date → ℕ → Documents → Documents × ℕ
unfolding due end_all
expire_drafts now limit st =
    let chosen = take limit (sort_by triple_le (due (expiry now) st.versions)) in
    (end_all reason_expired tombstone_expired now chosen st, length chosen)

unfoldable pub discard_draft :
    Date → Str → Str → ℕ → Str → Documents → Result (Documents × DiscardOutcome)
unfolding require_owner owned_version end_version
discard_draft now owner_key document_id version actor st = do
  require_owner owner_key
  ok (elim (owned_version owner_key document_id version st) [
    | none ↦ (st, discard_missing)
    | some v ↦
        if same_state v.state kb_error && str_eq v.reason reason_discarded
        then (st, discard_ok)
        else (if not (same_state v.state kb_awaiting_confirmation)
            then (st, discard_not_a_draft)
            else (
              end_version v.document_id v.version reason_discarded tombstone_discarded actor now st,
              discard_ok,
            ))
  ])

-- `v.claimed_at or v.created_at or _now()`
abbrev pub entered : Date → VersionRow → Date
entered now v = elim v.claimed_at [ some d ↦ d | none ↦ date_or now v.created_at ]

abbrev pub staleness : Date → Date → VersionRow → Option Date
staleness now older_than v =
    if same_state v.state kb_processing && ltb (entered now v) older_than
    then some (entered now v)
    else none

unfoldable pub interrupt_stale : Date → Date → ℕ → Documents → Documents × ℕ
unfolding due end_all
interrupt_stale now older_than limit st =
    let chosen = take limit (sort_by triple_le (due (staleness now older_than) st.versions)) in
    (end_all reason_interrupted tombstone_interrupted now chosen st, length chosen)
