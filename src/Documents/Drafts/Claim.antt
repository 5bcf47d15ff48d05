-- ===== src/Documents/Drafts/Claim.antt =====
-- in_memory.py: `save_draft` followed by `claim_draft`.
use cogno_engram.Prelude.{
  ℕ, ◌≡◌, refl, ◌∙◌, true, false, not, none, some, List, [], ◌∷◌, map, arith, filter, find?, length,
  leb,
}
use cogno_engram.Text.{Str, str_eq_self}
use cogno_engram.Errors.{ok}
use cogno_engram.Types.{Date}
use cogno_engram.Documents.Rules.{
  require_owner, kb_processing, kb_awaiting_confirmation, claim_ok, claim_missing,
}
use cogno_engram.Documents.State.{
  VersionRow, DraftRow, KbChunk, Documents, is_draft, owned_version, drop_draft, set_version,
}
use cogno_engram.Documents.State.Ownership.{owned_version-set, owned_version-drafts}
use cogno_engram.Documents.Drafts.{
  KbDraft, put_draft, save_draft, claim_draft, draft_of, without_vector,
}

-- What a save writes on the row of the version.
abbrev pub awaiting : ℕ → ℕ → Date → VersionRow → VersionRow
awaiting pages estimated_tokens expires_at v = record v {
  state = kb_awaiting_confirmation;
  reason = [];
  finished_at = none;
  pages = pages;
  estimated_tokens = estimated_tokens;
  expires_at = some expires_at;
}

find?-put_draft :
    (d : DraftRow) (drafts : List DraftRow)
    → find? (is_draft d.document_id d.version) (put_draft d drafts) ≡ some d
unfolding put_draft
find?-put_draft d [] = ground (arith, str_eq_self d.document_id)
find?-put_draft d (x ∷ xs) = ground (arith, str_eq_self d.document_id, find?-put_draft d xs)

find?-drop_draft :
    (document_id : Str) (n : ℕ) (drafts : List DraftRow)
    → find? (is_draft document_id n) (filter (λ d. not (is_draft document_id n d)) drafts) ≡ none
find?-drop_draft document_id n [] = refl
find?-drop_draft document_id n (d ∷ ds) = ground (arith, find?-drop_draft document_id n ds)

-- Saving a draft on a version that is processed and claiming it before it expires hands over the chunks
-- that were saved, without their vectors, with the pages and the estimate of the save, and the version
-- is processed again; another claim, at any time, finds no draft.
pub save_draft-claim_draft :
    (now expires_at later : Date) (owner document_id : Str) (n : ℕ) (cs : List KbChunk)
    (pages estimated_tokens : ℕ) (st : Documents) (v : VersionRow)
    → require_owner owner ≡ ok tt
    → owned_version owner document_id n st ≡ some v
    → v.state ≡ kb_processing
    → leb expires_at later ≡ false
    → (saved final : Documents) × (draft : KbDraft) × (save_draft now owner document_id n cs pages
          estimated_tokens expires_at st
        ≡ ok (saved, true))
      × (claim_draft owner document_id n later saved ≡ ok (final, claim_ok, some draft))
      × (draft.chunks ≡ map without_vector cs)
      × (draft.pages ≡ pages)
      × (draft.estimated_tokens ≡ estimated_tokens)
      × (owned_version owner document_id n final
          ≡ some (record (awaiting pages estimated_tokens expires_at v) {
            state = kb_processing;
            claimed_at = some later;
          }))
      × ((other : Date)
          → claim_draft owner document_id n other final ≡ ok (final, claim_missing, none))
unfolding save_draft claim_draft draft_of drop_draft
save_draft-claim_draft now expires_at later owner document_id n cs pages estimated_tokens st v
      allowed found processing young =
    let draft : DraftRow = record {
      document_id = v.document_id;
      version = v.version;
      chunks = map without_vector cs;
      created_at = now;
    } in
    let saved =
      set_version v.document_id v.version (awaiting pages estimated_tokens expires_at)
        (record st { drafts = put_draft draft st.drafts }) in
    let final =
      set_version v.document_id v.version
        (λ w. record w { state = kb_processing; claimed_at = some later })
        (drop_draft v.document_id v.version saved) in
    let found' : owned_version owner document_id n saved
        ≡ some (awaiting pages estimated_tokens expires_at v) =
      owned_version-set owner document_id n (awaiting pages estimated_tokens expires_at)
        (record st { drafts = put_draft draft st.drafts }) (λ d m w. refl)
        (owned_version-drafts owner document_id n (put_draft draft st.drafts) st ∙ found) in
    let dropped = filter (λ d. not (is_draft v.document_id v.version d)) saved.drafts in
    let found'' : owned_version owner document_id n final
        ≡ some (record (awaiting pages estimated_tokens expires_at v) {
          state = kb_processing;
          claimed_at = some later;
        }) =
      owned_version-set owner document_id n
        (λ w. record w { state = kb_processing; claimed_at = some later })
        (record saved { drafts = dropped }) (λ d m w. refl)
        (owned_version-drafts owner document_id n dropped saved ∙ found') in
    (
      saved,
      final,
      record {
        document_id = v.document_id;
        version = v.version;
        embed_model = v.embed_model;
        chunk_count = length (map without_vector cs);
        pages = pages;
        estimated_tokens = estimated_tokens;
        expires_at = expires_at;
        chunks = map without_vector cs;
        created_at = now;
      },
      rw (allowed, found, processing),
      rw (allowed, found', find?-put_draft draft st.drafts, young),
      refl,
      refl,
      refl,
      found'',
      λ other. rw (allowed, found'', find?-drop_draft v.document_id v.version saved.drafts),
    )
