-- ===== src/Tests/Claim.antt =====
-- The theorems of Documents.Drafts.Claim at sample data.
use cogno_engram.Prelude.{◌≡◌, refl, true, none, some, map}
use cogno_engram.Text.{str_eq}
use cogno_engram.Errors.{ok}
use cogno_engram.Types.{Date}
use cogno_engram.Documents.Rules.{kb_processing, claim_ok, claim_missing}
use cogno_engram.Documents.State.{Documents, owned, owned_version, version_at}
use cogno_engram.Documents.Drafts.{KbDraft, save_draft, claim_draft, without_vector}
use cogno_engram.Tests.DocumentSamples.{
  owner, doc_id, version_row, three_chunks, library, owner_allowed,
}
use cogno_engram.Documents.Drafts.Claim.{awaiting, save_draft-claim_draft}

processed_version : owned_version owner doc_id 2 library ≡ some (version_row 2 kb_processing)
unfolding owned_version owned version_at str_eq
processed_version = refl

save_draft-claim_draft_example :
    (saved final : Documents) × (draft : KbDraft) × (save_draft 9 owner doc_id 2 three_chunks 0 30
        20 library
      ≡ ok (saved, true))
    × (claim_draft owner doc_id 2 12 saved ≡ ok (final, claim_ok, some draft))
    × (draft.chunks ≡ map without_vector three_chunks)
    × (draft.pages ≡ 0)
    × (draft.estimated_tokens ≡ 30)
    × (owned_version owner doc_id 2 final
        ≡ some (record (awaiting 0 30 20 (version_row 2 kb_processing)) {
          state = kb_processing;
          claimed_at = some 12;
        }))
    × ((other : Date) → claim_draft owner doc_id 2 other final ≡ ok (final, claim_missing, none))
save_draft-claim_draft_example =
    save_draft-claim_draft 9 20 12 owner doc_id 2 three_chunks 0 30 library
      (version_row 2 kb_processing) owner_allowed processed_version refl refl
