-- ===== src/Documents/Ingest/Failure.antt =====
-- in_memory.py: `fail_version`, and the reasons of documents.py.
use cogno_engram.Prelude.{
  ℕ, ◌≡◌, refl, ◌∙◌, ◌⊎◌, sym, subst, Bool, true, false, not, none, some, List, [], ◌∷◌, ◌++◌,
  arith, if◌then◌else◌, any, filter, find?, Bool-cases, Option-cases, inl, inr, not_none, some_same,
}
use cogno_engram.Text.{Str, str_eq, strip}
use cogno_engram.Folding.{Unicode}
use cogno_engram.Errors.{ok}
use cogno_engram.Types.{Date}
use cogno_engram.Documents.Rules.{
  require_owner, same_state, kb_ready, kb_error, sanitize_reason, valid_kb_reasons, reason_internal,
  tombstone_failed,
}
use cogno_engram.Documents.State.{
  ChunkEntry, VersionRow, Documents, owned_version, drop_content, bury, chunks_at, is_entry,
}
use cogno_engram.Documents.State.Ownership.{
  owned_version-set, owned_version-drop_content, owned_version-bury,
}
use cogno_engram.Documents.Ingest.{fail_version, fail_found}

internal_valid : any (str_eq reason_internal) valid_kb_reasons ≡ true
unfolding str_eq
internal_valid = refl

-- Whatever is given as a reason, the one that is kept is of the closed vocabulary.
sanitize_reason-valid :
    (uni : Unicode) (raw : Str) → any (str_eq (sanitize_reason uni raw)) valid_kb_reasons ≡ true
unfolding sanitize_reason
sanitize_reason-valid uni raw = go (any (str_eq (uni.lower (strip raw))) valid_kb_reasons) refl
  where
    go :
        (b : Bool)
        → any (str_eq (uni.lower (strip raw))) valid_kb_reasons ≡ b
        → any (str_eq (if b then uni.lower (strip raw) else reason_internal)) valid_kb_reasons
          ≡ true
    go true e = e
    go false e = internal_valid

-- What a failure writes on the row of the version.
abbrev pub failed : Date → Str → VersionRow → VersionRow
failed now reason v = record v { state = kb_error; reason = reason; finished_at = some now }

fail_found-version :
    (uni : Unicode) (now : Date) (owner document_id : Str) (n : ℕ) (v : VersionRow) (reason : Str)
    (st : Documents)
    → owned_version owner document_id n st ≡ some v
    → owned_version owner document_id n (fail_found uni now owner v reason st)
      ≡ some (failed now (sanitize_reason uni reason) v)
unfolding fail_found
fail_found-version uni now owner document_id n v reason st found =
    let set =
      owned_version-set owner document_id n (failed now (sanitize_reason uni reason)) st
        (λ d m w. refl) found in
    elim (Bool-cases (same_state v.state kb_error)) [
      | inl e ↦
          rw e (owned_version-drop_content owner document_id n v.document_id v.version _ ∙ set)
      | inr e ↦ rw e (
          owned_version-bury owner document_id n _ _
          ∙ owned_version-drop_content owner document_id n v.document_id v.version _
          ∙ set)
    ]

fail_found-tombstones :
    (uni : Unicode) (now : Date) (owner : Str) (v : VersionRow) (reason : Str) (st : Documents)
    → (fail_found uni now owner v reason st).tombstones ≡ (
        if same_state v.state kb_error
        then st.tombstones
        else st.tombstones
          ++ record {
            owner_key = owner;
            document_id = v.document_id;
            versions = v.version ∷ [];
            kind = tombstone_failed;
            actor = [];
            removed_at = now;
            reason = sanitize_reason uni reason;
          }
            ∷ [])
unfolding fail_found drop_content bury
fail_found-tombstones uni now owner v reason st = elim (Bool-cases (same_state v.state kb_error)) [
  | inl e ↦ rw e
  | inr e ↦ rw e
]

nothing_staged :
    (document_id : Str) (n : ℕ) (xs : List ChunkEntry)
    → find? (is_entry document_id n) (filter (λ c. not (is_entry document_id n c)) xs) ≡ none
nothing_staged document_id n [] = refl
nothing_staged document_id n (x ∷ xs) = ground (arith, nothing_staged document_id n xs)

fail_found-chunks :
    (uni : Unicode) (now : Date) (owner : Str) (v : VersionRow) (reason : Str) (st : Documents)
    → chunks_at v.document_id v.version (fail_found uni now owner v reason st) ≡ []
unfolding fail_found drop_content bury chunks_at
fail_found-chunks uni now owner v reason st = elim (Bool-cases (same_state v.state kb_error)) [
  | inl e ↦ rw (e, chunks_at, nothing_staged v.document_id v.version st.chunks)
  | inr e ↦ rw (e, chunks_at, nothing_staged v.document_id v.version st.chunks)
]

-- Failing a version answers false and leaves the store where the version is not there or is ready. Else
-- it answers true: the version is in error with a reason of the closed vocabulary, none of its chunks is
-- staged, and one tombstone with the reason is added, unless the version was in error before; failing it
-- again, with any reason, answers true and adds no tombstone.
pub fail_version-ends :
    (uni : Unicode) (now : Date) (owner document_id : Str) (n : ℕ) (reason : Str) (st : Documents)
    → require_owner owner ≡ ok tt
    → ((fail_version uni now owner document_id n reason st ≡ ok (st, false))
        × ((v : VersionRow)
            → owned_version owner document_id n st ≡ some v
            → same_state v.state kb_ready ≡ true))
      ⊎ ((v : VersionRow) × (st' : Documents) × (kept : Str) × (owned_version owner document_id n st
            ≡ some v)
          × (same_state v.state kb_ready ≡ false)
          × (fail_version uni now owner document_id n reason st ≡ ok (st', true))
          × (any (str_eq kept) valid_kb_reasons ≡ true)
          × (owned_version owner document_id n st' ≡ some (failed now kept v))
          × (chunks_at v.document_id v.version st' ≡ [])
          × (st'.tombstones ≡ (
              if same_state v.state kb_error
              then st.tombstones
              else st.tombstones
                ++ record {
                  owner_key = owner;
                  document_id = v.document_id;
                  versions = v.version ∷ [];
                  kind = tombstone_failed;
                  actor = [];
                  removed_at = now;
                  reason = kept;
                }
                  ∷ []))
          × ((later : Date) (other : Str)
              → (st'' : Documents) × (fail_version uni later owner document_id n other st'
                  ≡ ok (st'', true))
                × (st''.tombstones ≡ st'.tombstones)))
unfolding fail_version
fail_version-ends uni now owner document_id n reason st allowed =
    elim (Option-cases (owned_version owner document_id n st)) [
      | inl missing ↦ inl (rw (allowed, missing), λ v e. absurd (not_none (sym missing ∙ e)))
      | inr (v, found) ↦ elim (Bool-cases (same_state v.state kb_ready)) [
        | inl ready ↦ inl (
          rw (allowed, found, ready),
          λ w e. subst (λ x. same_state x.state kb_ready ≡ true) (some_same (sym found ∙ e)) ready,
        )
        | inr unserved ↦
            let st' = fail_found uni now owner v reason st in
            let found' = fail_found-version uni now owner document_id n v reason st found in
            inr (
              v,
              st',
              sanitize_reason uni reason,
              found,
              unserved,
              rw (allowed, found, unserved),
              sanitize_reason-valid uni reason,
              found',
              fail_found-chunks uni now owner v reason st,
              fail_found-tombstones uni now owner v reason st,
              λ later other. (
                fail_found uni later owner (failed now (sanitize_reason uni reason) v) other st',
                rw (allowed, found'),
                fail_found-tombstones uni later owner (failed now (sanitize_reason uni reason) v)
                    other st',
              ),
            )
      ]
    ]
