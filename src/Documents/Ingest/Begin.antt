-- ===== src/Documents/Ingest/Begin.antt =====
-- in_memory.py, `begin_version`: the whole method.
use cogno_engram.Prelude.{
  ℕ, ◌≡◌, refl, ◌∙◌, ◌⊎◌, true, false, Option, none, some, List, [], ◌∷◌, ◌++◌, arith, find?, ltb,
  Option-cases, inl, inr, All, All-map, Pairwise-snoc,
}
use cogno_engram.Text.{Str, str_eq, str_eq_comm, str_eq_self}
use cogno_engram.Errors.{ok}
use cogno_engram.Types.{Date}
use cogno_engram.Store.State.{date_or}
use cogno_engram.Documents.Rules.{require_owner, require_model}
use cogno_engram.Documents.State.{
  version_at, kb_version, DocRow, VersionRow, Documents, is_version, owned, versions_of, KbVersion,
}
use cogno_engram.Prelude.{find?-snoc, any_of_All-not}
use cogno_engram.Documents.Ingest.{
  begin_version, restart_version, keep_original, put_original, next_number, new_version,
  same_upload, too_large, begun,
}
use cogno_engram.Documents.Ingest.Numbers.{
  KeysUnique, keep_original-versions, put_original-versions, restart_version_unique, above_all,
}
use cogno_engram.Documents.Ingest.Reuse.{
  Reused, versions_of-at, restart_version-Reused, version_at-versions, begun-at, Reused-kept,
}

-- The version that is added stands under its number.
added-at :
    (document_id : Str) (st : Documents) (added : VersionRow)
    → added.document_id ≡ document_id
    → added.version ≡ next_number document_id st
    → find? (is_version document_id (next_number document_id st)) (st.versions ++ added ∷ [])
      ≡ some added
added-at document_id st added own number =
    let at = is_version document_id (next_number document_id st) in
    find?-snoc at st.versions added
      (any_of_All-not at st.versions
        (All-map _ _ st.versions (λ w h. ground (arith, h)) (above_all document_id st)))
      (ground (arith, own, number, str_eq_self document_id))

-- Beginning a version, by the owner, with a label of the store's width and bytes that are not too many,
-- returns, and no two versions share document and number afterwards. An upload with the content and
-- the model of a version that is there adds no version: a ready one is answered as it is, and nothing
-- of versions and drafts changes; any other is restarted and answered, being processed again, without a
-- reason, an end or a draft, and no other version changes. Any other upload adds one at the end, being
-- processed, whose number is larger than that of every version of the document, and answers it.
pub begin_version_unique :
    (clock : Date) (owner document_id sha256 embed_model : Str) (size_bytes : ℕ)
    (original : Option (List ℕ)) (now : Option Date) (st : Documents) (row : DocRow)
    → require_owner owner ≡ ok tt
    → require_model embed_model st.embedding_dim ≡ ok tt
    → too_large st.max_original_bytes original ≡ false
    → owned owner document_id st ≡ some row
    → KeysUnique st.versions
    → (st' : Documents) × (answer : Option KbVersion) × (begin_version clock owner document_id
          sha256 embed_model size_bytes original now st
        ≡ ok (st', answer))
      × KeysUnique st'.versions
      × (((v : VersionRow) × (find? (same_upload sha256 embed_model) (versions_of row.id st)
              ≡ some v)
            × (w : VersionRow) × (version_at row.id v.version st' ≡ some w)
            × (answer ≡ some (kb_version st' w))
            × Reused (date_or clock now) row v w st st')
          ⊎ ((n : ℕ) × (find? (same_upload sha256 embed_model) (versions_of row.id st) ≡ none)
              × (st'.versions
                  ≡ st.versions
                    ++ new_version row.id n sha256 embed_model size_bytes clock (date_or clock now)
                      ∷ [])
              × (answer
                  ≡ some (
                      kb_version st' (
                        new_version row.id n sha256 embed_model size_bytes clock
                          (date_or clock now))))
              × All (λ w. str_eq w.document_id row.id ≡ true → ltb w.version n ≡ true) st.versions))
unfolding begin_version
begin_version_unique clock owner document_id sha256 embed_model size_bytes original now st row
      allowed labelled small found u =
    elim (Option-cases (find? (same_upload sha256 embed_model) (versions_of row.id st))) [
      | inl fresh_upload ↦
          let n = next_number row.id st in
          let entry =
            new_version row.id n sha256 embed_model size_bytes clock (date_or clock now) in
          let added : Documents = record st { versions = st.versions ++ entry ∷ [] } in
          let st' = put_original row n original added in
          (
            st',
            (begun row n st').1,
            rw (allowed, labelled, small, found, fresh_upload),
            rw ((put_original-versions row n original added).0) (
                Pairwise-snoc (λ a b. is_version a.document_id a.version b ≡ false) st.versions _ u
                  (All-map _ _ st.versions
                    (λ w h. ground (arith, h, str_eq_comm w.document_id row.id))
                    (above_all row.id st))),
            inr (
              n,
              fresh_upload,
              (put_original-versions row n original added).0,
              begun-at row n st' (
                  version_at-versions row.id n added st'
                    ((put_original-versions row n original added).0)
                  ∙ unfold version_at in added-at row.id st entry refl refl),
              above_all row.id st,
            ),
          )
      | inr (v, again) ↦
          let restarted_st = restart_version (date_or clock now) v st in
          let st' = keep_original row v.version original restarted_st in
          let kept = keep_original-versions row v.version original restarted_st in
          let (own, at) = versions_of-at row.id (same_upload sha256 embed_model) st again u in
          let (w, at', reused) = restart_version-Reused (date_or clock now) row v st own at in
          let there = version_at-versions row.id v.version restarted_st st' kept.0 ∙ at' in
          (
            st',
            (begun row v.version st').1,
            rw (allowed, labelled, small, found, again),
            rw ((keep_original-versions row v.version original restarted_st).0)
                (restart_version_unique (date_or clock now) v st u),
            inl (
              v,
              again,
              w,
              there,
              begun-at row v.version st' there,
              Reused-kept (date_or clock now) row v w st restarted_st st' kept.0 kept.2 reused,
            ),
          )
    ]
