-- ===== src/Documents/Ingest/Commit.antt =====
-- in_memory.py: `commit_version`, on a version that is there.
use cogno_engram.Prelude.{
  ℕ, ◌≡◌, refl, ◌∙◌, ◌⊎◌, ap, true, false, not, ◌&&◌, some, [], ◌∷◌, if◌then◌else◌, filter, length,
  leb, Bool-cases, inl, inr, All,
}
use cogno_engram.Text.{Str, str_eq}
use cogno_engram.Errors.{ok}
use cogno_engram.Types.{Date}
use cogno_engram.Documents.Rules.{
  require_owner, KbState, kb_processing, kb_awaiting_confirmation, kb_ready, kb_error, same_state,
  commit_ready, commit_superseded,
}
use cogno_engram.Documents.State.{
  VersionRow, DocRow, Documents, is_version, owned, version_at, chunks_at, drop_version,
  supersede_tombstone,
}
use cogno_engram.Documents.State.Dropping.{version_at-number}
use cogno_engram.Documents.Ingest.{is_newest, is_active, commit_found, commit_version, swap}
use cogno_engram.Documents.Ingest.Swap.{ready_version, swap-serves}

not_ready : (s : KbState) → same_state s kb_processing ≡ true → same_state s kb_ready ≡ false
not_ready kb_processing h = refl
not_ready kb_awaiting_confirmation h = absurd (cc)
not_ready kb_ready h = absurd (cc)
not_ready kb_error h = absurd (cc)

left_alone :
    (now : Date) (owner document_id : Str) (n pages : ℕ) (row : DocRow) (v : VersionRow)
    (st : Documents)
    → require_owner owner ≡ ok tt
    → owned owner document_id st ≡ some row
    → version_at row.id n st ≡ some v
    → is_newest row.id v st ≡ true
    → same_state v.state kb_processing ≡ false
    → commit_version now owner document_id n pages st
      ≡ ok (
        st,
        if same_state v.state kb_ready && is_active row v then commit_ready else commit_superseded,
      )
unfolding commit_version commit_found
left_alone now owner document_id n pages row v st allowed found there newest other =
    elim (Bool-cases (same_state v.state kb_ready && is_active row v)) [
      | inl e ↦ rw (allowed, found, there, newest, e)
      | inr e ↦ rw (allowed, found, there, newest, e, other)
    ]

-- A commit by the owner of a document returns, and of a version that is there it answers by the case:
-- the newest version, being processed, is served from then on, ready, with the chunks that were staged
-- for it and their number, and no older version of the document is left; a version that is not the
-- newest is removed, and no document serves another version than before; any other version leaves
-- the store as it was.
pub commit_version-serves :
    (now : Date) (owner document_id : Str) (n pages : ℕ) (row : DocRow) (v : VersionRow)
    (st : Documents)
    → require_owner owner ≡ ok tt
    → owned owner document_id st ≡ some row
    → version_at row.id n st ≡ some v
    → (st' : Documents) × (((commit_version now owner document_id n pages st
            ≡ ok (st', commit_ready))
          × (is_newest row.id v st ≡ true)
          × (same_state v.state kb_processing ≡ true)
          × (owned owner document_id st'
              ≡ some (record row { active_version = some v.version; updated_at = some now }))
          × (version_at row.id v.version st'
              ≡ some (ready_version now pages (length (chunks_at row.id v.version st)) v))
          × All
              (λ w. str_eq w.document_id row.id ≡ true → leb v.version w.version ≡ true)
              st'.versions
          × (chunks_at row.id v.version st' ≡ chunks_at row.id v.version st))
        ⊎ ((commit_version now owner document_id n pages st ≡ ok (st', commit_superseded))
            × (is_newest row.id v st ≡ false)
            × (st'.docs ≡ st.docs)
            × (st'.versions ≡ filter (λ w. not (is_version row.id v.version w)) st.versions))
        ⊎ ((is_newest row.id v st ≡ true)
            × (same_state v.state kb_processing ≡ false)
            × (st' ≡ st)
            × (commit_version now owner document_id n pages st
                ≡ ok (
                  st',
                  if same_state v.state kb_ready && is_active row v
                      then commit_ready
                      else commit_superseded,
                ))))
unfolding commit_version commit_found
commit_version-serves now owner document_id n pages row v st allowed found there =
    let number : v.version ≡ n = version_at-number row.id n st there in
    elim (Bool-cases (is_newest row.id v st)) [
      | inl newest ↦ elim (Bool-cases (same_state v.state kb_processing)) [
        | inl processing ↦
            (let (kept_doc, kept_version, newer, kept_chunks) =
                swap-serves now owner document_id row v pages st found
                  (ap (λ k. version_at row.id k st) number ∙ there) in
              (
                swap now row v pages st,
                inl (
                  rw (allowed, found, there, newest, processing, not_ready v.state processing),
                  newest,
                  processing,
                  kept_doc,
                  kept_version,
                  newer,
                  kept_chunks,
                ),
              ))
        | inr other ↦ (
          st,
          inr (
              inr (
                newest,
                other,
                refl,
                left_alone now owner document_id n pages row v st allowed found there newest other,
              )),
        )
      ]
      | inr late ↦ (
        supersede_tombstone row (v.version ∷ []) now (drop_version row.id v.version st),
        inr (inl (rw (allowed, found, there, late), late, refl, refl)),
      )
    ]
