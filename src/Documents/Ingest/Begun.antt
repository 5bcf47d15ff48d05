-- ===== src/Documents/Ingest/Begun.antt =====
-- in_memory.py: the version that `begin_version` answers, in the store that it leaves.
use cogno_engram.Prelude.{
  ℕ, ◌≡◌, refl, sym, ◌∙◌, ap, Option, some, List, [], ◌∷◌, ◌++◌, Option-cases, Bool-cases, inl, inr,
  find?, not_none, some_same,
}
use cogno_engram.Text.{Str}
use cogno_engram.Errors.{ok, refuse_if-eq-ok, bind-returned, ok-injective, original_too_large}
use cogno_engram.Types.{Date}
use cogno_engram.Store.State.{date_or}
use cogno_engram.Documents.Rules.{require_owner, require_model, same_state, kb_ready}
use cogno_engram.Documents.State.{
  DocRow, VersionRow, Documents, KbVersion, owned, owned_version, version_at, versions_of,
  kb_version, drop_draft,
}
use cogno_engram.Documents.State.Dropping.{version_at-number}
use cogno_engram.Documents.Ingest.{
  begin_version, restart_version, keep_original, put_original, begun, same_upload, next_number,
  new_version, too_large,
}
use cogno_engram.Documents.Ingest.Numbers.{keep_original-versions, put_original-versions}

-- A version that is read by its number from the state that is left.
begun-read :
    (owner document_id : Str) (row : DocRow) (n : ℕ) (st st' : Documents) (kv : KbVersion)
    → owned owner document_id st ≡ some row
    → begun row n st ≡ (st', some kv)
    → owned_version owner document_id kv.row.version st' ≡ some kv.row
unfolding owned_version kb_version
begun-read owner document_id row n st st' kv e h = elim (Option-cases (version_at row.id n st)) [
  | inl f ↦ absurd (not_none (rw (begun, f) at (ap (λ p. p.1) h)))
  | inr (v, f) ↦
      let same : v ≡ kv.row = ap (λ k. k.row) (some_same (rw (begun, f) at (ap (λ p. p.1) h))) in
      let number = ap (λ w. w.version) (sym same) ∙ version_at-number row.id n st f in
      let found : owned_version owner document_id n st ≡ some v = rw (owned_version, e) f in
      ap (λ m. owned_version owner document_id m st') number
      ∙ ap (λ s. owned_version owner document_id n s) (sym (ap (λ p. p.0) h))
      ∙ found
      ∙ ap some same
]

pub owned-docs :
    (owner document_id : Str) (st st' : Documents)
    → st'.docs ≡ st.docs
    → owned owner document_id st' ≡ owned owner document_id st
unfolding owned
owned-docs owner document_id st st' h = rw (owned, h) refl

restart_version-docs :
    (claimed : Date) (v : VersionRow) (st : Documents)
    → (restart_version claimed v st).docs ≡ st.docs
unfolding restart_version drop_draft
restart_version-docs claimed v st = elim (Bool-cases (same_state v.state kb_ready)) [
  | inl e ↦ rw e refl
  | inr e ↦ rw e refl
]

-- What is answered as begun is the row of the store that is left, under its number.
pub begin_version-found :
    (clock : Date) (owner document_id sha256 embed_model : Str) (size_bytes : ℕ)
    (original : Option (List ℕ)) (now : Option Date) (st st' : Documents) (kv : KbVersion)
    → begin_version clock owner document_id sha256 embed_model size_bytes original now st
      ≡ ok (st', some kv)
    → owned_version owner document_id kv.row.version st' ≡ some kv.row
unfolding begin_version
begin_version-found clock owner document_id sha256 embed_model size original now st st' kv h =
    let (_, h1, _) = bind-returned (require_owner owner) h in
    let (_, h2, _) = bind-returned (require_model embed_model st.embedding_dim) h1 in
    let (_, h3) =
      refuse_if-eq-ok (too_large st.max_original_bytes original) original_too_large _ h2 in
    elim (Option-cases (owned owner document_id st)) [
      | inl e ↦ absurd (not_none (ap (λ p. p.1) (ok-injective (rw e at h3))))
      | inr (row, e) ↦
          elim (Option-cases (find? (same_upload sha256 embed_model) (versions_of row.id st))) [
            | inr (v, f) ↦
                let again = restart_version (date_or clock now) v st in
                let kept = keep_original row v.version original again in
                begun-read owner document_id row v.version kept st' kv
                  (owned-docs owner document_id st kept (
                      (keep_original-versions row v.version original again).1
                      ∙ restart_version-docs (date_or clock now) v st)
                    ∙ e)
                  (ok-injective (rw (e, f) at h3))
            | inl f ↦
                let number = next_number row.id st in
                let added : Documents = record st {
                  versions =
                      st.versions
                      ++ new_version row.id number sha256 embed_model size clock (date_or clock now)
                        ∷ [];
                } in
                let stored = put_original row number original added in
                begun-read owner document_id row number stored st' kv
                  (owned-docs owner document_id st stored
                      ((put_original-versions row number original added).1)
                    ∙ e)
                  (ok-injective (rw (e, f) at h3))
          ]
    ]
