-- ===== src/Documents/Reading/Served.antt =====
-- in_memory.py: `_served` and `read_served`.
use cogno_engram.Prelude.{
  not_none, some_same, ℕ, ◌≡◌, refl, ◌∙◌, sym, ap, subst, true, Option, none, some, List, [], ◌∷◌,
  if◌then◌else◌, Bool-cases, Option-cases, inl, inr, All, All-map,
}
use cogno_engram.Prelude.Int.{ℤ}
use mathlib.Core.List.{Memᴰ}
use cogno_engram.Text.{Str, str_eq, str_eq_iff}
use cogno_engram.Errors.{ok}
use cogno_engram.Documents.Rules.{
  require_owner, require_profile, profile_can_read, text_window, TextWindow, KbState, kb_ready,
  kb_processing, kb_awaiting_confirmation, kb_error, same_state,
}
use cogno_engram.Documents.State.Dropping.{version_at-number}
use cogno_engram.Documents.State.{DocRow, VersionRow, Documents, version_at, chunks_at}
use cogno_engram.Documents.Reading.{
  served_version, served, served_at, read_served, KbServedText, slice_of, positive,
}

-- A reader may have this version of this document: a document of the owner, published to the profile,
-- and the version that it serves, which is ready.
abbrev pub IsServed : Str → Str → Documents → DocRow → VersionRow → Type 0
IsServed owner_key profile st row v =
    (row.owner_key ≡ owner_key)
    × (profile_can_read profile row.profiles ≡ true)
    × (row.active_version ≡ some v.version)
    × (version_at row.id v.version st ≡ some v)
    × (v.state ≡ kb_ready)

is_ready : (s : KbState) → same_state s kb_ready ≡ true → s ≡ kb_ready
is_ready kb_ready h = refl
is_ready kb_processing h = absurd (cc)
is_ready kb_awaiting_confirmation h = absurd (cc)
is_ready kb_error h = absurd (cc)

ready_one :
    (w : VersionRow) {v : VersionRow}
    → (if same_state w.state kb_ready then some w else none) ≡ some v
    → (w ≡ v) × (w.state ≡ kb_ready)
ready_one w h = elim (Bool-cases (same_state w.state kb_ready)) [
  | inl e ↦ (some_same (rw e at h), is_ready w.state e)
  | inr e ↦ absurd (not_none (rw e at h))
]

served_version-IsServed :
    (owner_key profile : Str) (st : Documents) (row : DocRow) {v : VersionRow}
    → served_version owner_key profile st row ≡ some v
    → IsServed owner_key profile st row v
unfolding served_version
served_version-IsServed owner_key profile st row {v} h =
    elim (Bool-cases (str_eq row.owner_key owner_key)) [
      | inr other ↦ absurd (not_none (rw (served_version, other) at h))
      | inl own ↦ elim (Bool-cases (profile_can_read profile row.profiles)) [
        | inr hidden ↦ absurd (not_none (rw (served_version, own, hidden) at h))
        | inl shown ↦ elim (Option-cases row.active_version) [
          | inl unserved ↦ absurd (not_none (rw (served_version, own, shown, unserved) at h))
          | inr (n, active) ↦ elim (Option-cases (version_at row.id n st)) [
            | inl missing ↦
                absurd (not_none (rw (served_version, own, shown, active, missing) at h))
            | inr (w, there) ↦
                let (same, ready) =
                  ready_one w (rw (served_version, own, shown, active, there) at h) in
                let number : v.version ≡ n =
                  ap (λ u. u.version) (sym same) ∙ version_at-number row.id n st there in
                (
                  (str_eq_iff row.owner_key owner_key).0 own,
                  shown,
                  active ∙ ap some (sym number),
                  ap (λ k. version_at row.id k st) number ∙ there ∙ ap some same,
                  ap (λ u. u.state) (sym same) ∙ ready,
                )
          ]
        ]
      ]
    ]

served-IsServed :
    (owner_key profile : Str) (st : Documents) (rows : List DocRow)
    → All
        (λ p. Memᴰ p.0 rows × IsServed owner_key profile st p.0 p.1)
        (served owner_key profile st rows)
unfolding served
served-IsServed owner_key profile st [] = tt
served-IsServed owner_key profile st (row ∷ rows) =
    go (served_version owner_key profile st row) refl (
      All-map (λ p. Memᴰ p.0 rows × IsServed owner_key profile st p.0 p.1) P
        (served owner_key profile st rows) (λ p h. (Memᴰ.tail h.0, h.1))
        (served-IsServed owner_key profile st rows))
  where
    P : DocRow × VersionRow → Type 0
    P p = Memᴰ p.0 (row ∷ rows) × IsServed owner_key profile st p.0 p.1

    go :
        (o : Option VersionRow)
        → served_version owner_key profile st row ≡ o
        → All P (served owner_key profile st rows)
        → All P (elim o [
          | none ↦ served owner_key profile st rows
          | some v ↦ (row, v) ∷ served owner_key profile st rows
        ])
    go none e rest = rest
    go (some v) e rest =
        ((Memᴰ.head refl, served_version-IsServed owner_key profile st row e), rest)

served_at-All {ℓ} :
    (P : DocRow × VersionRow → Type ℓ) (document_id : Str) (ps : List (DocRow × VersionRow))
    {p : DocRow × VersionRow}
    → All P ps
    → served_at document_id ps ≡ some p
    → P p × (p.0.id ≡ document_id)
served_at-All P document_id [] h e = absurd (not_none e)
served_at-All P document_id (q ∷ ps) {p} h e = elim (Option-cases (served_at document_id ps)) [
  | inr (r, found) ↦ served_at-All P document_id ps h.1 (found ∙ (rw found at e))
  | inl missing ↦ elim (Bool-cases (str_eq q.0.id document_id)) [
    | inl same ↦
        let here : q ≡ p = some_same (rw (missing, same) at e) in
        subst (λ x. P x × (x.0.id ≡ document_id)) here (h.0, (str_eq_iff q.0.id document_id).0 same)
    | inr other ↦ absurd (not_none (rw (missing, other) at e))
  ]
]

-- Reading a served document returns, and what it shows, if anything, is of a stored document with the
-- id that was asked for, of the owner, published to the profile: its title and a slice of the chunks of
-- the version that it serves, which is ready.
pub read_served-IsServed :
    (owner_key document_id profile : Str) (after : Option ℤ) (limit : ℕ) (st : Documents)
    (w : TextWindow)
    → require_owner owner_key ≡ ok tt
    → require_profile profile ≡ ok tt
    → text_window none after limit ≡ ok w
    → (shown : Option KbServedText) × (read_served owner_key document_id profile after limit st
        ≡ ok shown)
      × ((t : KbServedText)
          → shown ≡ some t
          → (row : DocRow) × (v : VersionRow) × Memᴰ row st.docs
            × (row.id ≡ document_id)
            × IsServed owner_key profile st row v
            × (t ≡ record {
              document_id = document_id;
              version = v.version;
              title = row.title;
              pages = positive v.pages;
              slice = slice_of (λ c. true) w (chunks_at document_id v.version st);
            }))
unfolding read_served
read_served-IsServed owner_key document_id profile after limit st w owner_ok profile_ok window_ok =
    elim (Option-cases (served_at document_id (served owner_key profile st st.docs))) [
      | inl nothing ↦
          (none, rw (owner_ok, profile_ok, window_ok, nothing), λ t e. absurd (not_none e))
      | inr (p, found) ↦
          let ((stored, is_served), same) =
            served_at-All _ document_id (served owner_key profile st st.docs)
              (served-IsServed owner_key profile st st.docs) found in
          (
            some (record {
              document_id = p.0.id;
              version = p.1.version;
              title = p.0.title;
              pages = positive p.1.pages;
              slice = slice_of (λ c. true) w (chunks_at p.0.id p.1.version st);
            }),
            rw (owner_ok, profile_ok, window_ok, found),
            λ t e. (
              p.0,
              p.1,
              stored,
              same,
              is_served,
              sym (some_same e)
                  ∙ ap
                      (λ d. record {
                        document_id = d;
                        version = p.1.version;
                        title = p.0.title;
                        pages = positive p.1.pages;
                        slice = slice_of (λ c. true) w (chunks_at d p.1.version st);
                      })
                      same,
            ),
          )
    ]
