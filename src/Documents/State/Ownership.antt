-- ===== src/Documents/State/Ownership.antt =====
-- in_memory.py: a version that is read through its owner and its document, after a write of its row.
use cogno_engram.Prelude.{
  not_none, ℕ, ◌≡◌, refl, ap, Bool, some, List, [], ◌∷◌, arith, find?, update_first, Bool-cases,
  Option-cases, find?-passes, inl, inr,
}
use cogno_engram.Text.{Str, str_eq_iff}
use cogno_engram.Documents.State.{
  VersionRow, DraftRow, Documents, is_version, owned, owned_version, version_at, set_version,
  KbTombstone, drop_content, bury,
}

pub find?-set {ℓ} :
    {A : Type ℓ} (p : A → Bool) (f : A → A) (xs : List A) {x : A}
    → ((x : A) → p (f x) ≡ p x)
    → find? p xs ≡ some x
    → find? p (update_first p f xs) ≡ some (f x)
find?-set p f [] same h = absurd (cc)
find?-set p f (y ∷ xs) {x} same h = elim (Bool-cases (p y)) [
  | inl e ↦ rw (e, same y, e) (ap (λ z. some (f z)) (ground arith))
  | inr e ↦ rw (e, e) (find?-set p f xs same (ground arith))
]

pub find?-set_version :
    (document_id : Str) (n : ℕ) (f : VersionRow → VersionRow) (versions : List VersionRow)
    {v : VersionRow}
    → ((d : Str) (m : ℕ) (w : VersionRow) → is_version d m (f w) ≡ is_version d m w)
    → find? (is_version document_id n) versions ≡ some v
    → find?
        (is_version document_id n)
        (update_first (is_version v.document_id v.version) f versions)
      ≡ some (f v)
find?-set_version document_id n f versions {v} same h =
    let found = find?-passes (is_version document_id n) versions h in
    let e : v.document_id ≡ document_id =
      ground (arith, found, str_eq_iff v.document_id document_id) in
    let k : v.version ≡ n = ground (arith, found) in go e k
  where
    go :
        {d : Str} {m : ℕ}
        → d ≡ document_id
        → m ≡ n
        → find? (is_version document_id n) (update_first (is_version d m) f versions) ≡ some (f v)
    go e k = rw (e, k) (find?-set (is_version document_id n) f versions (same document_id n) h)

-- A row that is read through its owner is read changed once it is changed.
pub owned_version-set :
    (owner document_id : Str) (n : ℕ) (f : VersionRow → VersionRow) (st : Documents)
    {v : VersionRow}
    → ((d : Str) (m : ℕ) (w : VersionRow) → is_version d m (f w) ≡ is_version d m w)
    → owned_version owner document_id n st ≡ some v
    → owned_version owner document_id n (set_version v.document_id v.version f st) ≡ some (f v)
unfolding owned_version owned version_at
owned_version-set owner document_id n f st {v} same h =
    elim (Option-cases (owned owner document_id st)) [
      | inl e ↦ absurd (not_none (rw (owned_version, e) at h))
      | inr (row, e) ↦
          rw (owned_version, e)
            (find?-set_version row.id n f st.versions same (rw (owned_version, e) at h))
    ]

pub owned_version-drafts :
    (owner document_id : Str) (n : ℕ) (drafts : List DraftRow) (st : Documents)
    → owned_version owner document_id n (record st { drafts = drafts })
      ≡ owned_version owner document_id n st
unfolding owned_version owned version_at
owned_version-drafts owner document_id n drafts st = refl

pub owned_version-drop_content :
    (owner document_id : Str) (n : ℕ) (d : Str) (m : ℕ) (st : Documents)
    → owned_version owner document_id n (drop_content d m st) ≡ owned_version owner document_id n st
unfolding owned_version owned version_at drop_content
owned_version-drop_content owner document_id n d m st = refl

pub owned_version-bury :
    (owner document_id : Str) (n : ℕ) (t : KbTombstone) (st : Documents)
    → owned_version owner document_id n (bury t st) ≡ owned_version owner document_id n st
unfolding owned_version owned version_at bury
owned_version-bury owner document_id n t st = refl
