-- ===== src/Types/Audience/Isolation.antt =====
-- types.py: `audience_can_read` over the audiences of two contacts.
use cogno_engram.Prelude.{
  ◌≡◌, refl, ◌≢◌, ◌↔◌, ◌⊎◌, true, false, not, ◌&&◌, Option, some, [], ◌∷◌, ◌++◌, Bool-cases, inl,
  inr, sym, ap, ◌∙◌,
}
use cogno_engram.Text.{
  Str, codes, str_eq, str_eq_iff, str_eq_self, strip, strip_idem, is_empty, is_blank, is_space,
  starts_with, strip-prefixed,
}
use cogno_engram.Types.Audience.{
  audience_unclassified, audience_tenant, audience_staff, audience_identity_prefix, or_empty,
  audience_for, is_identity, sanitize_audience, audience_can_read,
}

-- The three outcomes of the normalisation.
sanitize_audience-cases :
    (raw : Option Str)
    → (sanitize_audience raw ≡ audience_tenant)
      ⊎ ((sanitize_audience raw ≡ audience_unclassified)
          ⊎ ((sanitize_audience raw ≡ strip (or_empty raw))
              × (is_identity (strip (or_empty raw)) ≡ true)
              × (str_eq (strip (or_empty raw)) audience_tenant ≡ false)))
unfolding sanitize_audience
sanitize_audience-cases raw = elim (Bool-cases (str_eq (strip (or_empty raw)) audience_tenant)) [
  | inl e ↦ inl (rw e)
  | inr e ↦ elim (Bool-cases (is_identity (strip (or_empty raw)))) [
    | inl i ↦ inr (inr (rw (e, i), i, e))
    | inr i ↦ inr (inl (rw (e, i)))
  ]
]

tenant-canonical : sanitize_audience (some audience_tenant) ≡ audience_tenant
unfolding sanitize_audience strip str_eq
tenant-canonical = refl

unclassified-canonical : sanitize_audience (some audience_unclassified) ≡ audience_unclassified
unfolding sanitize_audience strip str_eq starts_with
unclassified-canonical = refl

-- A stripped identity audience is kept as it is.
identity-canonical :
    (s : Str)
    → strip s ≡ s
    → is_identity s ≡ true
    → str_eq s audience_tenant ≡ false
    → sanitize_audience (some s) ≡ s
unfolding sanitize_audience
identity-canonical s e i n = rw (e, n, i)

-- A canonical audience is left alone.
pub sanitize_audience_idem :
    (raw : Option Str) → sanitize_audience (some (sanitize_audience raw)) ≡ sanitize_audience raw
sanitize_audience_idem raw = elim (sanitize_audience-cases raw) [
  | inl e ↦ rw e tenant-canonical
  | inr (inl e) ↦ rw e unclassified-canonical
  | inr (inr (e, i, n)) ↦
      rw e (identity-canonical (strip (or_empty raw)) (strip_idem (or_empty raw)) i n)
]

is_identity-staff : is_identity audience_staff ≡ false
unfolding is_identity starts_with
is_identity-staff = refl

-- No stored audience is the argument of a staff read.
pub sanitize_audience-ne-staff : (raw : Option Str) → sanitize_audience raw ≢ audience_staff
sanitize_audience-ne-staff raw h = elim (sanitize_audience-cases raw) [
  | inl e ↦ cc (sym e ∙ h)
  | inr (inl e) ↦ cc (sym e ∙ h)
  | inr (inr (e, i, n)) ↦ cc (sym i ∙ ap is_identity (sym e ∙ h) ∙ is_identity-staff)
]

-- Staff reads every row.
pub staff-can_read : (row : Str) → audience_can_read audience_staff row ≡ true
unfolding audience_can_read
staff-can_read row = rw (str_eq_self audience_staff)

read_guard :
    (row reader : Str)
    → (not (is_empty row) && str_eq row reader) ≡ true
    → (row ≡ reader) × (row ≢ [])
read_guard [] reader h = absurd (cc)
read_guard (c ∷ row) reader h = ((str_eq_iff _ _).0 h, λ e. cc)

-- A row that is read by someone who is not staff is a business fact, or carries the reader's own
-- audience, which is not the blank one.
pub can_read-cases :
    (reader row : Str)
    → str_eq reader audience_staff ≡ false
    → audience_can_read reader row ≡ true
    → (sanitize_audience (some row) ≡ audience_tenant)
      ⊎ ((sanitize_audience (some row) ≡ sanitize_audience (some reader))
          × (sanitize_audience (some row) ≢ audience_unclassified))
unfolding audience_can_read
can_read-cases reader row s h =
    elim (Bool-cases (str_eq (sanitize_audience (some row)) audience_tenant)) [
      | inl t ↦ inl ((str_eq_iff _ _).0 t)
      | inr t ↦ inr (read_guard _ _ (rw (s, t) at h))
    ]

-- A reader that is not staff never sees an unclassified row, whoever it is.
pub unclassified-unreadable :
    (reader row : Str)
    → str_eq reader audience_staff ≡ false
    → sanitize_audience (some row) ≡ audience_unclassified
    → audience_can_read reader row ≡ false
unfolding audience_can_read str_eq
unclassified-unreadable reader row s e = rw (s, e)

prefixed-canonical :
    (s : Str)
    → strip s ≡ s
    → is_empty s ≡ false
    → sanitize_audience (some (audience_identity_prefix ++ s)) ≡ audience_identity_prefix ++ s
unfolding is_identity str_eq starts_with is_space
prefixed-canonical s e k =
    identity-canonical (audience_identity_prefix ++ s)
      (strip-prefixed b'i' (codes "dentity:") s refl e k) (unfold is_blank in rw (e, k)) refl

-- The audience of an identity is canonical.
pub audience_for-canonical :
    (id : Option Str) → sanitize_audience (some (audience_for id)) ≡ audience_for id
unfolding audience_for
audience_for-canonical id = elim (Bool-cases (is_empty (strip (or_empty id)))) [
  | inl e ↦ rw e unclassified-canonical
  | inr e ↦ rw e (prefixed-canonical _ (strip_idem (or_empty id)) e)
]

audience_for-not_staff : (id : Option Str) → str_eq (audience_for id) audience_staff ≡ false
audience_for-not_staff id = elim (Bool-cases (str_eq (audience_for id) audience_staff)) [
  | inl e ↦ absurd (sanitize_audience-ne-staff _ (audience_for-canonical id ∙ (str_eq_iff _ _).0 e))
  | inr e ↦ e
]

audience_for-not_tenant : (id : Option Str) → str_eq (audience_for id) audience_tenant ≡ false
unfolding audience_for str_eq
audience_for-not_tenant id = elim (Bool-cases (is_empty (strip (or_empty id)))) [
  | inl e ↦ rw e
  | inr e ↦ rw e
]

audience_for-injective :
    (a b : Str)
    → is_empty (strip b) ≡ false
    → audience_for (some b) ≡ audience_for (some a)
    → strip a ≡ strip b
unfolding audience_for
audience_for-injective a b k h = elim (Bool-cases (is_empty (strip a))) [
  | inl e ↦ absurd (cc (rw (k, e) at h))
  | inr e ↦ cc (rw (k, e) at h)
]

-- An identity reads the rows that carry its own audience.
own-can_read :
    (owner : Str)
    → is_empty (strip owner) ≡ false
    → audience_can_read (audience_for (some owner)) (audience_for (some owner)) ≡ true
unfolding audience_can_read
own-can_read owner k =
    rw
      (
        audience_for-not_staff (some owner),
        audience_for-canonical (some owner),
        audience_for-not_tenant (some owner),
        str_eq_self (audience_for (some owner)),
      )
      (unfold audience_for in rw k)

same-audience : (a b : Str) → strip a ≡ strip b → audience_for (some a) ≡ audience_for (some b)
unfolding audience_for
same-audience a b e = rw e

-- A contact reads another's rows exactly when the two are one identity, up to white space.
pub identity_isolation :
    (reader owner : Str)
    → is_blank owner ≡ false
    → (audience_can_read (audience_for (some reader)) (audience_for (some owner)) ≡ true)
      ↔ (strip reader ≡ strip owner)
identity_isolation reader owner k = (
  λ h. elim (can_read-cases _ _ (audience_for-not_staff (some reader)) h) [
    | inl t ↦ absurd (
        cc (
          (str_eq_iff _ _).1 (sym (audience_for-canonical (some owner)) ∙ t),
          audience_for-not_tenant (some owner),
        ))
    | inr (e, _) ↦
        audience_for-injective reader owner (unfold is_blank in k)
          (sym (audience_for-canonical (some owner)) ∙ e ∙ audience_for-canonical (some reader))
  ],
  λ e. rw (same-audience reader owner e) (own-can_read owner (unfold is_blank in k)),
)
