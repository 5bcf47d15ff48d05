-- ===== src/Errors.antt =====
-- What the adapters raise, and results that may be an exception.
use cogno_engram.Text.{Str}
use cogno_engram.Prelude.{◌≡◌, refl, ◌⊎◌, inl, inr, Bool, true, false}

-- The `ValueError`s and the two exceptions of documents.py, by what was refused.
pub data Error : Type 0 where
  blank_scope blank_session not_a_verdict : Error
  blank_owner blank_profile bad_model bad_vector bad_media_type : Error
  bad_window document_limit_reached original_too_large assertion_failed : Error
  -- `ExtractionError`, with its reason
  extraction_error : Str → Error
  -- what a callable of the host raises
  host_error : Error
  -- `asyncio.CancelledError`
  cancelled_error : Error

abbrev pub is_cancelled : Error → Bool
is_cancelled cancelled_error = true
is_cancelled _ = false

pub data Result {ℓ} (A : Type ℓ) : Type ℓ where
  ok : A → Result A
  raise : Error → Result A

infixl 5 ◌>>=◌ ◌>>◌
abbrev pub ◌>>=◌ {ℓ κ} : {A : Type ℓ} {B : Type κ} → Result A → (A → Result B) → Result B
ok a >>= f = f a
raise e >>= f = raise e

abbrev pub ◌>>◌ {ℓ} : {B : Type ℓ} → Result (Unit {0}) → Result B → Result B
m >> k = m >>= λ _. k

-- `if refused: raise e`
abbrev pub refuse_if : Bool → Error → Result (Unit {0})
refuse_if true e = raise e
refuse_if false e = ok tt

-- To split on the result of a call and keep the equation.
pub Result-cases {ℓ} :
    {A : Type ℓ} (r : Result A) → ((e : Error) × (r ≡ raise e)) ⊎ ((a : A) × (r ≡ ok a))
Result-cases (raise e) = inl (e, refl)
Result-cases (ok a) = inr (a, refl)

-- Inversion of a call whose guard let it through.
pub refuse_if-eq-ok {ℓ} :
    {B : Type ℓ} (b : Bool) (e : Error) (r : Result B) {v : B}
    → (refuse_if b e >> r) ≡ ok v
    → (b ≡ false) × (r ≡ ok v)
refuse_if-eq-ok true e r h = absurd (cc)
refuse_if-eq-ok false e r h = (refl, h)

pub ok-injective {ℓ} : {A : Type ℓ} {a b : A} → ok a ≡ ok b → a ≡ b
ok-injective h = cc

-- What a chain that returned went through: its first step returned, and so did the rest.
pub bind-returned {ℓ κ} :
    {A : Type ℓ} {B : Type κ} {v : B} (step : Result A) {rest : A → Result B}
    → (step >>= rest) ≡ ok v
    → (x : A) × (rest x ≡ ok v) × (step ≡ ok x)
bind-returned (raise e) h = absurd (cc)
bind-returned (ok x) h = (x, h, refl)
