-- ===== src/Buffer/Window.antt =====
-- in_memory.py, `InMemoryBuffer`: what a window shows after the pushes.
use cogno_engram.Prelude.{
  ℕ, ◌-◌, ◌≡◌, refl, ap, not, List, [], ◌∷◌, ◌++◌, arith, if◌then◌else◌, filter, length, drop, take,
  zero, suc, ◌<◌, min,
}
use mathlib.Core.List.{append_assoc}
use cogno_engram.Prelude.Int.{ℤ, pos}
use cogno_engram.Text.{Str, codes, str_eq, str_eq_iff}
use cogno_engram.Errors.{ok}
use cogno_engram.Types.{TurnRecord}
use cogno_engram.Graph.State.{require_scope}
use cogno_engram.Buffer.{Buffer, buffer_key, turns_at, append_at, last_of, push, window, clear}

turns_at-append_at :
    (key other : Str) (turn : TurnRecord) (b : Buffer)
    → turns_at other (append_at key turn b)
      ≡ (if str_eq key other then turns_at other b ++ turn ∷ [] else turns_at other b)
unfolding turns_at append_at
turns_at-append_at key other turn [] = ground arith
turns_at-append_at key other turn (s ∷ b) = ground (
  arith,
  turns_at-append_at key other turn b,
  str_eq_iff s.key key,
  str_eq_iff s.key other,
  str_eq_iff key other,
)

turns_at-clear :
    (key other : Str) (b : Buffer)
    → turns_at other (filter (λ s. not (str_eq s.key key)) b)
      ≡ (if str_eq key other then [] else turns_at other b)
unfolding turns_at
turns_at-clear key other [] = ground arith
turns_at-clear key other (s ∷ b) = ground (
  arith,
  turns_at-clear key other b,
  str_eq_iff s.key key,
  str_eq_iff s.key other,
  str_eq_iff key other,
)

-- A push adds its turn at the end of the windows of its own key, and changes no other window. A clear
-- empties the windows of its key, and no other.
pub window-push :
    (scope session_id other_scope other_id : Str) (size : ℤ) (turn : TurnRecord) (b : Buffer)
    → require_scope scope ≡ ok tt
    → require_scope other_scope ≡ ok tt
    → (b₁ : Buffer) × (b₂ : Buffer) × (push scope session_id turn b ≡ ok b₁)
      × (clear scope session_id b ≡ ok b₂)
      × (window other_scope other_id size b₁
          ≡ ok (
              last_of size (
                if str_eq (buffer_key scope session_id) (buffer_key other_scope other_id)
                then turns_at (buffer_key other_scope other_id) b ++ turn ∷ []
                else turns_at (buffer_key other_scope other_id) b)))
      × (window other_scope other_id size b₂
          ≡ ok (
              last_of size (
                if str_eq (buffer_key scope session_id) (buffer_key other_scope other_id)
                then []
                else turns_at (buffer_key other_scope other_id) b)))
unfolding push window clear
window-push scope session_id other_scope other_id size turn b allowed allowed' = (
  append_at (buffer_key scope session_id) turn b,
  filter (λ s. not (str_eq s.key (buffer_key scope session_id))) b,
  rw allowed,
  rw allowed,
  rw (
    allowed',
    turns_at-append_at (buffer_key scope session_id) (buffer_key other_scope other_id) turn b,
  ),
  rw (allowed', turns_at-clear (buffer_key scope session_id) (buffer_key other_scope other_id) b),
)

length-drop {ℓ} : {A : Type ℓ} (n : ℕ) (xs : List A) → length (drop n xs) ≡ length xs - n
length-drop zero xs = omega arith
length-drop (suc n) [] = omega arith
length-drop (suc n) (x ∷ xs) = omega (arith, length-drop n xs)

take-drop {ℓ} : {A : Type ℓ} (n : ℕ) (xs : List A) → xs ≡ take n xs ++ drop n xs
take-drop zero xs = refl
take-drop (suc n) [] = refl
take-drop (suc n) (x ∷ xs) = ap (◌∷◌ x) (take-drop n xs)

-- A window of a size above 0 is the end of what was pushed: the whole of it, or its last `size`
-- turns.
pub window_suffix :
    (scope session_id : Str) (size : ℕ) (b : Buffer)
    → require_scope scope ≡ ok tt
    → 0 < size
    → (front ws : List TurnRecord) × (window scope session_id (pos size) b ≡ ok ws)
      × (turns_at (buffer_key scope session_id) b ≡ front ++ ws)
      × (length ws ≡ min size (length (turns_at (buffer_key scope session_id) b)))
unfolding window
window_suffix scope session_id size b allowed positive =
    let ts = turns_at (buffer_key scope session_id) b in
    (
      take (length ts - size) ts,
      drop (length ts - size) ts,
      rw allowed (ground arith),
      take-drop (length ts - size) ts,
      omega (arith, length-drop (length ts - size) ts),
    )

shared_key :
    (scope middle session_id : Str)
    → buffer_key (scope ++ codes ":" ++ middle) session_id
      ≡ buffer_key scope (middle ++ codes ":" ++ session_id)
unfolding buffer_key
shared_key scope middle session_id = rw (
  append_assoc (scope ++ codes ":") middle (codes ":"),
  append_assoc (scope ++ codes ":") (middle ++ codes ":") session_id,
)

-- Two keys that differ as pairs and not as texts share one list: a colon in the scope, or in the
-- session, moves the border.
pub shared_window :
    (scope middle session_id : Str) (size : ℤ) (b : Buffer)
    → require_scope scope ≡ ok tt
    → require_scope (scope ++ codes ":" ++ middle) ≡ ok tt
    → window (scope ++ codes ":" ++ middle) session_id size b
      ≡ window scope (middle ++ codes ":" ++ session_id) size b
unfolding window buffer_key
shared_window scope middle session_id size b allowed allowed' =
    rw (allowed, allowed')
      (ap (λ k. ok (last_of size (turns_at k b))) (shared_key scope middle session_id))
