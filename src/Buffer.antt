-- ===== src/Buffer.antt =====
-- cogno_engram/adapters/in_memory.py, `InMemoryBuffer`: a list of turns under `scope:session_id`.
pub mod Window
use cogno_engram.Prelude.{
  ℕ, zero, suc, ◌+◌, ◌-◌, ◌≤◌, ◌≡◌, refl, Bool, true, false, Option, none, some, List, [], ◌∷◌,
  ◌++◌, arith, if◌then◌else◌, filter, any, find?, update_first, length, drop, not, ◌==◌,
}
use cogno_engram.Prelude.Int.{ℤ, pos, negsuc}
use cogno_engram.Text.{Str, codes, str_eq}
use cogno_engram.Errors.{Result, ok, ◌>>=◌, ◌>>◌}
use cogno_engram.Types.{TurnRecord}
use cogno_engram.Graph.State.{require_scope}

pub record Slot : Type 0 where
  pub key : Str
  pub turns : List TurnRecord

abbrev pub Buffer : Type 0
Buffer = List Slot

-- `f"{scope}:{session_id}"`
unfoldable pub buffer_key : Str → Str → Str
buffer_key scope session_id = scope ++ codes ":" ++ session_id

-- `self._buf.get(key, [])`
unfoldable pub turns_at : Str → Buffer → List TurnRecord
turns_at key b = elim (find? (λ s. str_eq s.key key) b) [ none ↦ [] | some s ↦ s.turns ]

-- `self._buf.setdefault(key, []).append(turn)`
unfoldable pub append_at : Str → TurnRecord → Buffer → Buffer
append_at key turn b =
    if any (λ s. str_eq s.key key) b
    then update_first (λ s. str_eq s.key key) (λ s. record s { turns = s.turns ++ turn ∷ [] }) b
    else b ++ record { key = key; turns = turn ∷ [] } ∷ []

-- `xs[-size:]`: the last ones; all of them for a size of 0; and for a negative size all but the first
-- ones, as many as the size is below 0.
unfoldable pub last_of {ℓ} : {A : Type ℓ} → ℤ → List A → List A
last_of (pos size) xs = if size == 0 then xs else drop (length xs - size) xs
last_of (negsuc n) xs = drop (n + 1) xs

unfoldable pub push : Str → Str → TurnRecord → Buffer → Result Buffer
unfolding require_scope buffer_key append_at
push scope session_id turn b = do
  require_scope scope
  ok (append_at (buffer_key scope session_id) turn b)

unfoldable pub window : Str → Str → ℤ → Buffer → Result (List TurnRecord)
unfolding require_scope buffer_key turns_at last_of
window scope session_id size b = do
  require_scope scope
  ok (last_of size (turns_at (buffer_key scope session_id) b))

unfoldable pub clear : Str → Str → Buffer → Result Buffer
unfolding require_scope buffer_key
clear scope session_id b = do
  require_scope scope
  ok (filter (λ s. not (str_eq s.key (buffer_key scope session_id))) b)
