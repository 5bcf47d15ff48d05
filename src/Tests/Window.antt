-- ===== src/Tests/Window.antt =====
-- The theorems of Buffer.Window at sample data.
use cogno_engram.Prelude.{◌≡◌, refl, List, [], ◌∷◌, ◌++◌, arith, if◌then◌else◌, length, min}
use cogno_engram.Prelude.Int.{pos}
use cogno_engram.Text.{codes, str_eq, strip, is_blank}
use cogno_engram.Errors.{ok}
use cogno_engram.Types.{TurnRecord}
use cogno_engram.Graph.State.{require_scope}
use cogno_engram.Buffer.{Buffer, buffer_key, turns_at, last_of, push, window, clear}
use cogno_engram.Tests.Samples.{acme, allowed}
use cogno_engram.Tests.StoreSamples.{pinned_turn, a_buffer}
use cogno_engram.Buffer.Window.{window-push, window_suffix, shared_window}

middle_allowed : require_scope (acme ++ codes ":" ++ codes "x") ≡ ok tt
unfolding require_scope strip is_blank
middle_allowed = refl

window-push_example :
    (b₁ : Buffer) × (b₂ : Buffer) × (push acme (codes "s1") pinned_turn a_buffer ≡ ok b₁)
    × (clear acme (codes "s1") a_buffer ≡ ok b₂)
    × (window acme (codes "s2") (pos 1) b₁
        ≡ ok (
            last_of (pos 1) (
              if str_eq (buffer_key acme (codes "s1")) (buffer_key acme (codes "s2"))
              then turns_at (buffer_key acme (codes "s2")) a_buffer ++ pinned_turn ∷ []
              else turns_at (buffer_key acme (codes "s2")) a_buffer)))
    × (window acme (codes "s2") (pos 1) b₂
        ≡ ok (
            last_of (pos 1) (
              if str_eq (buffer_key acme (codes "s1")) (buffer_key acme (codes "s2"))
              then []
              else turns_at (buffer_key acme (codes "s2")) a_buffer)))
window-push_example =
    window-push acme (codes "s1") acme (codes "s2") (pos 1) pinned_turn a_buffer allowed allowed

window_suffix_example :
    (front ws : List TurnRecord) × (window acme (codes "s1") (pos 1) a_buffer ≡ ok ws)
    × (turns_at (buffer_key acme (codes "s1")) a_buffer ≡ front ++ ws)
    × (length ws ≡ min 1 (length (turns_at (buffer_key acme (codes "s1")) a_buffer)))
window_suffix_example = window_suffix acme (codes "s1") 1 a_buffer allowed (omega arith)

shared_window_example :
    window (acme ++ codes ":" ++ (codes "x")) (codes "s1") (pos 1) a_buffer
    ≡ window acme ((codes "x") ++ codes ":" ++ (codes "s1")) (pos 1) a_buffer
shared_window_example =
    shared_window acme (codes "x") (codes "s1") (pos 1) a_buffer allowed middle_allowed
