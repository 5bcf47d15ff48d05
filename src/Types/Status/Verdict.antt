-- ===== src/Types/Status/Verdict.antt =====
-- types.py: the lenient and the strict reading of an edge status.
use cogno_engram.Prelude.{◌≡◌, refl, ◌⊎◌, false, none, some, Option-cases, inl, inr}
use cogno_engram.Text.{Str, str_eq, is_blank, strip}
use cogno_engram.Errors.{ok, raise, not_a_verdict}
use cogno_engram.Folding.{Unicode}
use cogno_engram.Types.Status.{
  EdgeStatus, accepted, proposed, rejected, status_text, read_status, sanitize_edge_status,
  require_edge_status,
}

read_status-text : (s : EdgeStatus) → read_status (status_text s) ≡ some s
unfolding read_status str_eq
read_status-text accepted = refl
read_status-text proposed = refl
read_status-text rejected = refl

-- Of a status that is not blank, the two readings agree: what is taken as a verdict is stored as the
-- same status, and what is refused as a verdict is stored as a proposal, never as accepted. A missing
-- status is stored as accepted and refused as a verdict. Each of the three statuses is read back from
-- its own text.
pub verdict_agrees :
    (uni : Unicode) (raw : Str)
    → is_blank raw ≡ false
    → (((s : EdgeStatus) × (require_edge_status uni (some raw) ≡ ok s)
          × (sanitize_edge_status uni (some raw) ≡ s))
        ⊎ ((require_edge_status uni (some raw) ≡ raise not_a_verdict)
            × (sanitize_edge_status uni (some raw) ≡ proposed)))
      × (require_edge_status uni none ≡ raise not_a_verdict)
      × (sanitize_edge_status uni none ≡ accepted)
      × ((s : EdgeStatus) → read_status (status_text s) ≡ some s)
unfolding require_edge_status sanitize_edge_status
verdict_agrees uni raw h = (
  elim (Option-cases (read_status (uni.lower (strip raw)))) [
    | inl unread ↦ inr (rw (require_edge_status, unread), rw (sanitize_edge_status, h, unread))
    | inr (s, read) ↦ inl (s, rw (require_edge_status, read), rw (sanitize_edge_status, h, read))
  ],
  refl,
  refl,
  read_status-text,
)
