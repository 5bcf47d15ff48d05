-- ===== src/Tests/Verdict.antt =====
-- The theorem of Types.Status.Verdict at a status with a typo.
use cogno_engram.Prelude.{◌≡◌, refl, ◌⊎◌, none, some}
use cogno_engram.Text.{codes, strip, is_blank}
use cogno_engram.Errors.{ok, raise, not_a_verdict}
use cogno_engram.Types.{
  EdgeStatus, accepted, proposed, status_text, read_status, sanitize_edge_status,
  require_edge_status,
}
use cogno_engram.Types.Status.Verdict.{verdict_agrees}
use cogno_engram.Tests.Samples.{plain}

verdict_agrees_example :
    (((s : EdgeStatus) × (require_edge_status plain (some (codes "propsed")) ≡ ok s)
        × (sanitize_edge_status plain (some (codes "propsed")) ≡ s))
      ⊎ ((require_edge_status plain (some (codes "propsed")) ≡ raise not_a_verdict)
          × (sanitize_edge_status plain (some (codes "propsed")) ≡ proposed)))
    × (require_edge_status plain none ≡ raise not_a_verdict)
    × (sanitize_edge_status plain none ≡ accepted)
    × ((s : EdgeStatus) → read_status (status_text s) ≡ some s)
unfolding strip is_blank
verdict_agrees_example = verdict_agrees plain (codes "propsed") refl
