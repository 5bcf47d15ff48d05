-- ===== src/Tests/Types.antt =====
-- The audience rule at concrete readers and rows.
use cogno_engram.Prelude.{◌≡◌, refl, ◌↔◌, true, some}
use cogno_engram.Text.{codes, strip, is_blank}
use cogno_engram.Types.{audience_for, audience_can_read}
use cogno_engram.Types.Audience.Isolation.{identity_isolation}

identity_isolation_example :
    (audience_can_read (audience_for (some (codes " 42"))) (audience_for (some (codes "42 ")))
      ≡ true)
    ↔ (strip (codes " 42") ≡ strip (codes "42 "))
unfolding is_blank
identity_isolation_example = identity_isolation (codes " 42") (codes "42 ") refl
