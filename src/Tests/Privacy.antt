-- ===== src/Tests/Privacy.antt =====
-- The theorem of Graph.Privacy at sample data: a fact about Ana that another contact may not read.
use cogno_engram.Prelude.{◌≡◌, refl, false, any}
use cogno_engram.Text.{codes, str_eq, strip, is_blank, starts_with}
use cogno_engram.Errors.{ok}
use cogno_engram.Folding.{fold_label}
use cogno_engram.Types.{GraphEdge, audience_can_read, sanitize_audience}
use cogno_engram.Graph.State.{Graph}
use cogno_engram.Graph.Write.{is_edge, upsert_edge}
use cogno_engram.Graph.Privacy.{SameView, upsert_edge-SameView}
use cogno_engram.Tests.Samples.{acme, plain, family, family_edge, allowed, family-IsValid}

abbrev secret : GraphEdge
secret = record (family_edge (codes "Ana") (codes "Bia")) { audience = codes "identity:9" }

secret-is_edge :
    any (is_edge plain acme (codes "Ana") (codes "Bia") secret.relation) family.edges ≡ false
unfolding is_edge str_eq fold_label
secret-is_edge = refl

secret-can_read : audience_can_read (codes "identity:7") secret.audience ≡ false
unfolding audience_can_read sanitize_audience strip str_eq is_blank starts_with
secret-can_read = refl

upsert_edge-SameView_example :
    (g' : Graph) × (upsert_edge plain 9 secret family ≡ ok g')
    × SameView plain (codes "identity:7") family g'
upsert_edge-SameView_example =
    upsert_edge-SameView plain 9 secret family (codes "identity:7") allowed family-IsValid
      secret-is_edge secret-can_read
