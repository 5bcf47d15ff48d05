-- ===== src/Types/Status.antt =====
-- types.py, edge curation: the statuses of an edge, read leniently on storage and strictly as a
-- verdict.
pub mod Verdict
use cogno_engram.Prelude.{Bool, true, false, Option, none, some, if◌then◌else◌}
use cogno_engram.Text.{Str, codes, str_eq, strip, is_blank}
use cogno_engram.Errors.{Result, ok, raise, not_a_verdict}
use cogno_engram.Folding.{Unicode}

-- `VALID_EDGE_STATUS`: the type `GraphEdge` normalises its field to one of the three texts.
pub data EdgeStatus : Type 0 where
  accepted proposed rejected : EdgeStatus

abbrev pub status_text : EdgeStatus → Str
status_text accepted = codes "accepted"
status_text proposed = codes "proposed"
status_text rejected = codes "rejected"

abbrev pub is_accepted : EdgeStatus → Bool
is_accepted accepted = true
is_accepted proposed = false
is_accepted rejected = false

abbrev pub is_proposed : EdgeStatus → Bool
is_proposed accepted = false
is_proposed proposed = true
is_proposed rejected = false

-- `text in VALID_EDGE_STATUS`, with the status that it names.
unfoldable pub read_status : Str → Option EdgeStatus
read_status text =
    if str_eq text (status_text accepted)
    then some accepted
    else if str_eq text (status_text proposed)
    then some proposed
    else if str_eq text (status_text rejected)
    then some rejected
    else none

module _ (uni : Unicode) where
  -- A status that is there: blank means accepted, an unreadable one is held for review.
  unfoldable pub sanitize_edge_status : Option Str → EdgeStatus
  sanitize_edge_status none = accepted
  sanitize_edge_status (some raw) =
      if is_blank raw
      then accepted
      else elim (read_status (uni.lower (strip raw))) [ none ↦ proposed | some s ↦ s ]

  unfoldable pub require_edge_status : Option Str → Result EdgeStatus
  require_edge_status none = raise not_a_verdict
  require_edge_status (some raw) = elim (read_status (uni.lower (strip raw))) [
    | none ↦ raise not_a_verdict
    | some s ↦ ok s
  ]
