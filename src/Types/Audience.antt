-- ===== src/Types/Audience.antt =====
-- types.py, audience: who may read an edge.
pub mod Isolation
use cogno_engram.Prelude.{
  ℕ, ◌≡◌, Bool, true, false, not, ◌&&◌, Option, none, some, [], ◌++◌, if◌then◌else◌, length, drop,
}
use cogno_engram.Text.{Str, codes, str_eq, strip, is_empty, is_blank, starts_with}

abbrev pub audience_unclassified : Str
audience_unclassified = []

abbrev pub audience_tenant : Str
audience_tenant = codes "tenant"

abbrev pub audience_identity_prefix : Str
audience_identity_prefix = codes "identity:"

-- The argument of a staff read, never a stored value.
abbrev pub audience_staff : Str
audience_staff = codes "__staff__"

-- `str(raw or "")`, for a raw value that is a text or `None`.
abbrev pub or_empty : Option Str → Str
or_empty none = []
or_empty (some s) = s

unfoldable pub audience_for : Option Str → Str
audience_for identity_id =
    let text = strip (or_empty identity_id) in
    if is_empty text then audience_unclassified else audience_identity_prefix ++ text

-- `text.startswith(prefix) and text[len(prefix):].strip()`
unfoldable pub is_identity : Str → Bool
is_identity text =
    starts_with text audience_identity_prefix
    && not (is_blank (drop (length audience_identity_prefix) text))

unfoldable pub sanitize_audience : Option Str → Str
unfolding is_identity
sanitize_audience raw =
    let text = strip (or_empty raw) in
    if str_eq text audience_tenant
    then audience_tenant
    else if is_identity text
    then text
    else audience_unclassified

unfoldable pub audience_can_read : Str → Str → Bool
audience_can_read audience row_audience =
    let row = sanitize_audience (some row_audience) in
    if str_eq audience audience_staff
    then true
    else if str_eq row audience_tenant
    then true
    else not (is_empty row) && str_eq row (sanitize_audience (some audience))
