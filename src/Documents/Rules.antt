-- ===== src/Documents/Rules.antt =====
-- documents.py: the closed vocabularies, the keys that fail loud, and the rules that both adapters
-- apply. A `str` argument is a text here; what Python refuses for its type alone is left out.
use cogno_engram.Prelude.{
  ℕ, ◌+◌, ◌-◌, Bool, true, false, not, ◌&&◌, ◌||◌, Option, none, some, List, [], ◌∷◌, ◌++◌, map,
  if◌then◌else◌, filter, any, length, leb, ◌==◌, min, ◌*◌,
}
use cogno_engram.Prelude.Int.{ℤ, negsuc}
use cogno_engram.Text.{Str, codes, str_eq, strip, is_blank, is_empty, is_space, starts_with}
use cogno_engram.Folding.{Unicode}
use cogno_engram.Errors.{
  Result, ok, raise, ◌>>=◌, ◌>>◌, refuse_if, blank_owner, blank_profile, bad_model, bad_window,
}
use cogno_engram.Store.State.{sorted_set}

pub data KbState : Type 0 where
  kb_processing kb_awaiting_confirmation kb_ready kb_error : KbState

abbrev pub same_state : KbState → KbState → Bool
same_state kb_processing kb_processing = true
same_state kb_awaiting_confirmation kb_awaiting_confirmation = true
same_state kb_ready kb_ready = true
same_state kb_error kb_error = true
same_state _ _ = false

abbrev pub reason_over_limit : Str
reason_over_limit = codes "over_limit"

abbrev pub reason_internal : Str
reason_internal = codes "internal"

abbrev pub reason_expired : Str
reason_expired = codes "expired"

abbrev pub reason_discarded : Str
reason_discarded = codes "discarded"

abbrev pub reason_interrupted : Str
reason_interrupted = codes "interrupted"

abbrev pub valid_kb_reasons : List Str
valid_kb_reasons =
    codes "no_text"
    ∷ reason_over_limit
    ∷ codes "encrypted"
    ∷ codes "invalid"
    ∷ codes "timeout"
    ∷ codes "unsupported_type"
    ∷ codes "extractor_unavailable"
    ∷ codes "gate_refused"
    ∷ codes "embed_failed"
    ∷ reason_expired
    ∷ reason_discarded
    ∷ reason_interrupted
    ∷ reason_internal
    ∷ []

pub data MediaType : Type 0 where
  media_markdown media_pdf : MediaType

-- `VALID_MEDIA_TYPES`
unfoldable pub media_type_of : Str → Option MediaType
media_type_of raw =
    if str_eq raw (codes "text/markdown")
    then some media_markdown
    else (if str_eq raw (codes "application/pdf") then some media_pdf else none)

pub data CommitOutcome : Type 0 where
  commit_ready commit_deleted commit_superseded : CommitOutcome

-- `ExtractedPage` and `OutlineEntry`: what an extractor reads of a file.
pub record ExtractedPage : Type 0 where
  pub number : ℕ
  pub text : Str

pub record OutlineEntry : Type 0 where
  pub level : ℕ
  pub title : Str
  pub page : ℕ

pub data TombstoneKind : Type 0 where
  tombstone_deleted tombstone_purged tombstone_expired tombstone_discarded : TombstoneKind
  tombstone_interrupted tombstone_superseded tombstone_failed : TombstoneKind

pub data DiscardOutcome : Type 0 where
  discard_ok discard_not_a_draft discard_missing : DiscardOutcome

pub data ClaimOutcome : Type 0 where
  claim_ok claim_expired claim_missing : ClaimOutcome

abbrev pub version_text_max_limit : ℕ
version_text_max_limit = 200

abbrev pub max_bytes_default : ℕ
max_bytes_default = 10 * 1024 * 1024

module _ (uni : Unicode) where
  -- Any text is a reason of the vocabulary, an unknown one `internal`.
  unfoldable pub sanitize_reason : Str → Str
  sanitize_reason raw =
      let reason = uni.lower (strip raw) in
      if any (str_eq reason) valid_kb_reasons then reason else reason_internal

unfoldable pub require_owner : Str → Result (Unit {0})
unfolding is_blank
require_owner owner_key = refuse_if (is_blank owner_key) blank_owner

unfoldable pub require_profile : Str → Result (Unit {0})
unfolding is_blank
require_profile profile = refuse_if (is_blank profile) blank_profile

-- What a caller hands over as profiles: nothing that can be read as such, one text, or several.
pub data RawProfiles : Type 0 where
  no_profiles : RawProfiles
  one_profile : Str → RawProfiles
  many_profiles : List Str → RawProfiles

abbrev pub profile_items : RawProfiles → List Str
profile_items no_profiles = []
profile_items (one_profile p) = p ∷ []
profile_items (many_profiles ps) = ps

unfoldable pub sanitize_profiles : RawProfiles → List Str
unfolding strip is_blank
sanitize_profiles raw = sorted_set (map strip (filter (λ p. not (is_blank p)) (profile_items raw)))

-- Membership after stripping; a blank profile reads nothing.
unfoldable pub profile_can_read : Str → List Str → Bool
unfolding strip
profile_can_read profile profiles =
    not (is_empty (strip profile)) && any (λ p. str_eq p (strip profile)) profiles

unfoldable pub owner_in_subtree : Str → Str → Bool
owner_in_subtree owner_key prefix =
    str_eq owner_key prefix || starts_with owner_key (prefix ++ codes "/")

-- The text before the last `@`, and the text behind it.
unfoldable pub split_last_at : Str → Option (Str × Str)
split_last_at [] = none
split_last_at (c ∷ s) =
    let rest = split_last_at s in
    elim rest [
      | some parts ↦ some (c ∷ parts.0, parts.1)
      | none ↦ if c == b'@' then some ([], s) else none
    ]

-- `$` also stands before a line feed at the end.
drop_line_feed : Str → Str
drop_line_feed [] = []
drop_line_feed (c ∷ s) =
    let rest = drop_line_feed s in if (c == 10) && is_empty s then [] else c ∷ rest

decimal : ℕ → Str → ℕ
decimal n [] = n
decimal n (c ∷ s) = decimal (n * 10 + (c - b'0')) s

-- `\S+@[1-9][0-9]{0,5}`
is_width : Str → Bool
is_width [] = false
is_width (c ∷ s) =
    leb b'1' c
    && leb c b'9'
    && leb (length s) 5
    && not (any (λ d. not (leb b'0' d && leb d b'9')) s)

unfoldable pub model_dimensions : Str → Result ℕ
unfolding split_last_at drop_line_feed decimal is_width is_space
model_dimensions label = elim (split_last_at (drop_line_feed label)) [
  | none ↦ raise bad_model
  | some parts ↦
      if not (is_empty parts.0) && not (any is_space parts.0) && is_width parts.1
      then ok (decimal 0 parts.1)
      else raise bad_model
]

unfoldable pub require_model : Str → ℕ → Result (Unit {0})
unfolding model_dimensions
require_model label embedding_dim = do
  dim ← model_dimensions label
  refuse_if (not (dim == embedding_dim)) bad_model

-- The window of a read: where it starts behind, and how many chunks it has.
pub record TextWindow : Type 0 where
  pub start : ℤ
  pub size : ℕ

unfoldable pub text_window : Option ℕ → Option ℤ → ℕ → Result TextWindow
text_window page after limit = do
  refuse_if (elim page [ none ↦ false | some p ↦ p == 0 ]) bad_window
  refuse_if (limit == 0) bad_window
  ok (record {
    start = elim after [ none ↦ negsuc 0 | some a ↦ a ];
    size = min limit version_text_max_limit;
  })

-- A version without pages has no page filter.
unfoldable pub text_page_filter : Option ℕ → ℕ → Option ℕ
text_page_filter page pages = if pages == 0 then none else page
