-- ===== src/Chunking/Pack.antt =====
-- chunking.py, `_pack`, `_path` and `_content`: paragraphs in bodies, and a body behind its path.
pub mod Fit
pub mod Solid
pub mod Kept
use cogno_engram.Prelude.{
  ℕ, ◌+◌, ◌-◌, Bool, true, false, not, ◌&&◌, List, [], ◌∷◌, ◌++◌, if◌then◌else◌, length, ltb, max,
  map,
}
use cogno_engram.Text.{Str, str_eq, is_empty, is_blank}
use cogno_engram.Folding.{Unicode}
use cogno_engram.Chunking.Config.{ChunkingConfig}
use cogno_engram.Chunking.Split.{split_long, tail}
use cogno_engram.Chunking.Passage.{blank_line, join}

-- A text, and whether it continues the paragraph of the one before.
pub record PackUnit : Type 0 where
  pub text : Str
  pub continues : Bool

-- How long a text may be that stands behind an overlap and a blank line.
abbrev pub piece_size : ChunkingConfig → ℕ
piece_size config = max 1 (config.target_chars - config.overlap_chars - 2)

abbrev pub continuing : Str → PackUnit
continuing part = record { text = part; continues = true }

abbrev pub parts_of : List Str → List PackUnit
parts_of [] = []
parts_of (part ∷ parts) = record { text = part; continues = false } ∷ map continuing parts

unfoldable pub units : ChunkingConfig → List Str → List PackUnit
unfolding split_long
units config [] = []
units config (para ∷ paras) =
    parts_of (
      if ltb (piece_size config) (length para)
      then split_long para (piece_size config)
      else para ∷ [])
    ++ units config paras

abbrev pub joiner : PackUnit → Str
joiner u = if u.continues then 32 ∷ [] else blank_line

-- `f"{cur}{joiner}{text}" if cur else text`
abbrev pub put : Str → PackUnit → Str
put cur u = if is_empty cur then u.text else cur ++ (joiner u ++ u.text)

-- The unit does not fit behind what is there.
abbrev pub is_full : ChunkingConfig → Str → PackUnit → Bool
is_full config cur u = ltb config.target_chars (length cur + length (joiner u) + length u.text)

unfoldable pub pack_loop : ChunkingConfig → List PackUnit → Str → Bool → List Str
unfolding tail is_blank
pack_loop config [] cur has_unit = if has_unit && not (is_blank cur) then cur ∷ [] else []
pack_loop config (u ∷ us) cur has_unit =
    let full = has_unit && is_full config cur u in
    let rest =
      pack_loop config us (put (if full then tail cur config.overlap_chars else cur) u) true in
    if full then cur ∷ rest else rest

unfoldable pub pack : List Str → ChunkingConfig → List Str
unfolding units pack_loop
pack paragraphs config = pack_loop config (units config paragraphs) [] false

module _ (uni : Unicode) where
  -- `trail[1:]` where the document's own first heading is its title.
  abbrev pub without_title : List Str → List Str → List Str
  without_title (r ∷ rs) (t ∷ ts) = if str_eq (uni.casefold t) (uni.casefold r) then ts else t ∷ ts
  without_title _ trail = trail

  unfoldable pub path_of : List Str → List Str → List Str
  path_of root trail = root ++ without_title root trail

unfoldable pub content_of : List Str → Str → ChunkingConfig → Str
unfolding join
content_of path body config =
    let head = join config.path_separator path in
    if is_empty head then body else head ++ (blank_line ++ body)
