-- ===== src/Chunking/Passage.antt =====
-- chunking.py, `chunk_text`: the passage of a chunk without the path at its head.
use cogno_engram.Prelude.{
  ℕ, ◌+◌, not, ◌&&◌, Option, none, some, List, [], ◌∷◌, ◌++◌, if◌then◌else◌, length, drop, take,
}
use cogno_engram.Text.{Str, str_eq, is_empty, starts_with}

-- `s.find(sub)`: where the text first stands.
unfoldable pub find_text : Str → Str → Option ℕ
find_text [] sub = if is_empty sub then some 0 else none
find_text (c ∷ s) sub =
    let rest = find_text s sub in
    if starts_with (c ∷ s) sub then some 0 else (elim rest [ none ↦ none | some i ↦ some (i + 1) ])

-- `"\n\n"`
abbrev pub blank_line : Str
blank_line = 10 ∷ 10 ∷ []

-- `separator.join(path)`
unfoldable pub join : Str → List Str → Str
join separator [] = []
join separator (t ∷ []) = t
join separator (t ∷ u ∷ ts) = t ++ (separator ++ join separator (u ∷ ts))

-- The separator as it is read from the head: what stands between the first two titles.
unfoldable pub separator_of : Str → Str → Str → Str
unfolding find_text
separator_of head first second = elim (find_text (drop (length first) head) second) [
  | none ↦ []
  | some gap ↦ take gap (drop (length first) head)
]

unfoldable pub passage_of : Str → Str → Str → List Str → Str
unfolding separator_of join starts_with
passage_of content head body [] = content
passage_of content head body (t ∷ []) =
    if starts_with head t && str_eq head t then body else content
passage_of content head body (t ∷ u ∷ ts) =
    let separator = separator_of head t u in
    if starts_with head t && not (is_empty separator) && str_eq head (join separator (t ∷ u ∷ ts))
    then body
    else content

unfoldable pub chunk_text : Str → List Str → Str
unfolding find_text passage_of
chunk_text content heading_path = elim (find_text content blank_line) [
  | none ↦ content
  | some at ↦ passage_of content (take at content) (drop (at + 2) content) heading_path
]
