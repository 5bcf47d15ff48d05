-- ===== src/Chunking/Lines.antt =====
-- chunking.py, `_normalise`, `_paragraphs` and the lines that `_FENCE` and `_HEADING` match.
use cogno_engram.Prelude.{
  ℕ, zero, suc, ◌+◌, Bool, true, false, not, ◌&&◌, ◌||◌, Option, none, some, List, [], ◌∷◌, ◌++◌,
  if◌then◌else◌, length, drop, leb, ◌==◌, filter, any, map, min,
}
use cogno_engram.Text.{Str, is_empty, is_blank, rstrip, starts_with, words}
use cogno_engram.Chunking.Passage.{join}

-- `.replace("\r\n", "\n")`
unfoldable pub fold_crlf : Str → Str
unfolding starts_with
fold_crlf [] = []
fold_crlf (c ∷ s) =
    let rest = fold_crlf s in if (c == 13) && starts_with s (10 ∷ []) then rest else c ∷ rest

-- `.replace("\r", "\n").replace("\x0c", "\n")`
abbrev pub line_end : ℕ → ℕ
line_end c = if (c == 13) || (c == 12) then 10 else c

unfoldable pub normalise : Str → Str
unfolding fold_crlf
normalise text = map line_end (fold_crlf text)

-- A character in front of the first line.
abbrev pub onto_line : ℕ → List Str → List Str
onto_line c [] = (c ∷ []) ∷ []
onto_line c (l ∷ ls) = (c ∷ l) ∷ ls

-- `s.split("\n")`
unfoldable pub split_lines : Str → List Str
split_lines [] = [] ∷ []
split_lines (c ∷ s) = let rest = split_lines s in if c == 10 then [] ∷ rest else onto_line c rest

-- `s.strip("\n")`
unfoldable pub lstrip_lines : Str → Str
lstrip_lines [] = []
lstrip_lines (c ∷ s) = let rest = lstrip_lines s in if c == 10 then rest else c ∷ s

-- A character that a class of characters drops from the end, where nothing is left behind it.
abbrev pub keep_unless : Bool → ℕ → Str → Str
keep_unless dropped c [] = if dropped then [] else c ∷ []
keep_unless dropped c (d ∷ s) = c ∷ d ∷ s

unfoldable pub rstrip_of : (ℕ → Bool) → Str → Str
rstrip_of p [] = []
rstrip_of p (c ∷ s) = keep_unless (p c) c (rstrip_of p s)

unfoldable pub strip_lines : Str → Str
unfolding lstrip_lines rstrip_of
strip_lines s = rstrip_of (λ c. c == 10) (lstrip_lines s)

-- How many times a character stands at the head, and the text behind at most `n` of it.
unfoldable pub run_length : ℕ → Str → ℕ
run_length c [] = 0
run_length c (d ∷ s) = let rest = run_length c s in if d == c then rest + 1 else 0

-- ` {0,3}` at the head: neither pattern can match with fewer of the spaces that are there.
abbrev pub unindent : Str → Str
unindent line = drop (min 3 (run_length 32 line)) line

abbrev pub run_of : ℕ → ℕ → Str
run_of c zero = []
run_of c (suc n) = c ∷ run_of c n

-- `_FENCE.match(line)`, and the text of its group.
unfoldable pub fence_mark : Str → Option Str
unfolding run_length
fence_mark line =
    let text = unindent line in
    if leb 3 (run_length b'`' text)
    then some (run_of b'`' (run_length b'`' text))
    else (if leb 3 (run_length b'~' text) then some (run_of b'~' (run_length b'~' text)) else none)

-- `m.group(1)[0] == fence[0] and len(m.group(1)) >= len(fence)`
unfoldable pub closes : Str → Option Str → Bool
closes (f ∷ fence) (some (g ∷ mark)) = (g == f) && leb (length fence) (length mark)
closes _ _ = false

-- The fence that is open behind a line: the one that it opens, or the open one unless it closes it.
unfoldable pub fence_after : Str → Str → Str
unfolding fence_mark closes
fence_after [] line = elim (fence_mark line) [ none ↦ [] | some mark ↦ mark ]
fence_after (f ∷ fence) line = if closes (f ∷ fence) (fence_mark line) then [] else f ∷ fence

-- The line is code: it stands in a fence, or opens one.
unfoldable pub is_code : Str → Str → Bool
unfolding fence_mark
is_code fence line = not (is_empty fence) || elim (fence_mark line) [ none ↦ false | some _ ↦ true ]

-- `"\n".join(cur).strip("\n")`, where there is a line.
unfoldable pub close_paragraph : List Str → List Str
unfolding strip_lines join
close_paragraph [] = []
close_paragraph (l ∷ ls) = strip_lines (join (10 ∷ []) (l ∷ ls)) ∷ []

unfoldable pub paragraphs_loop : List Str → List Str → Str → List Str
unfolding is_code fence_after close_paragraph is_blank rstrip
paragraphs_loop [] cur fence = close_paragraph cur
paragraphs_loop (line ∷ lines) cur fence =
    let code = is_code fence line in
    let ends = not code && is_blank line in
    let rest =
      paragraphs_loop lines (if ends then [] else cur ++ (if code then line else rstrip line) ∷ [])
        (fence_after fence line) in
    if ends then close_paragraph cur ++ rest else rest

unfoldable pub paragraphs : List Str → List Str
unfolding paragraphs_loop is_blank
paragraphs lines = filter (λ p. not (is_blank p)) (paragraphs_loop lines [] [])

-- `[ \t]` and `[ \t#]`
abbrev pub is_gap : ℕ → Bool
is_gap c = (c == 32) || (c == 9)

abbrev pub is_closing : ℕ → Bool
is_closing c = is_gap c || (c == b'#')

unfoldable pub lstrip_gap : Str → Str
lstrip_gap [] = []
lstrip_gap (c ∷ s) = let rest = lstrip_gap s in if is_gap c then rest else c ∷ s

-- What stands behind the marks of a heading: nothing, or white space and the title up to its
-- closing marks. Seven marks and more are no heading, unless nothing else stands on the line.
abbrev pub heading_title : ℕ → Str → Option Str
heading_title level [] = some []
heading_title level (c ∷ rest) =
    if leb level 6 && is_gap c
    then some (rstrip_of is_closing (lstrip_gap rest))
    else (if any (λ d. not (is_closing d)) (c ∷ rest) then none else some [])

-- `_HEADING.match(line)`: the level, and the title with its white space made one space each.
unfoldable pub heading_of : Str → Option (ℕ × Str)
unfolding run_length rstrip_of lstrip_gap words join
heading_of line =
    let text = unindent line in
    let level = run_length b'#' text in
    if level == 0 then none else elim (heading_title level (drop level text)) [
      | none ↦ none
      | some title ↦ some (min 6 level, join (32 ∷ []) (words title))
    ]
