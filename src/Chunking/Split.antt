-- ===== src/Chunking/Split.antt =====
-- chunking.py, `_split_long` and `_tail`: a paragraph cut at white space, and the end of a body.
pub mod Sizes
use cogno_engram.Prelude.{
  ℕ, zero, suc, ◌+◌, ◌-◌, not, ◌&&◌, Option, none, some, List, [], ◌∷◌, if◌then◌else◌, length, drop,
  take, leb, ltb, ◌==◌, min, max,
}
use cogno_engram.Text.{Str, is_empty, strip, lstrip, rstrip}

-- `s.find(c)`
unfoldable pub index_of : ℕ → Str → Option ℕ
index_of c [] = none
index_of c (d ∷ s) =
    let rest = index_of c s in
    if d == c then some 0 else (elim rest [ none ↦ none | some i ↦ some (i + 1) ])

-- `s.rfind(c, 0, n)`
unfoldable pub last_index_of : ℕ → ℕ → Str → Option ℕ
last_index_of c zero s = none
last_index_of c (suc n) [] = none
last_index_of c (suc n) (d ∷ s) = elim (last_index_of c n s) [
  | some i ↦ some (i + 1)
  | none ↦ if d == c then some 0 else none
]

-- The greater of two indices, where there is one.
abbrev pub later_index : Option ℕ → Option ℕ → Option ℕ
later_index none b = b
later_index (some i) none = some i
later_index (some i) (some j) = some (max i j)

-- The smaller of two indices, where there is one.
abbrev pub earlier_index : Option ℕ → Option ℕ → Option ℕ
earlier_index none b = b
earlier_index (some i) none = some i
earlier_index (some i) (some j) = some (min i j)

-- The index of a cut, or `size` where it would take nothing.
abbrev pub cut_or : ℕ → Option ℕ → ℕ
cut_or size none = size
cut_or size (some i) = if i == 0 then size else i

-- Where a text longer than `size` is cut: at the last white space that leaves at most `size`.
unfoldable pub cut_at : ℕ → Str → ℕ
unfolding last_index_of
cut_at size rest =
    cut_or size (later_index (last_index_of 32 (size + 1) rest) (last_index_of 10 (size + 1) rest))

-- The loop, on fuel.
unfoldable pub split_loop : ℕ → ℕ → Str → List Str
unfolding cut_at strip rstrip lstrip
split_loop zero size rest = []
split_loop (suc fuel) size rest =
    let cut = cut_at size rest in
    let more = split_loop fuel size (lstrip (drop cut rest)) in
    if ltb size (length rest)
    then rstrip (take cut rest) ∷ more
    else (if is_empty rest then [] else rest ∷ [])

unfoldable pub split_long : Str → ℕ → List Str
unfolding split_loop strip
split_long paragraph size = let rest = strip paragraph in split_loop (length rest + 1) size rest

-- `body[start:]` for the start behind a mark, where there is one.
abbrev pub behind : Option ℕ → Str → Str
behind none end = end
behind (some mark) end = drop (mark + 1) end

-- The end of a body, behind its first white space.
unfoldable pub tail : Str → ℕ → Str
unfolding index_of strip
tail body chars =
    let end = drop (length body - chars) body in
    if chars == 0
    then []
    else (if leb (length body) chars
        then body
        else strip (behind (earlier_index (index_of 32 end) (index_of 10 end)) end))
