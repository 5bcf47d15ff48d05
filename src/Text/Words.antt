-- ===== src/Text/Words.antt =====
-- `str.split()`: the words between white space.
use cogno_engram.Prelude.{ℕ, Bool, true, false, List, [], ◌∷◌, if◌then◌else◌, any}
use cogno_engram.Text.Equality.{Str, str_eq}
use cogno_engram.Text.Strip.{is_space}

-- A character joins the word that begins the rest, where there is one directly behind it.
join_word : ℕ → Bool → List Str → List Str
join_word c true (w ∷ ws) = (c ∷ w) ∷ ws
join_word c true [] = (c ∷ []) ∷ []
join_word c false ws = (c ∷ []) ∷ ws

starts_word : Str → Bool
starts_word [] = false
starts_word (c ∷ s) = if is_space c then false else true

-- `s.split()`
unfoldable pub words : Str → List Str
unfolding join_word starts_word is_space
words [] = []
words (c ∷ s) = let rest = words s in if is_space c then rest else join_word c (starts_word s) rest

-- `len(set(a) & set(b)) > 0`
unfoldable pub share_word : List Str → List Str → Bool
share_word a b = any (λ w. any (λ v. str_eq v w) b) a
