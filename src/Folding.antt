-- ===== src/Folding.antt =====
-- cogno_engram/folding.py: the key under which two labels are the same label. The tables of
-- Python's Unicode database are a parameter.
use cogno_engram.Prelude.{ℕ, Bool, not, none, some, List, [], ◌∷◌, ◌++◌, ◌==◌, filter, find?}
use cogno_engram.Text.{Str, codes, str_eq}

-- `str.casefold`, `str.lower`, `str.upper`, `unicodedata.normalize("NFD", ·)` and
-- `unicodedata.combining`.
pub record Unicode : Type 0 where
  pub casefold : Str → Str
  pub lower : Str → Str
  pub upper : Str → Str
  pub nfd : Str → Str
  pub combining : ℕ → Bool

-- `_TRANSLIT`, by code point.
abbrev translit_table : List (ℕ × Str)
translit_table =
    (230, codes "ae")
    ∷ (240, codes "d")
    ∷ (248, codes "o")
    ∷ (254, codes "th")
    ∷ (273, codes "d")
    ∷ (295, codes "h")
    ∷ (305, codes "i")
    ∷ (307, codes "ij")
    ∷ (312, codes "q")
    ∷ (320, codes "l")
    ∷ (322, codes "l")
    ∷ (331, codes "n")
    ∷ (339, codes "oe")
    ∷ (359, codes "t")
    ∷ (700, codes "'")
    ∷ []

-- `_TRANSLIT.get(c, c)`
unfoldable pub translit : ℕ → Str
translit c = elim (find? (λ e. e.0 == c) translit_table) [ none ↦ c ∷ [] | some e ↦ e.1 ]

translit_all : Str → Str
unfolding translit
translit_all [] = []
translit_all (c ∷ s) = translit c ++ translit_all s

module _ (uni : Unicode) where
  -- The key for a comparison, never for display.
  unfoldable pub fold_label : Str → Str
  unfolding translit_all
  fold_label label =
      translit_all (filter (λ c. not (uni.combining c)) (uni.nfd (uni.casefold label)))

  -- The label carries something that the fold removes.
  unfoldable pub has_diacritics : Str → Bool
  unfolding fold_label
  has_diacritics label = not (str_eq (fold_label label) (uni.casefold label))
