-- ===== src/Chunking/Content.antt =====
-- chunking.py: `_content` and its inverse `chunk_text`.
use cogno_engram.Prelude.{
  drop-append, ℕ, suc, ◌+◌, ◌≡◌, refl, sym, ◌∙◌, ap, true, false, Option, none, some, List, [], ◌∷◌,
  ◌++◌, length, take, drop, arith, ◌==◌, All, All-append,
}
use cogno_engram.Text.{Str, is_empty, starts_with, str_eq, str_eq_self, starts_with-append}
use cogno_engram.Chunking.Config.{ChunkingConfig}
use cogno_engram.Chunking.Passage.{
  find_text, blank_line, join, separator_of, passage_of, chunk_text,
}
use cogno_engram.Chunking.Pack.{content_of}

-- No character of the text is a line feed.
abbrev pub OneLine : Str → Type 0
OneLine s = All (λ c. (c == 10) ≡ false) s

take-append : (p s : Str) → take (length p) (p ++ s) ≡ p
take-append [] s = refl
take-append (c ∷ p) s = ap (λ t. c ∷ t) (take-append p s)

find_text-blank :
    (head body : Str)
    → OneLine head
    → find_text (head ++ (blank_line ++ body)) blank_line ≡ some (length head)
unfolding find_text starts_with
find_text-blank [] body h = refl
find_text-blank (c ∷ head) body h = rw (h.0, find_text-blank head body h.1) (ground arith)

drop-behind : (head body : Str) → drop (length head + 2) (head ++ (blank_line ++ body)) ≡ body
drop-behind [] body = refl
drop-behind (c ∷ head) body =
    let shift : suc (length head) + 2 ≡ suc (length head + 2) = omega arith in
    rw shift (drop-behind head body)

join-OneLine : (sep : Str) (ts : List Str) → OneLine sep → All OneLine ts → OneLine (join sep ts)
unfolding join
join-OneLine sep [] h k = tt
join-OneLine sep (t ∷ []) h k = k.0
join-OneLine sep (t ∷ u ∷ ts) h k =
    All-append _ t (sep ++ join sep (u ∷ ts)) k.0
      (All-append _ sep (join sep (u ∷ ts)) h (join-OneLine sep (u ∷ ts) h k.1))

-- A path whose separator can be read from its head: the second title begins nowhere before its place.
abbrev pub IsReadable : Str → List Str → Type 0
IsReadable sep [] = Unit
IsReadable sep (t ∷ []) = is_empty t ≡ false
IsReadable sep (t ∷ u ∷ ts) =
    (is_empty t ≡ false)
    × (is_empty sep ≡ false)
    × (find_text (sep ++ join sep (u ∷ ts)) u ≡ some (length sep))

starts_with_self : (t : Str) → starts_with t t ≡ true
unfolding starts_with
starts_with_self [] = refl
starts_with_self (c ∷ t) = ground (arith, starts_with_self t)

is_empty-head : (t rest : Str) → is_empty t ≡ false → is_empty (t ++ rest) ≡ false
is_empty-head [] rest h = absurd (cc)
is_empty-head (c ∷ t) rest h = refl

chunk_text_head :
    (head body : Str) (path : List Str)
    → OneLine head
    → chunk_text (head ++ (blank_line ++ body)) path
      ≡ passage_of (head ++ (blank_line ++ body)) head body path
unfolding chunk_text
chunk_text_head head body path h =
    rw
      (
        chunk_text,
        find_text-blank head body h,
        take-append head (blank_line ++ body),
        drop-behind head body,
      )
      refl

chunk_text_bare : (body : Str) → chunk_text body [] ≡ body
unfolding chunk_text passage_of
chunk_text_bare body = both (find_text body blank_line)
  where
    both :
        (found : Option ℕ)
        → (elim found as (λ _. Str) [
          | none ↦ body
          | some at ↦ passage_of body (take at body) (drop (at + 2) body) []
        ])
          ≡ body
    both none = refl
    both (some at) = refl

separator_of_joined :
    (sep t u : Str) (rest : Str)
    → find_text rest u ≡ some (length sep)
    → take (length sep) rest ≡ sep
    → separator_of (t ++ rest) t u ≡ sep
unfolding separator_of
separator_of_joined sep t u rest h k =
    rw (separator_of, drop-append t rest, h, drop-append t rest) k

passage_of_joined :
    (content head body sep t u : Str) (ts : List Str)
    → starts_with head t ≡ true
    → separator_of head t u ≡ sep
    → is_empty sep ≡ false
    → head ≡ join sep (t ∷ u ∷ ts)
    → passage_of content head body (t ∷ u ∷ ts) ≡ body
unfolding passage_of
passage_of_joined content head body sep t u ts a b c d =
    let same : str_eq head (join (separator_of head t u) (t ∷ u ∷ ts)) ≡ true =
      ap (λ s. str_eq head (join s (t ∷ u ∷ ts))) b ∙ ap (str_eq head) (sym d) ∙ str_eq_self head in
    ground (arith, a, same, ap is_empty b)

-- A body behind a path whose separator can be read from its head comes back whole.
pub content_of-chunk_text :
    (path : List Str) (body : Str) (config : ChunkingConfig)
    → OneLine config.path_separator
    → All OneLine path
    → IsReadable config.path_separator path
    → chunk_text (content_of path body config) path ≡ body
unfolding content_of join passage_of
content_of-chunk_text [] body config h k r = chunk_text_bare body
content_of-chunk_text (t ∷ []) body config h k r =
    rw (r, chunk_text_head t body (t ∷ []) k.0) (ground (arith, starts_with_self t, str_eq_self t))
content_of-chunk_text (t ∷ u ∷ ts) body config h k r =
    let sep = config.path_separator in
    let rest = sep ++ join sep (u ∷ ts) in
    let head = t ++ rest in
    let one_line = join-OneLine sep (t ∷ u ∷ ts) h k in
    rw (is_empty-head t rest r.0, chunk_text_head head body (t ∷ u ∷ ts) one_line)
      (passage_of_joined (head ++ (blank_line ++ body)) head body sep t u ts
        (starts_with-append t rest)
        (separator_of_joined sep t u rest r.2 (take-append sep (join sep (u ∷ ts)))) r.1 refl)
