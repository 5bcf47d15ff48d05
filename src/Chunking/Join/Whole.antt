-- ===== src/Chunking/Join/Whole.antt =====
-- chunking.py: `join_passages` on the bodies that `_pack` makes of one section.
use mathlib.Core.List.{append_assoc, append-nil}
use cogno_engram.Prelude.{
  drop-append, ℕ, ◌+◌, ◌≤◌, ◌≡◌, ◌∙◌, refl, ap, true, false, Option, none, some, List, [], ◌∷◌,
  ◌++◌, arith, inl, inr, Bool-cases, length, All, map, length-append, ltb→lt,
}
use cogno_engram.Text.{
  solid, Str, is_empty, ends_solid-append, ends_solid-is_empty, ends_solid-is_blank, texts_eq_self,
}
use cogno_engram.Documents.State.{KbTextChunk}
use cogno_engram.Chunking.Config.{ChunkingConfig, IsValid}
use cogno_engram.Chunking.Split.{tail}
use cogno_engram.Chunking.Pack.{PackUnit, piece_size, joiner, put, is_full, pack_loop, pack, units}
use cogno_engram.Chunking.Pack.Fit.{Fits, units-Fits, length-joiner-le}
use cogno_engram.Chunking.Pack.Kept.{joined, joined-units-solid}
use cogno_engram.Chunking.Split.Sizes.{concat}
use cogno_engram.Chunking.Pack.Solid.{IsSolid, units-IsSolid}
use cogno_engram.Chunking.Join.{
  join_passages, join_loop, join_chunk, append_chunk, same_run, same_page, overlap_length,
}
use cogno_engram.Chunking.Join.Marks.{tail-ends_solid, overlap_length-cut}

-- The bodies of a section as its chunks, from the ordinal `n` on.
abbrev pub chunk_of : ℕ → Option ℕ → List Str → Str → KbTextChunk
chunk_of n page path body = record { ordinal = n; page = page; heading_path = path; text = body }

abbrev pub section_chunks : ℕ → Option ℕ → List Str → List Str → List KbTextChunk
section_chunks n page path [] = []
section_chunks n page path (b ∷ bs) = chunk_of n page path b ∷ section_chunks (n + 1) page path bs

put_solid :
    (cur : Str) (u : PackUnit) → is_empty cur ≡ false → put cur u ≡ cur ++ (joiner u ++ u.text)
put_solid [] u h = absurd (cc)
put_solid (c ∷ cur) u h = refl

put-append : (P cur : Str) (u : PackUnit) → is_empty cur ≡ false → put (P ++ cur) u ≡ P ++ put cur u
put-append [] cur u h = refl
put-append (c ∷ P) cur u h =
    rw (put_solid cur u h) (ap (λ t. c ∷ t) (append_assoc P cur (joiner u ++ u.text)))

put-IsSolid : (cur : Str) (u : PackUnit) → IsSolid u.text → IsSolid (put cur u)
put-IsSolid [] u h = h
put-IsSolid (c ∷ cur) u h =
    ends_solid-append (c ∷ cur) (joiner u ++ u.text) (ends_solid-append (joiner u) u.text h)

same_page_self : (page : Option ℕ) → same_page page page ≡ true
same_page_self none = refl
same_page_self (some p) = ground arith

-- A chunk whose head repeats the tail of the one before goes on the passage without that head.
join_chunk-cut :
    (config : ChunkingConfig) (n m : ℕ) (page : Option ℕ) (path : List Str)
    (text prev head rest : Str)
    → n ≤ m
    → is_empty head ≡ false
    → overlap_length prev (head ++ rest) config ≡ length head
    → join_chunk config
        (some (chunk_of m page path prev))
        (chunk_of (m + 1) page path (head ++ rest))
        (chunk_of n page path text ∷ [])
      ≡ chunk_of n page path (text ++ rest) ∷ []
unfolding join_chunk same_run append_chunk
join_chunk-cut config n m page path text prev [] rest le h e = absurd (cc)
join_chunk-cut config n m page path text prev (c ∷ head) rest le h e =
    ground (arith, texts_eq_self path, same_page_self page, drop-append (c ∷ head) rest)

-- From a body that is under way: the passage grows by the units alone.
abbrev Whole : ChunkingConfig → List PackUnit → Str → List Str → Type 0
Whole config us cur bodies =
    (x : Str) × (bs : List Str) × (bodies ≡ (cur ++ x) ∷ bs)
    × ((P : Str) (n m : ℕ) (page : Option ℕ) (path : List Str)
        → n ≤ m
        → join_loop config (some (chunk_of m page path (cur ++ x)))
            (section_chunks (m + 1) page path bs) (chunk_of n page path (P ++ (cur ++ x)) ∷ [])
          ≡ chunk_of n page path (joined (P ++ cur) us) ∷ [])

Whole-last : (config : ChunkingConfig) (cur : Str) → Whole config [] cur (cur ∷ [])
unfolding join_loop
Whole-last config cur =
    ([], [], rw (append-nil cur), λ P n m page path le. rw (append-nil cur) refl)

Whole-put :
    (config : ChunkingConfig) (u : PackUnit) (us : List PackUnit) (cur : Str) (bodies : List Str)
    → is_empty cur ≡ false
    → Whole config us (put cur u) bodies
    → Whole config (u ∷ us) cur bodies
Whole-put config u us [] bodies h w = absurd (cc)
Whole-put config u us (c ∷ cur) bodies h (x, bs, e, g) = (
  (joiner u ++ u.text) ++ x,
  bs,
  rw (← append_assoc cur (joiner u ++ u.text) x) e,
  λ P n m page path le.
      rw (← append_assoc cur (joiner u ++ u.text) x, put-append P (c ∷ cur) u refl)
        (g P n m page path le),
)

regroup : (P q h r : Str) → (P ++ q) ++ (h ++ r) ≡ (P ++ (q ++ h)) ++ r
regroup P q h r = rw (append_assoc P (q ++ h) r, append_assoc q h r, append_assoc P q (h ++ r))

is_empty-end : (P h : Str) → is_empty h ≡ false → is_empty (P ++ h) ≡ false
is_empty-end [] h k = k
is_empty-end (c ∷ P) h k = refl

-- A cut: the body that was under way ends, and the next one begins with its tail.
Whole-cut :
    (config : ChunkingConfig) (u : PackUnit) (us : List PackUnit) (q head : Str) (bodies : List Str)
    → is_empty head ≡ false
    → ((x : Str)
        → overlap_length (q ++ head) (head ++ ((joiner u ++ u.text) ++ x)) config ≡ length head)
    → Whole config us (put head u) bodies
    → Whole config (u ∷ us) (q ++ head) ((q ++ head) ∷ bodies)
unfolding join_loop
Whole-cut config u us q head bodies some_head cut (x, bs, e, g) =
    let r = joiner u ++ u.text in
    let whole = put_solid head u some_head in
    (
      [],
      bodies,
      rw (append-nil (q ++ head)),
      λ P n m page path le.
          let step =
            join_chunk-cut config n m page path (P ++ (q ++ head)) (q ++ head) head (r ++ x) le
              some_head (cut x) in
          let ih = g (P ++ q) n (m + 1) page path (omega (arith, le)) in
          rw
            (
              append-nil (q ++ head),
              e,
              whole,
              append_assoc head r x,
              step,
              put_solid (P ++ (q ++ head)) u
                  (is_empty-end P (q ++ head) (is_empty-end q head some_head)),
              ← regroup P q head (r ++ x),
              ← regroup P q head r,
            )
            (rw (whole, append_assoc head r x) at ih),
    )

abbrev pub passages_of : ℕ → Option ℕ → List Str → List PackUnit → List KbTextChunk
passages_of n page path [] = []
passages_of n page path (u ∷ us) = chunk_of n page path (joined [] (u ∷ us)) ∷ []

passages-text :
    (n : ℕ) (page : Option ℕ) (path : List Str) (us : List PackUnit)
    → concat (map (λ c. c.text) (passages_of n page path us)) ≡ joined [] us
passages-text n page path [] = refl
passages-text n page path (u ∷ us) = append-nil (joined [] (u ∷ us))

module _ (config : ChunkingConfig) (v : IsValid config) (o : 1 ≤ config.overlap_chars) where
  pack_loop-Whole :
      (us : List PackUnit) (cur : Str)
      → IsSolid cur
      → All (λ u. IsSolid u.text) us
      → All (Fits (piece_size config)) us
      → Whole config us cur (pack_loop config us cur true)
  unfolding pack_loop
  pack_loop-Whole [] cur h s f = rw (ends_solid-is_blank cur h) (Whole-last config cur)
  pack_loop-Whole (u ∷ us) cur h s f = elim (Bool-cases (is_full config cur u)) [
    | inr e ↦ rw e (
        Whole-put config u us cur _ (ends_solid-is_empty cur h)
          (pack_loop-Whole us (put cur u) (put-IsSolid cur u s.0) s.1 f.1))
    | inl e ↦
        let head = tail cur config.overlap_chars in
        let (q, end, last) = tail-ends_solid cur config.overlap_chars o h in
        let full = ltb→lt config.target_chars (length cur + length (joiner u) + length u.text) e in
        let rest =
          Whole-cut config u us q head (pack_loop config us (put head u) true)
            (ends_solid-is_empty head last)
            (λ x.
              rw (← end, append_assoc (joiner u) u.text x)
                (overlap_length-cut config cur (u.text ++ x) u o
                  (omega (arith, full, length-joiner-le u, f.0, v.0, v.1)) last
                  (omega
                    (arith, full, length-append (joiner u) (u.text ++ x), length-append u.text x))))
            (pack_loop-Whole us (put head u) (put-IsSolid head u s.0) s.1 f.1) in
        rw e (rw (← end) at rest)
  ]

  first_unit :
      (n : ℕ) (page : Option ℕ) (path : List Str) (us : List PackUnit)
      → All (λ u. IsSolid u.text) us
      → All (Fits (piece_size config)) us
      → join_loop config none (section_chunks n page path (pack_loop config us [] false)) []
        ≡ passages_of n page path us
  unfolding join_loop pack_loop join_chunk
  first_unit n page path [] s f = refl
  first_unit n page path (u ∷ us) s f =
      let (x, bs, e, g) = pack_loop-Whole us u.text s.0 s.1 f.1 in
      rw e (g [] n n page path (omega arith))

  -- Under a valid configuration with an overlap of at least one character, the chunks of a section
  -- whose paragraphs end solid are read back as one passage, its units behind one another, or as
  -- none where there is no unit; and the passage has the characters of the paragraphs, each once
  -- and in order, white space aside.
  pub pack-join_passages :
      (paras : List Str) (n : ℕ) (page : Option ℕ) (path : List Str)
      → All IsSolid paras
      → (join_passages (section_chunks n page path (pack paras config)) none config
          ≡ passages_of n page path (units config paras))
        × (solid (concat (map (λ c. c.text) (passages_of n page path (units config paras))))
            ≡ solid (concat paras))
  unfolding join_passages pack
  pack-join_passages paras n page path h = (
    first_unit n page path (units config paras) (units-IsSolid config paras h)
        (units-Fits config paras),
    ap solid (passages-text n page path (units config paras)) ∙ joined-units-solid config paras,
  )
