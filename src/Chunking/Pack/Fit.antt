-- ===== src/Chunking/Pack/Fit.antt =====
-- chunking.py, `_pack`.
use cogno_engram.Prelude.{
  length-drop, ℕ, ◌+◌, ◌-◌, ◌≤◌, ◌≡◌, Bool, true, false, not, ◌&&◌, List, [], ◌∷◌, ◌++◌, length,
  ltb, map, arith, inl, inr, Bool-cases, All, All-append, length-append, drop, Option, none, some,
}
use cogno_engram.Text.{Str, is_blank, length-strip-le}
use cogno_engram.Chunking.Config.{ChunkingConfig, IsValid}
use cogno_engram.Chunking.Split.{tail, index_of, earlier_index, behind}
use cogno_engram.Chunking.Split.Sizes.{split_long-le}
use cogno_engram.Chunking.Pack.{
  PackUnit, piece_size, continuing, parts_of, units, joiner, put, is_full, pack_loop, pack,
}

length-behind-le : (mark : Option ℕ) (end : Str) → length (behind mark end) ≤ length end
length-behind-le none end = omega arith
length-behind-le (some m) end = omega (arith, length-drop (m + 1) end)

-- A tail has at most the characters asked for.
pub length-tail-le : (body : Str) (chars : ℕ) → length (tail body chars) ≤ chars
unfolding tail
length-tail-le body chars =
    let end = drop (length body - chars) body in
    let mark = earlier_index (index_of 32 end) (index_of 10 end) in
    ground (
      arith,
      length-strip-le (behind mark end),
      length-behind-le mark end,
      length-drop (length body - chars) body,
    )

-- A text of at most `size` characters.
abbrev pub Fits : ℕ → PackUnit → Type 0
Fits size u = length u.text ≤ size

parts_of-Fits :
    (size : ℕ) (parts : List Str)
    → All (λ p. length p ≤ size) parts
    → All (Fits size) (parts_of parts)
parts_of-Fits size [] h = tt
parts_of-Fits size (p ∷ ps) h = (h.0, continuing-Fits ps h.1)
  where
    continuing-Fits :
        (ps : List Str) → All (λ p. length p ≤ size) ps → All (Fits size) (map continuing ps)
    continuing-Fits [] h = tt
    continuing-Fits (p ∷ ps) h = (h.0, continuing-Fits ps h.1)

pub units-Fits :
    (config : ChunkingConfig) (paras : List Str)
    → All (Fits (piece_size config)) (units config paras)
unfolding units
units-Fits config [] = tt
units-Fits config (para ∷ paras) =
    let size = piece_size config in
    All-append (Fits size) _ (units config paras)
      (parts_of-Fits size _ (elim (Bool-cases (ltb size (length para))) [
        | inl e ↦ rw e (split_long-le para size (omega arith))
        | inr e ↦ rw e (ground arith, tt)
      ]))
      (units-Fits config paras)

length-put-le :
    (cur : Str) (u : PackUnit) → length (put cur u) ≤ length cur + length (joiner u) + length u.text
length-put-le [] u = omega arith
length-put-le (c ∷ cur) u =
    omega (arith, length-append (c ∷ cur) (joiner u ++ u.text), length-append (joiner u) u.text)

pub length-joiner-le : (u : PackUnit) → length (joiner u) ≤ 2
length-joiner-le u = ground arith

pack_loop-le :
    (config : ChunkingConfig) (us : List PackUnit) (cur : Str) (has_unit : Bool)
    → IsValid config
    → All (Fits (piece_size config)) us
    → length cur ≤ config.target_chars
    → (has_unit ≡ false → length cur ≤ config.overlap_chars)
    → All (λ b. length b ≤ config.target_chars) (pack_loop config us cur has_unit)
unfolding pack_loop
pack_loop-le config [] cur has_unit v f h k = elim (Bool-cases (has_unit && not (is_blank cur))) [
  | inl e ↦ rw e (h, tt)
  | inr e ↦ rw e tt
]
pack_loop-le config (u ∷ us) cur has_unit v f h k =
    let next = tail cur config.overlap_chars in
    elim (Bool-cases (has_unit && is_full config cur u)) [
      | inl e ↦ rw e (
        h,
        pack_loop-le config us (put next u) true v f.1
            (omega (
              arith,
              length-put-le next u,
              length-tail-le cur config.overlap_chars,
              length-joiner-le u,
              f.0,
              v.0,
              v.1,
            ))
            (λ t. absurd (cc)),
      )
      | inr e ↦ rw e (
          pack_loop-le config us (put cur u) true v f.1
            (elim (Bool-cases has_unit) [
              | inl t ↦ ground (arith, length-put-le cur u)
              | inr t ↦ omega (arith, length-put-le cur u, k t, length-joiner-le u, f.0, v.0, v.1)
            ])
            (λ t. absurd (cc)))
    ]

-- Every body has at most the target's characters, the overlap at its head included.
pub pack-le :
    (paragraphs : List Str) (config : ChunkingConfig)
    → IsValid config
    → All (λ b. length b ≤ config.target_chars) (pack paragraphs config)
unfolding pack
pack-le paragraphs config v =
    pack_loop-le config (units config paragraphs) [] false v (units-Fits config paragraphs)
      (omega (arith, v.0)) (λ _. omega arith)
