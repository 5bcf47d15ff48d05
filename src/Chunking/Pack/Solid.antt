-- ===== src/Chunking/Pack/Solid.antt =====
-- chunking.py, `_pack`: the units that the bodies are packed of.
use cogno_engram.Prelude.{
  ℕ, zero, suc, ◌+◌, ◌≤◌, ◌≡◌, true, List, [], ◌∷◌, map, length, ltb, take, drop, arith, inl, inr,
  Bool-cases, All, All-append, ltb→lt,
}
use cogno_engram.Text.{
  Str, strip, lstrip, rstrip, ends_solid, starts_solid, rstrip-ends_solid, lstrip-ends_solid,
  lstrip-starts_solid, drop-ends_solid, keep_last_solid, ends_solid-is_empty, ends_solid-rstrip,
}
use cogno_engram.Chunking.Config.{ChunkingConfig}
use cogno_engram.Chunking.Split.{cut_at, split_loop, split_long}
use cogno_engram.Chunking.Split.Sizes.{cut_at-bounds}
use cogno_engram.Chunking.Pack.{piece_size, continuing, parts_of, units}

abbrev pub IsSolid : Str → Type 0
IsSolid s = ends_solid s ≡ true

-- What is left of a cut begins with a solid character.
rstrip-take-IsSolid :
    (cut : ℕ) (rest : Str) → 1 ≤ cut → starts_solid rest ≡ true → IsSolid (rstrip (take cut rest))
unfolding rstrip
rstrip-take-IsSolid zero rest h k = absurd (omega arith)
rstrip-take-IsSolid (suc n) [] h k = absurd (cc)
rstrip-take-IsSolid (suc n) (c ∷ s) h k =
    ends_solid-rstrip (c ∷ take n s) (keep_last_solid c (rstrip (take n s)) (ground arith))

split_loop-IsSolid :
    (fuel size : ℕ) (rest : Str)
    → 1 ≤ size
    → starts_solid rest ≡ true
    → IsSolid rest
    → All IsSolid (split_loop fuel size rest)
unfolding split_loop
split_loop-IsSolid zero size rest h a b = tt
split_loop-IsSolid (suc fuel) size rest h a b = elim (Bool-cases (ltb size (length rest))) [
  | inl e ↦
      let cut = cut_at size rest in
      let (least, most) = cut_at-bounds size rest h in
      let (q, whole, last) =
        lstrip-ends_solid (drop cut rest)
          (drop-ends_solid cut rest (omega (arith, most, ltb→lt size (length rest) e)) b) in
      rw e (
        rstrip-take-IsSolid cut rest least a,
        split_loop-IsSolid fuel size (lstrip (drop cut rest)) h
            (lstrip-starts_solid (drop cut rest) (ends_solid-is_empty _ last)) last,
      )
  | inr e ↦ rw (e, ends_solid-is_empty rest b) (b, tt)
]

split_long-IsSolid :
    (paragraph : Str) (size : ℕ)
    → 1 ≤ size
    → IsSolid paragraph
    → All IsSolid (split_long paragraph size)
unfolding split_long strip
split_long-IsSolid paragraph size h k =
    let (q, whole, last) = lstrip-ends_solid paragraph k in
    rw (rstrip-ends_solid (lstrip paragraph) last) (
      split_loop-IsSolid (length (lstrip paragraph) + 1) size (lstrip paragraph) h
        (lstrip-starts_solid paragraph (ends_solid-is_empty _ last)) last)

parts_of-IsSolid : (ps : List Str) → All IsSolid ps → All (λ u. IsSolid u.text) (parts_of ps)
parts_of-IsSolid [] h = tt
parts_of-IsSolid (p ∷ ps) h = (h.0, rest ps h.1)
  where
    rest : (ps : List Str) → All IsSolid ps → All (λ u. IsSolid u.text) (map continuing ps)
    rest [] h = tt
    rest (p ∷ ps) h = (h.0, rest ps h.1)

pub units-IsSolid :
    (config : ChunkingConfig) (paras : List Str)
    → All IsSolid paras
    → All (λ u. IsSolid u.text) (units config paras)
unfolding units
units-IsSolid config [] h = tt
units-IsSolid config (para ∷ paras) h =
    let size = piece_size config in
    All-append (λ u. IsSolid u.text) _ (units config paras)
      (parts_of-IsSolid _ (elim (Bool-cases (ltb size (length para))) [
        | inl e ↦ rw e (split_long-IsSolid para size (omega arith) h.0)
        | inr e ↦ rw e (h.0, tt)
      ]))
      (units-IsSolid config paras h.1)
