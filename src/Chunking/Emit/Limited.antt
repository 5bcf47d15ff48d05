-- ===== src/Chunking/Emit/Limited.antt =====
-- chunking.py: what `_Emitter` makes of all the bodies of a document.
use mathlib.Core.List.{append_assoc, append-nil}
use cogno_engram.Prelude.{
  ℕ, suc, ◌+◌, ◌≤◌, ◌≡◌, refl, ◌∙◌, Option, List, [], ◌∷◌, ◌++◌, map, if◌then◌else◌, length, leb,
  arith, inl, inr, Bool-cases, length-append,
}
use cogno_engram.Text.{Str}
use cogno_engram.Errors.{Result, ok, raise, ◌>>=◌, extraction_error}
use cogno_engram.Documents.Rules.{reason_over_limit}
use cogno_engram.Documents.State.{KbChunk}
use cogno_engram.Chunking.Config.{ChunkingConfig}
use cogno_engram.Chunking.Emit.{new_chunk, emit}

-- A body of the document with its path and page, before it is numbered.
pub record Piece : Type 0 where
  pub path : List Str
  pub page : Option ℕ
  pub body : Str

abbrev pub piece_of : List Str → Option ℕ → Str → Piece
piece_of path page body = record { path = path; page = page; body = body }

-- The chunks of the pieces, numbered from `n` on.
abbrev pub numbered : ChunkingConfig → ℕ → List Piece → List KbChunk
numbered config n [] = []
numbered config n (p ∷ ps) = new_chunk config n p.path p.page p.body ∷ numbered config (n + 1) ps

-- All the pieces behind the chunks that are there, or the error where they are too many.
abbrev pub limited : ChunkingConfig → List KbChunk → List Piece → Result (List KbChunk)
limited config chunks ps =
    if leb (length chunks + length ps) config.max_chunks
    then ok (chunks ++ numbered config (length chunks) ps)
    else raise (extraction_error reason_over_limit)

length-map {ℓ κ} :
    {A : Type ℓ} {B : Type κ} (f : A → B) (xs : List A) → length (map f xs) ≡ length xs
length-map f [] = refl
length-map f (x ∷ xs) = omega (arith, length-map f xs)

length-numbered :
    (config : ChunkingConfig) (n : ℕ) (ps : List Piece) → length (numbered config n ps) ≡ length ps
length-numbered config n [] = refl
length-numbered config n (p ∷ ps) = omega (arith, length-numbered config (n + 1) ps)

numbered-append :
    (config : ChunkingConfig) (n : ℕ) (ps qs : List Piece)
    → numbered config n (ps ++ qs) ≡ numbered config n ps ++ numbered config (n + length ps) qs
numbered-append config n [] qs = let none_before : n + 0 ≡ n = omega arith in rw none_before refl
numbered-append config n (p ∷ ps) qs =
    let shift : n + 1 + length ps ≡ n + suc (length ps) = omega arith in
    rw (numbered-append config (n + 1) ps qs, shift) refl

pub emit-limited :
    (config : ChunkingConfig) (path bodies : List Str) (page : Option ℕ) (chunks : List KbChunk)
    → length chunks ≤ config.max_chunks
    → emit config path bodies page chunks ≡ limited config chunks (map (piece_of path page) bodies)
unfolding emit
emit-limited config path [] page chunks h = ground (arith, append-nil chunks)
emit-limited config path (b ∷ bs) page chunks h =
    let c = new_chunk config (length chunks) path page b in
    let one = length-append chunks (c ∷ []) in
    elim (Bool-cases (leb config.max_chunks (length chunks))) [
      | inl e ↦ rw e (ground arith)
      | inr e ↦
          let ih = emit-limited config path bs page (chunks ++ c ∷ []) (ground (arith, one)) in
          let shift : length chunks + 1 + length (map (piece_of path page) bs)
              ≡ length chunks + suc (length (map (piece_of path page) bs)) =
            omega arith in
          rw
            (
              e,
              ih,
              one,
              shift,
              append_assoc chunks (c ∷ [])
                  (numbered config (length chunks + 1) (map (piece_of path page) bs)),
            )
            refl
    ]

pub limited-limited :
    (config : ChunkingConfig) (chunks : List KbChunk) (ps qs : List Piece)
    → (limited config chunks ps >>= λ cs. limited config cs qs) ≡ limited config chunks (ps ++ qs)
limited-limited config chunks ps qs =
    let total = length-append ps qs in
    elim (Bool-cases (leb (length chunks + length ps) config.max_chunks)) [
      | inr e ↦ rw e (ground (arith, total))
      | inl e ↦
          let shift : length chunks + length ps + length qs
              ≡ length chunks + (length ps + length qs) =
            omega arith in
          rw
            (
              e,
              length-append chunks (numbered config (length chunks) ps),
              length-numbered config (length chunks) ps,
              shift,
              total,
              append_assoc chunks (numbered config (length chunks) ps)
                  (numbered config (length chunks + length ps) qs),
              numbered-append config (length chunks) ps qs,
            )
            refl
    ]

-- Pieces behind which a loop emits others.
pub limited-then :
    (config : ChunkingConfig) (chunks : List KbChunk) (ps qs : List Piece)
    (k : List KbChunk → Result (List KbChunk))
    → ((cs : List KbChunk) → length cs ≤ config.max_chunks → k cs ≡ limited config cs qs)
    → (limited config chunks ps >>= k) ≡ limited config chunks (ps ++ qs)
limited-then config chunks ps qs k h =
    elim (Bool-cases (leb (length chunks + length ps) config.max_chunks)) [
      | inr e ↦ rw e (rw e at (limited-limited config chunks ps qs))
      | inl e ↦
          let cs = chunks ++ numbered config (length chunks) ps in
          let size = length-append chunks (numbered config (length chunks) ps) in
          let same = length-numbered config (length chunks) ps in
          let fits : length cs ≤ config.max_chunks = ground (arith, size, same) in
          rw e (h cs fits) ∙ (rw e at (limited-limited config chunks ps qs))
    ]

-- What was not too many is numbered from 0 on.
pub limited-eq-ok :
    (config : ChunkingConfig) (ps : List Piece) {cs : List KbChunk}
    → limited config [] ps ≡ ok cs
    → (cs ≡ numbered config 0 ps) × (length cs ≤ config.max_chunks)
limited-eq-ok config ps {cs} h = elim (Bool-cases (leb (length ps) config.max_chunks)) [
  | inl e ↦
      let same : cs ≡ numbered config 0 ps = ground arith in
      (same, rw (same, length-numbered config 0 ps) (ground arith))
  | inr e ↦ absurd (ground arith)
]
