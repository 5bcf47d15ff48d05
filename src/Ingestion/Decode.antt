-- ===== src/Ingestion/Decode.antt =====
-- Python's `bytes.decode("utf-8-sig")`: well-formed UTF-8, without the byte order mark at its head.
use cogno_engram.Prelude.{
  ℕ, ◌+◌, ◌-◌, ◌*◌, Bool, true, false, ◌&&◌, Option, none, some, List, [], ◌∷◌, if◌then◌else◌, leb,
  ltb, ◌==◌,
}
use cogno_engram.Text.{Str}

-- The bytes that a sequence still needs, the bounds of the next one, and the bits read.
pub record Sequence : Type 0 where
  pub missing : ℕ
  pub low : ℕ
  pub high : ℕ
  pub bits : ℕ

abbrev between : ℕ → ℕ → ℕ → Bool
between low high b = leb low b && leb b high

abbrev sequence : ℕ → ℕ → ℕ → ℕ → Option Sequence
sequence missing low high bits =
    some (record { missing = missing; low = low; high = high; bits = bits })

-- What a first byte of more than seven bits announces: no overlong form, no surrogate, nothing past
-- U+10FFFF.
unfoldable pub lead : ℕ → Option Sequence
lead b =
    if between 194 223 b
    then sequence 1 128 191 (b - 192)
    else (if b == 224
        then sequence 2 160 191 0
        else (if b == 237
            then sequence 2 128 159 13
            else (if between 225 239 b
                then sequence 2 128 191 (b - 224)
                else (if b == 240
                    then sequence 3 144 191 0
                    else (if between 241 243 b
                        then sequence 3 128 191 (b - 240)
                        else (if b == 244 then sequence 3 128 143 4 else none))))))

abbrev onto_text : ℕ → Option Str → Option Str
onto_text c none = none
onto_text c (some s) = some (c ∷ s)

unfoldable pub decode_utf8 : Option Sequence → List ℕ → Option Str
unfolding lead
decode_utf8 none [] = some []
decode_utf8 (some _) [] = none
decode_utf8 none (b ∷ bytes) = elim (ltb b 128) [
  | true ↦ onto_text b (decode_utf8 none bytes)
  | false ↦ elim (lead b) [ none ↦ none | some s ↦ decode_utf8 (some s) bytes ]
]
decode_utf8 (some s) (b ∷ bytes) = elim (between s.low s.high b) [
  | false ↦ none
  | true ↦
      let bits = s.bits * 64 + (b - 128) in
      elim (s.missing == 1) [
        | true ↦ onto_text bits (decode_utf8 none bytes)
        | false ↦ decode_utf8 (sequence (s.missing - 1) 128 191 bits) bytes
      ]
]

abbrev without_mark : Option Str → Option Str
without_mark (some (c ∷ s)) = some (if c == 65279 then s else c ∷ s)
without_mark other = other

unfoldable pub decode_utf8_sig : List ℕ → Option Str
unfolding decode_utf8
decode_utf8_sig bytes = without_mark (decode_utf8 none bytes)
