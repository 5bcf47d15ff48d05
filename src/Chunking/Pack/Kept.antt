-- ===== src/Chunking/Pack/Kept.antt =====
-- chunking.py, `_pack`: the characters of the paragraphs in the units, white space aside.
use mathlib.Core.List.{append_assoc, append-nil}
use cogno_engram.Prelude.{
  ◌≡◌, refl, sym, ◌∙◌, ap, List, [], ◌∷◌, ◌++◌, map, if◌then◌else◌, length, ltb, arith, inl, inr,
  Bool-cases,
}
use cogno_engram.Text.{Str, is_space, solid, solid-append}
use cogno_engram.Chunking.Config.{ChunkingConfig}
use cogno_engram.Chunking.Split.{split_long}
use cogno_engram.Chunking.Split.Sizes.{concat, split_long-solid}
use cogno_engram.Chunking.Pack.{PackUnit, piece_size, continuing, parts_of, units, joiner, put}

-- The units behind one another, each behind its joiner.
abbrev pub joined : Str → List PackUnit → Str
joined cur [] = cur
joined cur (u ∷ us) = joined (put cur u) us

abbrev pub texts : List PackUnit → List Str
texts us = map (λ u. u.text) us

joiner-solid : (u : PackUnit) → solid (joiner u) ≡ []
unfolding is_space
joiner-solid u = elim (Bool-cases u.continues) [ inl e ↦ rw e refl | inr e ↦ rw e refl ]

put-solid : (cur : Str) (u : PackUnit) → solid (put cur u) ≡ solid cur ++ solid u.text
put-solid [] u = refl
put-solid (c ∷ cur) u =
    solid-append (c ∷ cur) (joiner u ++ u.text)
    ∙ ap (λ t. solid (c ∷ cur) ++ t)
        (solid-append (joiner u) u.text ∙ ap (λ t. t ++ solid u.text) (joiner-solid u))

joined-solid :
    (us : List PackUnit) (cur : Str)
    → solid (joined cur us) ≡ solid cur ++ solid (concat (texts us))
joined-solid [] cur = sym (append-nil (solid cur))
joined-solid (u ∷ us) cur =
    joined-solid us (put cur u)
    ∙ ap (λ t. t ++ solid (concat (texts us))) (put-solid cur u)
    ∙ append_assoc (solid cur) (solid u.text) (solid (concat (texts us)))
    ∙ ap (λ t. solid cur ++ t) (sym (solid-append u.text (concat (texts us))))

parts_of-texts : (ps : List Str) → texts (parts_of ps) ≡ ps
parts_of-texts [] = refl
parts_of-texts (p ∷ ps) = ap (λ t. p ∷ t) (rest ps)
  where
    rest : (ps : List Str) → texts (map continuing ps) ≡ ps
    rest [] = refl
    rest (p ∷ ps) = ap (λ t. p ∷ t) (rest ps)

texts-append :
    (us vs : List PackUnit)
    → solid (concat (texts (us ++ vs))) ≡ solid (concat (texts us)) ++ solid (concat (texts vs))
texts-append [] vs = refl
texts-append (u ∷ us) vs =
    solid-append u.text (concat (texts (us ++ vs)))
    ∙ ap (λ t. solid u.text ++ t) (texts-append us vs)
    ∙ sym (append_assoc (solid u.text) (solid (concat (texts us))) (solid (concat (texts vs))))
    ∙ ap (λ t. t ++ solid (concat (texts vs))) (sym (solid-append u.text (concat (texts us))))

units-solid :
    (config : ChunkingConfig) (paras : List Str)
    → solid (concat (texts (units config paras))) ≡ solid (concat paras)
unfolding units
units-solid config [] = refl
units-solid config (para ∷ paras) =
    let size = piece_size config in
    let parts = if ltb size (length para) then split_long para size else para ∷ [] in
    let kept : solid (concat parts) ≡ solid para = elim (Bool-cases (ltb size (length para))) [
      | inl e ↦ rw e (split_long-solid para size (omega arith))
      | inr e ↦ rw e (ap solid (append-nil para))
    ] in
    texts-append (parts_of parts) (units config paras)
    ∙ ap (λ ps. solid (concat ps) ++ solid (concat (texts (units config paras))))
        (parts_of-texts parts)
    ∙ ap (λ t. t ++ solid (concat (texts (units config paras)))) kept
    ∙ ap (λ t. solid para ++ t) (units-solid config paras)
    ∙ sym (solid-append para (concat paras))

-- The units behind one another have the characters of the paragraphs, white space aside.
pub joined-units-solid :
    (config : ChunkingConfig) (paras : List Str)
    → solid (joined [] (units config paras)) ≡ solid (concat paras)
joined-units-solid config paras = joined-solid (units config paras) [] ∙ units-solid config paras
