-- ===== src/GraphContext/Budget.antt =====
-- graph_context.py: the length and the lines of `format_graph_context`.
use cogno_engram.Prelude.{
  ℕ, suc, ◌+◌, ◌≤◌, ◌<◌, ◌≡◌, ◌⊎◌, inl, inr, refl, true, false, List, [], ◌∷◌, map, take, length,
  length-append, ltb, Bool-cases, arith, ap, ltb→lt,
}
use cogno_engram.Text.{Str}
use cogno_engram.Types.{GraphEdge}
use cogno_engram.Chunking.Passage.{join}
use cogno_engram.GraphContext.{edge_line, lines_within, block, accepted_edges, format_graph_context}

-- The characters of lines, each with the line break before it.
abbrev weight : List Str → ℕ
weight [] = 0
weight (l ∷ ls) = length l + 1 + weight ls

length-join_lines :
    (h : Str) (ls : List Str) → length (join (10 ∷ []) (h ∷ ls)) ≡ length h + weight ls
unfolding join
length-join_lines h [] = omega arith
length-join_lines h (l ∷ ls) =
    omega (arith, length-append h (10 ∷ join (10 ∷ []) (l ∷ ls)), length-join_lines l ls)

-- A line that fits, and the lines behind it.
line-fits :
    (top used line rest : ℕ)
    → ltb top (used + line + 1) ≡ false
    → (rest ≡ 0) ⊎ (used + (line + 1) + rest ≤ top)
    → used + (line + 1 + rest) ≤ top
line-fits top used line rest h (inl e) = ground arith
line-fits top used line rest h (inr le) = omega arith

overfull : (top used line : ℕ) → ltb top (used + line + 1) ≡ true → top < used + (line + 1 + 0)
overfull top used line h = omega (arith, ltb→lt top (used + line + 1) h)

full-suc :
    (top used line rest n k : ℕ)
    → (n ≤ k) ⊎ (top < used + (line + 1) + rest)
    → (suc n ≤ suc k) ⊎ (top < used + (line + 1 + rest))
full-suc top used line rest n k (inl le) = inl (omega arith)
full-suc top used line rest n k (inr lt) = inr (omega arith)

-- What fits: as many lines as the budget holds, and no more.
lines_within-fit :
    (max_chars used : ℕ) (es : List GraphEdge)
    → (k : ℕ) × (lines_within max_chars used es ≡ map edge_line (take k es))
      × ((weight (map edge_line (take k es)) ≡ 0)
          ⊎ (used + weight (map edge_line (take k es)) ≤ max_chars))
      × ((length es ≤ k) ⊎ (max_chars < used + weight (map edge_line (take (suc k) es))))
unfolding lines_within
lines_within-fit max_chars used [] = (0, refl, inl refl, inl (omega arith))
lines_within-fit max_chars used (e ∷ es) =
    let (k, lines, fit, full) = lines_within-fit max_chars (used + (length (edge_line e) + 1)) es in
    elim (Bool-cases (ltb max_chars (used + length (edge_line e) + 1))) [
      | inl over ↦
          (0, rw over refl, inl refl, inr (overfull max_chars used (length (edge_line e)) over))
      | inr fits ↦ (
        suc k,
        rw (fits, lines) refl,
        inr (
            line-fits max_chars used (length (edge_line e)) (weight (map edge_line (take k es)))
              fits fit),
        full-suc max_chars used (length (edge_line e)) (weight (map edge_line (take (suc k) es)))
            (length es) k full,
      )
    ]

-- A block is the header and the first lines, as many as fit.
block-fits :
    (max_chars : ℕ) (header : Str) (shown : List GraphEdge)
    → ((shown ≡ []) × (block max_chars header shown ≡ []))
      ⊎ ((k : ℕ) × (block max_chars header shown
            ≡ join (10 ∷ []) (header ∷ map edge_line (take k shown)))
          × ((length (block max_chars header shown) ≡ length header)
              ⊎ (length (block max_chars header shown) ≤ max_chars))
          × ((length shown ≤ k)
              ⊎ (max_chars
                  < length (join (10 ∷ []) (header ∷ map edge_line (take (suc k) shown))))))
block-fits max_chars header [] = inl (refl, refl)
block-fits max_chars header (e ∷ es) =
    let (k, lines, fit, full) = lines_within-fit max_chars (length header) (e ∷ es) in
    inr (
      k,
      ap (λ ls. join (10 ∷ []) (header ∷ ls)) lines,
      rw (lines, length-join_lines header (map edge_line (take k (e ∷ es))))
          (elim fit [ inl none_fits ↦ inl (rw none_fits (omega arith)) | inr le ↦ inr le ]),
      rw (length-join_lines header (map edge_line (take (suc k) (e ∷ es)))) full,
    )

-- Without an accepted edge the block is empty. Otherwise it is the header and the lines of the
-- first accepted edges, without a gap; it is no longer than the budget, unless the header alone is;
-- and where it leaves an edge out, the next line would not fit.
pub format_graph_context-fits :
    (max_chars : ℕ) (header : Str) (edges : List GraphEdge)
    → ((accepted_edges edges ≡ []) × (format_graph_context max_chars header edges ≡ []))
      ⊎ ((k : ℕ) × (format_graph_context max_chars header edges
            ≡ join (10 ∷ []) (header ∷ map edge_line (take k (accepted_edges edges))))
          × ((length (format_graph_context max_chars header edges) ≡ length header)
              ⊎ (length (format_graph_context max_chars header edges) ≤ max_chars))
          × ((length (accepted_edges edges) ≤ k)
              ⊎ (max_chars
                  < length (
                      join
                        (10 ∷ [])
                        (header ∷ map edge_line (take (suc k) (accepted_edges edges)))))))
unfolding format_graph_context
format_graph_context-fits max_chars header edges =
    block-fits max_chars header (accepted_edges edges)
