-- ===== src/Tests/Samples.antt =====
-- A small Unicode table and a family in a graph.
use cogno_engram.Prelude.{
  ℕ, ◌+◌, ◌≡◌, refl, none, some, [], ◌∷◌, map, leb, ◌&&◌, arith, if◌then◌else◌,
}
use cogno_engram.Text.{Str, codes, str_eq, strip, is_blank, starts_with}
use cogno_engram.Errors.{ok}
use cogno_engram.Folding.{Unicode, fold_label}
use cogno_engram.Types.{
  GraphNode, GraphEdge, accepted, proposed, text, audience_tenant, sanitize_audience, concept,
}
use cogno_engram.Graph.State.{Entry, Graph, require_scope, has_node, at_key}
use cogno_engram.Graph.Write.{is_edge}
use cogno_engram.Graph.Valid.{IsValid}

abbrev pub lower_char : ℕ → ℕ
lower_char c = if leb b'A' c && leb c b'Z' then c + 32 else c

-- The ASCII letters fold their case, and é is e with an accent.
abbrev pub decompose : Str → Str
decompose [] = []
decompose (c ∷ s) = if leb 233 c && leb c 233 then 101 ∷ 769 ∷ decompose s else c ∷ decompose s

abbrev pub plain : Unicode
plain = record {
  casefold = map lower_char;
  lower = map lower_char;
  upper = λ s. s;
  nfd = decompose;
  combining = λ c. leb 768 c && leb c 879;
}

abbrev pub acme : Str
acme = codes "acme/1"

abbrev pub node : Str → ℕ → GraphNode
node label id = record {
  scope = acme;
  label = label;
  node_type = concept;
  attributes = [];
  embedding = none;
  id = some id;
  created_at = some 1;
  updated_at = some 1;
}

abbrev pub entry : Str → Str → ℕ → Entry
entry label key id = record { scope = acme; key = key; node = node label id }

abbrev pub family_edge : Str → Str → GraphEdge
family_edge source target = record {
  source = source;
  scope = acme;
  target = target;
  relation = codes "PARENT_OF";
  confidence = 10000;
  source_session = codes "s1";
  attributes = (codes "note", text (codes "x")) ∷ [];
  status = accepted;
  audience = audience_tenant;
  created_at = some 1;
  id = none;
}

abbrev pub jose_ana : GraphEdge
jose_ana = family_edge (codes "José") (codes "Ana")

abbrev pub ana_rex : GraphEdge
ana_rex = record (family_edge (codes "Ana") (codes "Rex")) { status = proposed; audience = [] }

-- José, Ana and Rex, with an accepted and a proposed edge.
abbrev pub family : Graph
family = record {
  nodes =
      entry (codes "José") (codes "jose") 1
      ∷ entry (codes "Ana") (codes "ana") 2
      ∷ entry (codes "Rex") (codes "rex") 3
      ∷ [];
  edges = jose_ana ∷ ana_rex ∷ [];
  next_id = 4;
}

pub allowed : require_scope acme ≡ ok tt
unfolding require_scope strip is_blank
allowed = refl

pub family-IsValid : IsValid plain family
unfolding fold_label str_eq has_node at_key is_edge sanitize_audience strip starts_with is_blank
family-IsValid = record {
  keyed = ((refl, refl), ((refl, refl), ((refl, refl), tt)));
  numbered = ((1, refl, omega arith), ((2, refl, omega arith), ((3, refl, omega arith), tt)));
  distinct = (
    ((refl, λ e. ground arith), ((refl, λ e. ground arith), tt)),
    (((refl, λ e. ground arith), tt), (tt, tt)),
  );
  attached = ((refl, refl), ((refl, refl), tt));
  canonical = (refl, (refl, tt));
  unique = ((refl, tt), (tt, tt));
}
