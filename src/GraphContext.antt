-- ===== src/GraphContext.antt =====
-- graph_context.py: the block of a prompt that describes the edges of a walk, and the ingestion of
-- the entities of a turn.
pub mod Budget
use cogno_engram.Prelude.{
  ℕ, zero, suc, ◌+◌, ◌-◌, ◌/◌, ◌%◌, Bool, true, false, ◌||◌, Option, none, some, List, [], ◌∷◌,
  ◌++◌, if◌then◌else◌, filter, any, take, length, ltb, sort_by, map,
}
use cogno_engram.Prelude.Int.{ℤ, pos, negsuc}
use cogno_engram.Text.{Str, codes, str_eq, is_empty, is_blank, strip, rstrip, words}
use cogno_engram.Errors.{Error, Result, ok, raise, ◌>>=◌}
use cogno_engram.Folding.{Unicode}
use cogno_engram.Types.{
  Date, Vector, Value, text, number, flag, null, Attributes, merge, GraphNode, GraphEdge,
  graph_node, concept, is_accepted,
}
use cogno_engram.Chunking.Passage.{join}
use cogno_engram.Store.State.{str_le}
use cogno_engram.Graph.State.{Graph}
use cogno_engram.Graph.Write.{upsert_node}

-- An entity of a turn: a label, or a label with the type of its node.
pub data Entity : Type 0 where
  bare : Str → Entity
  typed : Str → Str → Entity

-- `VALID_NODE_TYPES`
abbrev pub valid_node_types : List Str
valid_node_types =
    codes "PERSON"
    ∷ codes "ANIMAL"
    ∷ codes "PLACE"
    ∷ codes "ORG"
    ∷ codes "CONCEPT"
    ∷ codes "OBJECT"
    ∷ codes "EVENT"
    ∷ []

abbrev pub entity_label : Entity → Str
entity_label (bare label) = label
entity_label (typed label node_type) = label

-- `embed(label) or None`
abbrev pub or_none : Vector → Option Vector
or_none [] = none
or_none (x ∷ xs) = some (x ∷ xs)

-- The embedder, where there is one: what it answers, or what it raises.
abbrev pub embedding_of : Option (Str → Result Vector) → Str → Result (Option Vector)
embedding_of none label = ok none
embedding_of (some embed) label = embed label >>= λ v. ok (or_none v)

module _ (uni : Unicode) where
  -- A type outside the vocabulary is CONCEPT.
  unfoldable pub entity_type : Entity → Str
  entity_type (bare label) = concept
  entity_type (typed label node_type) =
      let upper = uni.upper (if is_empty node_type then concept else node_type) in
      if any (λ t. str_eq t upper) valid_node_types then upper else concept

  unfoldable pub entity_node : Attributes → Str → Entity → GraphNode
  unfolding strip entity_type graph_node
  entity_node attributes scope entity =
      record (graph_node uni scope (strip (entity_label entity)) (entity_type entity)) {
        attributes = attributes;
      }

  -- The graph that is left, with the count or what was raised; the clock by the entities that are
  -- written.
  unfoldable pub ingest_entities :
      (ℕ → Date)
      → Option (Str → Result Vector)
      → Attributes
      → Str
      → List Entity
      → ℕ
      → Graph
      → Graph × Result ℕ
  unfolding is_blank entity_node upsert_node
  ingest_entities clock embedder attributes scope [] count g = (g, ok count)
  ingest_entities clock embedder attributes scope (entity ∷ entities) count g =
      if is_blank (entity_label entity)
      then ingest_entities clock embedder attributes scope entities count g
      else (let node = entity_node attributes scope entity in
          elim (embedding_of embedder node.label) [
            | raise e ↦ (g, raise e)
            | ok v ↦ elim (upsert_node uni (clock count) (record node { embedding = v }) g) [
              | raise e ↦ (g, raise e)
              | ok r ↦ ingest_entities clock embedder attributes scope entities (count + 1) r.0
            ]
          ])

-- The decimal digits of a number, in front of those that are there.
unfoldable pub digits : ℕ → ℕ → Str → Str
digits zero n ds = ds
digits (suc fuel) n ds =
    let rest = digits fuel (n / 10) ((48 + n % 10) ∷ ds) in if ltb n 10 then (48 + n) ∷ ds else rest

-- `str(value)`
unfoldable pub show_value : Value → Str
unfolding digits
show_value (text s) = s
show_value (number (pos n)) = digits (n + 1) n []
show_value (number (negsuc n)) = 45 ∷ digits (n + 2) (n + 1) []
show_value (flag true) = codes "True"
show_value (flag false) = codes "False"
show_value null = codes "None"

-- `_MAX_DETAIL_CHARS`
abbrev pub max_detail_chars : ℕ
max_detail_chars = 120

unfoldable pub detail_parts : Attributes → List Str
unfolding show_value words join
detail_parts [] = []
detail_parts ((key, v) ∷ rows) =
    let rest = detail_parts rows in
    let value = join (32 ∷ []) (words (show_value v)) in
    if is_empty value then rest else (key ++ codes ": " ++ value) ∷ rest

-- The cut at the bound, with an ellipsis.
unfoldable pub bounded : Str → Str
unfolding rstrip
bounded s =
    if ltb max_detail_chars (length s)
    then rstrip (take (max_detail_chars - 1) s) ++ 8230 ∷ []
    else s

abbrev pub in_parentheses : List Str → Str
in_parentheses [] = []
in_parentheses (p ∷ ps) = codes " (" ++ bounded (join (codes "; ") (p ∷ ps)) ++ codes ")"

-- `_detail`
unfoldable pub detail : GraphEdge → Str
unfolding detail_parts bounded join
detail e = in_parentheses (detail_parts (sort_by (λ a b. str_le a.0 b.0) e.attributes))

unfoldable pub edge_line : GraphEdge → Str
unfolding detail
edge_line e =
    codes "- " ++ e.source ++ codes " --[" ++ e.relation ++ codes "]--> " ++ e.target ++ detail e

-- The lines that fit behind those that are written.
unfoldable pub lines_within : ℕ → ℕ → List GraphEdge → List Str
unfolding edge_line
lines_within max_chars used [] = []
lines_within max_chars used (e ∷ es) =
    let rest = lines_within max_chars (used + (length (edge_line e) + 1)) es in
    if ltb max_chars (used + length (edge_line e) + 1) then [] else edge_line e ∷ rest

abbrev pub block : ℕ → Str → List GraphEdge → Str
block max_chars header [] = []
block max_chars header (e ∷ es) =
    join (10 ∷ []) (header ∷ lines_within max_chars (length header) (e ∷ es))

-- The status is asked for again, whatever list of edges the caller built.
abbrev pub accepted_edges : List GraphEdge → List GraphEdge
accepted_edges = filter (λ e. is_accepted e.status)

-- No line fits a budget below 0, as none fits 0.
unfoldable pub format_graph_context : ℕ → Str → List GraphEdge → Str
unfolding lines_within join
format_graph_context max_chars header edges = block max_chars header (accepted_edges edges)
