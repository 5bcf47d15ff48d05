-- ===== src/Types/Records.antt =====
-- types.py: sessions, turns, traces, memories, nodes and edges. A date is a number of microseconds.
-- A confidence is a number of ten-thousandths, and a score or a vector's component a signed one:
-- they are compared, clamped and stored. Attribute values are the scalars of JSON.
use cogno_engram.Prelude.{ℕ, Bool, Option, none, some, List, [], ◌∷◌, if◌then◌else◌}
use cogno_engram.Prelude.Int.{ℤ}
use cogno_engram.Text.{Str, codes, str_eq, strip, is_empty}
use cogno_engram.Folding.{Unicode}
use cogno_engram.Types.Status.{EdgeStatus, sanitize_edge_status}
use cogno_engram.Types.Audience.{sanitize_audience}

abbrev pub Date : Type 0
Date = ℕ

abbrev pub Vector : Type 0
Vector = List ℤ

pub data Value : Type 0 where
  text : Str → Value
  number : ℤ → Value
  flag : Bool → Value
  null : Value

-- A `dict`, its keys in the order of insertion.
abbrev pub Attributes : Type 0
Attributes = List (Str × Value)

-- `d[k] = v`
unfoldable pub set_key : Str → Value → Attributes → Attributes
set_key k v [] = (k, v) ∷ []
set_key k v ((j, w) ∷ d) =
    let rest = set_key k v d in if str_eq j k then (j, v) ∷ d else (j, w) ∷ rest

-- `d.get(k)`
unfoldable pub get_key : Str → Attributes → Option Value
get_key k [] = none
get_key k ((j, w) ∷ d) = let rest = get_key k d in if str_eq j k then some w else rest

-- `{**d, **new}`
unfoldable pub merge : Attributes → Attributes → Attributes
unfolding set_key
merge d [] = d
merge d ((k, v) ∷ new) = merge (set_key k v d) new

pub record Session : Type 0 where
  pub id : Str
  pub scope : Str
  pub started_at : Date
  pub ended_at : Option Date
  pub summary : Str

-- The opaque objects of cogno-anima (`intent`, `id_result`, `metrics`) are kept as values.
pub record TurnRecord : Type 0 where
  pub session_id : Str
  pub scope : Str
  pub turn_n : ℤ
  pub user_input : Str
  pub response : Str
  pub feedback : ℤ
  pub created_at : Option Date
  pub goal : Str
  pub goal_status : Str
  pub sentiment : Str
  pub domains : List Str
  pub pii_types : List Str
  pub intent : Option Value
  pub id_result : Option Value
  pub metrics : List Value
  pub voiced_by : Str

pub record TurnTrace : Type 0 where
  pub session_id : Str
  pub scope : Str
  pub turn_n : ℤ
  pub trace : Attributes
  pub created_at : Option Date

pub record MemoryRecord : Type 0 where
  pub scope : Str
  pub category : Str
  pub content : Str
  pub confidence : ℕ
  pub feedback_score : ℤ
  pub embedding : Option Vector
  pub created_at : Option Date
  pub id : Option Str
  pub first_heard_by : Str

pub record GraphNode : Type 0 where
  pub scope : Str
  pub label : Str
  pub node_type : Str
  pub attributes : Attributes
  pub embedding : Option Vector
  pub id : Option ℕ
  pub created_at : Option Date
  pub updated_at : Option Date

pub record GraphEdge : Type 0 where
  pub source : Str
  pub scope : Str
  pub target : Str
  pub relation : Str
  pub confidence : ℕ
  pub source_session : Str
  pub attributes : Attributes
  pub status : EdgeStatus
  pub audience : Str
  pub created_at : Option Date
  pub id : Option ℕ

abbrev pub concept : Str
concept = codes "CONCEPT"

module _ (uni : Unicode) where
  -- `GraphNode.__post_init__`: only the case of the type is normalised.
  unfoldable pub normal_node_type : Str → Str
  normal_node_type raw =
      let stripped = uni.upper (strip (if is_empty raw then concept else raw)) in
      if is_empty stripped then concept else stripped

  -- `GraphNode(scope, label, node_type)`, every other field at its default.
  unfoldable pub graph_node : Str → Str → Str → GraphNode
  unfolding normal_node_type
  graph_node scope label node_type = record {
    scope = scope;
    label = label;
    node_type = normal_node_type node_type;
    attributes = [];
    embedding = none;
    id = none;
    created_at = none;
    updated_at = none;
  }

  -- `GraphEdge(...)`: the status and the audience are normalised in `__post_init__`.
  unfoldable pub graph_edge :
      Str → Str → Str → Str → ℕ → Str → Attributes → Option Str → Option Str → GraphEdge
  graph_edge scope source target relation confidence source_session attributes status audience =
      record {
        scope = scope;
        source = source;
        target = target;
        relation = relation;
        confidence = confidence;
        source_session = source_session;
        attributes = attributes;
        status = sanitize_edge_status uni status;
        audience = sanitize_audience audience;
        created_at = none;
        id = none;
      }
