-- ===== src/Tests/StoreSamples.antt =====
-- A store of one session: a turn, its trace and a memory.
use cogno_engram.Prelude.{none, some, [], ◌∷◌}
use cogno_engram.Prelude.Int.{pos, ℤ}
use cogno_engram.Text.{Str, codes}
use cogno_engram.Types.{TurnRecord, TurnTrace, MemoryRecord}
use cogno_engram.WriteLoss.{fresh, subscribe}
use cogno_engram.Buffer.{Buffer}
use cogno_engram.Store.State.{Store}
use cogno_engram.Tests.Samples.{acme}

abbrev pub a_turn : ℤ → TurnRecord
a_turn n = record {
  session_id = codes "s1";
  scope = acme;
  turn_n = n;
  user_input = codes "hello";
  response = codes "hi";
  feedback = pos 0;
  created_at = none;
  goal = [];
  goal_status = [];
  sentiment = [];
  domains = [];
  pii_types = [];
  intent = none;
  id_result = none;
  metrics = [];
  voiced_by = [];
}

abbrev pub pinned_turn : TurnRecord
pinned_turn = a_turn (pos 2)

abbrev pub a_trace : TurnTrace
a_trace = record {
  session_id = codes "s1";
  scope = acme;
  turn_n = pos 2;
  trace = [];
  created_at = some 5;
}

abbrev pub a_memory : MemoryRecord
a_memory = record {
  scope = acme;
  category = codes "fact";
  content = codes "likes tea";
  confidence = 7000;
  feedback_score = pos 0;
  embedding = none;
  created_at = some 5;
  id = some (codes "m1");
  first_heard_by = codes "7";
}

abbrev pub digest_of : Str → Str
digest_of s = codes "sha"

abbrev pub a_store : Store
a_store = record {
  trace_revision_window = 10;
  sessions =
      record { id = codes "s1"; scope = acme; started_at = 1; ended_at = none; summary = [] } ∷ [];
  turns = pinned_turn ∷ [];
  consolidated = [];
  traces = a_trace ∷ [];
  memories = a_memory ∷ [];
  losses = subscribe 1 fresh;
}

abbrev pub a_buffer : Buffer
a_buffer = record { key = codes "acme/1:s1"; turns = a_turn (pos 1) ∷ pinned_turn ∷ [] } ∷ []
