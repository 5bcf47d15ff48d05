-- ===== src/Ingestion/Outcome.antt =====
-- ingest.py: the outcomes, `estimate_tokens` and `_outcome_of_failure`.
use cogno_engram.Prelude.{
  ◌≡◌, refl, ◌⊎◌, inl, inr, ℕ, ◌+◌, ◌/◌, Bool, true, Option, none, some, List, [], ◌∷◌, length,
}
use cogno_engram.Text.{Str}
use cogno_engram.Folding.{Unicode}
use cogno_engram.Errors.{Error}
use cogno_engram.Types.{Date}
use cogno_engram.Documents.Rules.{sanitize_reason}
use cogno_engram.Documents.State.{KbChunk}

pub data IngestStatus : Type 0 where
  ingest_ready ingest_unchanged ingest_error ingest_deleted ingest_superseded : IngestStatus
  ingest_no_original ingest_awaiting ingest_not_prepared ingest_expired : IngestStatus

pub record IngestOutcome : Type 0 where
  pub status : IngestStatus
  pub document_id : Str
  pub version : Option ℕ
  pub reason : Str
  pub chunks : ℕ
  pub pages : ℕ
  pub estimated_tokens : ℕ
  pub embedding_tokens : ℕ
  pub embedding_calls : ℕ
  pub usage_reported : Bool
  pub expires_at : Option Date

-- What a call of the host's own code comes to: it returns, it raises, or it is cancelled.
pub data Reply {ℓ} (A : Type ℓ) : Type ℓ where
  replied : A → Reply A
  threw : Reply A
  interrupted : Reply A

pub Reply-cases {ℓ} :
    {A : Type ℓ} (r : Reply A) → ((a : A) × (r ≡ replied a)) ⊎ ((r ≡ threw) ⊎ (r ≡ interrupted))
Reply-cases (replied a) = inl (a, refl)
Reply-cases threw = inr (inl refl)
Reply-cases interrupted = inr (inr refl)

-- How a call of this module ends: with an outcome, or with what it raises.
pub data Ended : Type 0 where
  returned : IngestOutcome → Ended
  raised : Error → Ended
  -- what an extractor, a pace or another call of the host's raised
  raised_outside : Ended

-- `IngestOutcome(status, document_id, version)`, with the defaults for the rest.
abbrev pub outcome : IngestStatus → Str → Option ℕ → IngestOutcome
outcome status document_id version = record {
  status = status;
  document_id = document_id;
  version = version;
  reason = [];
  chunks = 0;
  pages = 0;
  estimated_tokens = 0;
  embedding_tokens = 0;
  embedding_calls = 0;
  usage_reported = true;
  expires_at = none;
}

-- What the embedder was asked for, and what it reported.
pub record Usage : Type 0 where
  pub pages : ℕ
  pub estimated_tokens : ℕ
  pub embedding_tokens : ℕ
  pub embedding_calls : ℕ
  pub usage_reported : Bool

abbrev pub no_usage : ℕ → ℕ → Usage
no_usage pages estimated = record {
  pages = pages;
  estimated_tokens = estimated;
  embedding_tokens = 0;
  embedding_calls = 0;
  usage_reported = true;
}

abbrev pub with_usage : Usage → IngestOutcome → IngestOutcome
with_usage u o = record o {
  pages = u.pages;
  estimated_tokens = u.estimated_tokens;
  embedding_tokens = u.embedding_tokens;
  embedding_calls = u.embedding_calls;
  usage_reported = u.usage_reported;
}

abbrev pub chars_per_token : ℕ
chars_per_token = 4

-- `math.ceil(chars / CHARS_PER_TOKEN)`
abbrev pub tokens_of : Str → ℕ
tokens_of content = (length content + 3) / chars_per_token

unfoldable pub estimate_tokens : List KbChunk → ℕ
estimate_tokens [] = 0
estimate_tokens (c ∷ cs) = tokens_of c.content + estimate_tokens cs

module _ (uni : Unicode) where
  unfoldable pub outcome_of_failure : IngestStatus → Str → ℕ → Str → Usage → IngestOutcome
  unfolding sanitize_reason
  outcome_of_failure status document_id version reason usage =
      with_usage usage (record (outcome status document_id (some version)) {
        reason = elim status [ ingest_error ↦ sanitize_reason uni reason | _ ↦ [] ];
      })
