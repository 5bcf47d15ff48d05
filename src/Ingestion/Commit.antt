-- ===== src/Ingestion/Commit.antt =====
-- ingest.py, `_embed` and `commit`: a prepared version is embedded, staged and served.
use cogno_engram.Prelude.{
  ℕ, zero, suc, ◌+◌, Bool, true, false, not, ◌&&◌, Option, none, some, List, [], ◌∷◌, if◌then◌else◌,
  length, ◌==◌, take, drop,
}
use cogno_engram.Text.{Str, codes, str_eq}
use cogno_engram.Folding.{Unicode}
use cogno_engram.Errors.{Result, ok, raise, ◌>>◌, bad_model, cancelled_error}
use cogno_engram.Types.{Date, Vector}
use cogno_engram.Store.State.{date_or}
use cogno_engram.Documents.Rules.{
  require_owner, require_model, same_state, kb_ready, kb_awaiting_confirmation, claim_ok,
  claim_expired, claim_missing, CommitOutcome, commit_ready, commit_deleted, commit_superseded,
}
use cogno_engram.Documents.State.{Documents, KbChunk, KbVersion, KbDocument}
use cogno_engram.Documents.Manage.{get_document}
use cogno_engram.Documents.Ingest.{get_version, add_chunks, commit_version}
use cogno_engram.Documents.Drafts.{KbDraft, claim_draft}
use cogno_engram.Ingestion.Outcome.{
  IngestStatus, ingest_ready, ingest_unchanged, ingest_deleted, ingest_superseded,
  ingest_not_prepared, ingest_expired, Usage, no_usage, with_usage, Ended, returned, raised,
  raised_outside, outcome, tokens_of, Reply, replied, threw, interrupted,
}
use cogno_engram.Ingestion.Failing.{attempt, gone, fail, fail_internally}

abbrev pub reason_gate_refused : Str
reason_gate_refused = codes "gate_refused"

abbrev pub reason_embed_failed : Str
reason_embed_failed = codes "embed_failed"

-- The host's own code. The embedder answers a vector, its tokens, and whether it counts them; the
-- number of the call comes first, for the embedder and for the pace.
pub record Host : Type 0 where
  pub embed : ℕ → Str → Reply (Vector × ℕ × Bool)
  pub gate : Option (ℕ → Reply Bool)
  pub paces : ℕ → ℕ → Reply (Unit {0})

pub data Approval : Type 0 where
  approved refused gate_cancelled : Approval

-- A gate that raises did not approve.
abbrev pub approval_of : Reply Bool → Approval
approval_of (replied true) = approved
approval_of (replied false) = refused
approval_of threw = refused
approval_of interrupted = gate_cancelled

abbrev pub approves : Host → ℕ → Approval
approves host estimated = elim host.gate [
  | none ↦ approved
  | some ask ↦ approval_of (ask estimated)
]

-- What becomes of the chunks of a draft.
pub data Embedding : Type 0 where
  embedded : List KbChunk → Usage → Embedding
  embed_failed : Usage → Embedding
  pace_raised : Embedding
  embedding_cancelled : Embedding

abbrev pub counted : Usage → ℕ → Bool → Usage
counted u used has_usage = record u {
  embedding_calls = u.embedding_calls + 1;
  embedding_tokens = u.embedding_tokens + used;
  usage_reported = u.usage_reported && has_usage;
}

abbrev pub onto_embedded : KbChunk → Embedding → Embedding
onto_embedded c (embedded cs u) = embedded (c ∷ cs) u
onto_embedded c other = other

unfoldable pub embed_chunks : Host → ℕ → List KbChunk → Usage → Embedding
embed_chunks host dim [] u = embedded [] u
embed_chunks host dim (c ∷ cs) u = elim (host.paces u.embedding_calls (tokens_of c.content)) [
  | threw ↦ pace_raised
  | interrupted ↦ embedding_cancelled
  | replied _ ↦ elim (host.embed u.embedding_calls c.content) [
    | threw ↦ embed_failed (record u { embedding_calls = u.embedding_calls + 1 })
    | interrupted ↦ embedding_cancelled
    | replied answer ↦
        let v = counted u answer.1 answer.2 in
        elim (length answer.0 == dim) [
          | false ↦ embed_failed v
          | true ↦
              onto_embedded (record c { embedding = some answer.0 }) (embed_chunks host dim cs v)
        ]
  ]
]

abbrev pub stage_batch : ℕ
stage_batch = 200

-- The loop over the batches, on fuel: the store that is left, and whether all of them were staged.
unfoldable pub stage_batches :
    ℕ → Str → Str → ℕ → List KbChunk → Documents → Documents × Result Bool
unfolding add_chunks
stage_batches zero owner_key document_id number cs st = (st, ok true)
stage_batches (suc fuel) owner_key document_id number [] st = (st, ok true)
stage_batches (suc fuel) owner_key document_id number (c ∷ cs) st =
    let (left, answer) = add_chunks owner_key document_id number (take stage_batch (c ∷ cs)) st in
    elim answer [
      | raise e ↦ (left, raise e)
      | ok added ↦ elim added [
        | false ↦ (left, ok false)
        | true ↦ stage_batches fuel owner_key document_id number (drop stage_batch (c ∷ cs)) left
      ]
    ]

abbrev pub ingest_status : CommitOutcome → IngestStatus
ingest_status commit_ready = ingest_ready
ingest_status commit_deleted = ingest_deleted
ingest_status commit_superseded = ingest_superseded

abbrev pub is_ready_status : IngestStatus → Bool
is_ready_status ingest_ready = true
is_ready_status _ = false

abbrev pub done : Str → ℕ → Usage → IngestStatus → ℕ → Ended
done document_id number u status chunks =
    returned (with_usage u (record (outcome status document_id (some number)) { chunks = chunks }))

abbrev pub is_served : KbDocument → ℕ → Bool
is_served doc number = elim doc.active [ none ↦ false | some v ↦ v.row.version == number ]

module _ (uni : Unicode) (clock : Date) where
  -- What follows the staging, by how it went.
  unfoldable pub serve_staged :
      Str → Str → ℕ → List KbChunk → Usage → Documents → Result Bool → Documents × Ended
  unfolding commit_version gone
  serve_staged owner_key document_id number cs u st (raise e) = (st, raised e)
  serve_staged owner_key document_id number cs u st (ok false) = (
    st,
    done document_id number u
        (if gone owner_key document_id st then ingest_deleted else ingest_superseded) 0,
  )
  serve_staged owner_key document_id number cs u st (ok true) =
      attempt (commit_version clock owner_key document_id number u.pages st) st λ end.
        let status = ingest_status end.1 in
        (end.0, done document_id number u status (if is_ready_status status then length cs else 0))

  unfoldable pub serve : Str → Str → ℕ → List KbChunk → Usage → Documents → Documents × Ended
  unfolding stage_batches serve_staged
  serve owner_key document_id number cs u st =
      let (left, answer) = stage_batches (length cs) owner_key document_id number cs st in
      serve_staged owner_key document_id number cs u left answer

  -- What follows the loop over the chunks.
  unfoldable pub conclude : Str → Str → ℕ → Embedding → Documents → Documents × Ended
  unfolding serve fail fail_internally
  conclude owner_key document_id number pace_raised st =
      fail_internally uni clock owner_key document_id number raised_outside st
  conclude owner_key document_id number embedding_cancelled st = (st, raised cancelled_error)
  conclude owner_key document_id number (embed_failed u) st =
      fail uni clock owner_key document_id number reason_embed_failed u st
  conclude owner_key document_id number (embedded cs u) st =
      serve owner_key document_id number cs u st

  -- From the claim on. `meanwhile` is what others do to the store while the gate, the pace and the
  -- embedder are waited for.
  unfoldable pub commit_claimed :
      (Documents → Documents) → Host → Str → Str → ℕ → KbDraft → Documents → Documents × Ended
  unfolding embed_chunks conclude fail
  commit_claimed meanwhile host owner_key document_id number draft st =
      let u = no_usage draft.pages draft.estimated_tokens in
      elim (approves host draft.estimated_tokens) [
        | refused ↦ fail uni clock owner_key document_id number reason_gate_refused u (meanwhile st)
        | gate_cancelled ↦ (meanwhile st, raised cancelled_error)
        | approved ↦
            conclude owner_key document_id number
              (embed_chunks host st.embedding_dim draft.chunks u) (meanwhile st)
      ]

  -- The claim, and what it answers.
  unfoldable pub commit_awaiting :
      (Documents → Documents)
      → Host
      → Date
      → Str
      → Str
      → KbVersion
      → ℕ
      → Documents
      → Documents × Ended
  unfolding claim_draft commit_claimed
  commit_awaiting meanwhile host moment owner_key document_id found number st =
      attempt (claim_draft owner_key document_id number moment st) st λ claim. elim claim.1 [
        | claim_expired ↦ (
          claim.0,
          returned (record (outcome ingest_expired document_id (some number)) {
            estimated_tokens = found.row.estimated_tokens;
            expires_at = found.row.expires_at;
          }),
        )
        | claim_missing ↦
            (claim.0, returned (outcome ingest_not_prepared document_id (some number)))
        | claim_ok ↦ elim claim.2 [
          | none ↦ (claim.0, returned (outcome ingest_not_prepared document_id (some number)))
          | some draft ↦ commit_claimed meanwhile host owner_key document_id number draft claim.0
        ]
      ]

  -- A version that is there.
  unfoldable pub commit_prepared :
      (Documents → Documents)
      → Host
      → Str
      → Str
      → ℕ
      → Str
      → Option Date
      → KbDocument
      → KbVersion
      → Documents
      → Documents × Ended
  unfolding commit_awaiting
  commit_prepared meanwhile host owner_key document_id number embed_model now doc found st =
      if not (str_eq found.row.embed_model embed_model)
      then (st, raised bad_model)
      else (if same_state found.row.state kb_ready && is_served doc number
          then (
            st,
            returned (record (outcome ingest_unchanged document_id (some number)) {
              chunks = found.row.chunks;
              pages = found.row.pages;
              estimated_tokens = found.row.estimated_tokens;
            }),
          )
          else (if not (same_state found.row.state kb_awaiting_confirmation)
              then (st, returned (outcome ingest_not_prepared document_id (some number)))
              else commit_awaiting meanwhile host (date_or clock now) owner_key document_id found
                  number st))

  -- The version as it was read, if it was found.
  unfoldable pub commit_read :
      (Documents → Documents)
      → Host
      → Str
      → Str
      → ℕ
      → Str
      → Option Date
      → Documents
      → KbDocument
      → Option KbVersion
      → Documents × Ended
  unfolding commit_prepared
  commit_read meanwhile host owner_key document_id number embed_model now st doc none =
      (st, returned (outcome ingest_not_prepared document_id (some number)))
  commit_read meanwhile host owner_key document_id number embed_model now st doc (some found) =
      commit_prepared meanwhile host owner_key document_id number embed_model now doc found st

  -- The document as it was read, if it was found.
  unfoldable pub commit_document :
      (Documents → Documents)
      → Host
      → Str
      → Str
      → ℕ
      → Str
      → Option Date
      → Documents
      → Option KbDocument
      → Documents × Ended
  unfolding get_version commit_read
  commit_document meanwhile host owner_key document_id number embed_model now st none =
      (st, returned (outcome ingest_deleted document_id (some number)))
  commit_document meanwhile host owner_key document_id number embed_model now st (some doc) =
      attempt (get_version owner_key document_id number st) st
        (commit_read meanwhile host owner_key document_id number embed_model now st doc)

  unfoldable pub commit :
      (Documents → Documents)
      → Host
      → Str
      → Str
      → ℕ
      → Str
      → Option Date
      → Documents
      → Documents × Ended
  unfolding require_owner require_model get_document commit_document
  commit meanwhile host owner_key document_id number embed_model now st =
      attempt (require_owner owner_key >> require_model embed_model st.embedding_dim) st λ _.
        attempt (get_document owner_key document_id st) st
          (commit_document meanwhile host owner_key document_id number embed_model now st)
