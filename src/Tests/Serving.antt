-- ===== src/Tests/Serving.antt =====
-- The theorems of Ingestion at sample data.
use cogno_engram.Prelude.{
  map, ◌≡◌, ◌≤◌, ◌+◌, ◌-◌, ◌*◌, refl, true, none, some, List, [], ◌∷◌, arith, find?,
}
use cogno_engram.Prelude.Int.{pos}
use cogno_engram.Text.{codes, str_eq, is_space}
use cogno_engram.Errors.{ok}
use cogno_engram.Documents.Rules.{
  kb_ready, kb_awaiting_confirmation, require_model, model_dimensions, split_last_at,
}
use cogno_engram.Documents.State.{
  Documents, VersionRow, DraftRow, owned, version_at, versions_of, is_draft, KbChunk, chunks_at,
}
use cogno_engram.Documents.Ingest.{is_newest, put_chunks}
use cogno_engram.Documents.Drafts.{without_vector}
use cogno_engram.Ingestion.Outcome.{IngestOutcome, ingest_ready, returned}
use cogno_engram.Ingestion.Commit.{Host, commit}
use cogno_engram.Ingestion.Prepare.{Upload}
use cogno_engram.Ingestion.Outcome.{replied}
use cogno_engram.Documents.Drafts.{KbDraft}
use cogno_engram.Ingestion.Pace.{parts, Call, full_bucket, pace_all, refill, pace}
use cogno_engram.Ingestion.Pace.Rate.{AllInTime, passed, oversize, pace_all-le}
use cogno_engram.Ingestion.Serving.{commit-serves}
use cogno_engram.Ingestion.Staged.{AreEmbedded, Embeds}
use cogno_engram.Tests.Samples.{plain}
use cogno_engram.Tests.Passages.{small}
use cogno_engram.Tests.DocumentSamples.{
  owner, doc_id, manual, version_row, three_chunks, library, owner_allowed,
}

-- Version 2 is a draft that can be confirmed until 20.
abbrev parked : VersionRow
parked = record (version_row 2 kb_awaiting_confirmation) { expires_at = some 20 }

abbrev parked_draft : DraftRow
parked_draft = record { document_id = doc_id; version = 2; chunks = three_chunks; created_at = 5 }

abbrev parked_library : Documents
parked_library = record library {
  versions = version_row 1 kb_ready ∷ parked ∷ [];
  drafts = parked_draft ∷ [];
}

-- An embedder of the width 1, with no gate and no pace.
abbrev host : Host
host = record {
  embed = λ k text. replied (pos 7 ∷ [], 2, true);
  gate = none;
  paces = λ k tokens. replied tt;
}

host-Embeds : Embeds host 1
host-Embeds k text = (refl, (pos 7 ∷ [], 2, true), refl, refl)

model_fits : require_model (codes "m@1") 1 ≡ ok tt
unfolding require_model model_dimensions split_last_at is_space
model_fits = refl

parked_owned : owned owner doc_id parked_library ≡ some manual
unfolding owned str_eq
parked_owned = refl

parked_there : version_at doc_id 2 parked_library ≡ some parked
unfolding version_at str_eq
parked_there = refl

parked_model : str_eq parked.embed_model (codes "m@1") ≡ true
unfolding str_eq
parked_model = refl

parked_found : find? (is_draft doc_id 2) parked_library.drafts ≡ some parked_draft
unfolding str_eq
parked_found = refl

parked_newest : is_newest doc_id parked parked_library ≡ true
unfolding versions_of str_eq
parked_newest = refl

commit-serves_example :
    (st' : Documents) × (o : IngestOutcome) × (commit plain 9
        (λ s. s)
        host
        owner
        doc_id
        2
        (codes "m@1")
        none
        parked_library
      ≡ (st', returned o))
    × (o.status ≡ ingest_ready)
    × (o.chunks ≡ 3)
    × (o.embedding_calls ≡ 3)
    × (owned owner doc_id st'
        ≡ some (record manual { active_version = some 2; updated_at = some 9 }))
    × (w : VersionRow) × (version_at doc_id 2 st' ≡ some w)
    × (w.state ≡ kb_ready)
    × (es : List KbChunk) × AreEmbedded host 1 0 three_chunks es
    × (map without_vector es ≡ map without_vector three_chunks)
    × (chunks_at doc_id 2 st' ≡ put_chunks es (chunks_at doc_id 2 parked_library))
commit-serves_example =
    commit-serves plain 9 (λ s. s) host owner doc_id 2 (codes "m@1") none parked_library manual
      parked parked_draft 20 owner_allowed model_fits parked_owned parked_there parked_model refl
      parked_found refl refl parked_newest refl host-Embeds (λ s. refl)

-- A Markdown text that fits in one chunk.
abbrev upload : Upload
upload = record {
  bytes = codes "open";
  embed_model = codes "m@1";
  extractor = none;
  limits = record { max_bytes = 100; max_pages = 5 };
  chunking = small;
  keep_bytes = true;
  ttl = 50;
}

-- What a claim of the draft hands over.
abbrev drafted : KbDraft
drafted = record {
  document_id = doc_id;
  version = 2;
  embed_model = codes "m@1";
  chunk_count = 3;
  pages = 0;
  estimated_tokens = 3;
  expires_at = 20;
  chunks = three_chunks;
  created_at = 5;
}

-- The second call has to wait for its token.
abbrev two_calls : List Call
two_calls =
    record { now = 0; woke = 0; tokens = 2 }
    ∷ record { now = 1000000; woke = 30000000; tokens = 1 }
    ∷ []

calls_in_time : AllInTime two_calls (full_bucket 2 0)
unfolding pace refill
calls_in_time =
    ((omega arith, omega arith, omega arith), ((omega arith, omega arith, omega arith), tt))

pace_all-le_example :
    (passed two_calls + (pace_all two_calls (full_bucket 2 0)).available
      ≤ 2 * parts
        + ((pace_all two_calls (full_bucket 2 0)).filled_at - 0) * 2
        + oversize 2 two_calls)
    × (0 ≤ (pace_all two_calls (full_bucket 2 0)).filled_at)
    × ((pace_all two_calls (full_bucket 2 0)).available ≤ 2 * parts)
    × ((pace_all two_calls (full_bucket 2 0)).limit ≡ 2)
pace_all-le_example = pace_all-le two_calls (full_bucket 2 0) calls_in_time (omega arith)
