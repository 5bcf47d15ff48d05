-- ===== src/Tests/DocumentSamples.antt =====
-- A document with a served version, and one that is processed.
use cogno_engram.Prelude.{ℕ, ◌≡◌, refl, none, some, List, [], ◌∷◌}
use cogno_engram.Text.{Str, codes, str_eq, strip, is_blank}
use cogno_engram.Errors.{ok}
use cogno_engram.Documents.Rules.{
  KbState, kb_ready, kb_processing, media_markdown, require_owner, TextWindow,
}
use cogno_engram.Prelude.Int.{negsuc}
use cogno_engram.Documents.State.{DocRow, VersionRow, KbChunk, Documents, empty_documents}
use cogno_engram.Documents.Removal.Complete.{Attached}

abbrev pub owner : Str
owner = codes "t1/p"

abbrev pub doc_id : Str
doc_id = codes "d1"

abbrev pub manual : DocRow
manual = record {
  owner_key = owner;
  id = doc_id;
  title = codes "Manual";
  profiles = codes "reader" ∷ [];
  media_type = media_markdown;
  active_version = some 1;
  created_at = some 1;
  updated_at = some 1;
}

abbrev pub version_row : ℕ → KbState → VersionRow
version_row n state = record {
  document_id = doc_id;
  version = n;
  state = state;
  sha256 = codes "ab";
  embed_model = codes "m@1";
  reason = [];
  size_bytes = 3;
  pages = 0;
  chunks = 0;
  created_at = some 1;
  finished_at = none;
  estimated_tokens = 0;
  expires_at = none;
  claimed_at = some 1;
}

abbrev pub chunk : ℕ → Str → KbChunk
chunk n content = record {
  ordinal = n;
  content = content;
  heading_path = [];
  page = none;
  embedding = none;
}

abbrev pub three_chunks : List KbChunk
three_chunks = chunk 2 (codes "c") ∷ chunk 0 (codes "a") ∷ chunk 1 (codes "b") ∷ []

-- Version 1 is served, version 2 is processed.
abbrev pub library : Documents
library = record (empty_documents 1 100) {
  docs = manual ∷ [];
  versions = version_row 1 kb_ready ∷ version_row 2 kb_processing ∷ [];
  chunks =
      record { document_id = doc_id; version = 1; rows = three_chunks }
      ∷ record { document_id = doc_id; version = 2; rows = chunk 0 (codes "new") ∷ [] }
      ∷ [];
  originals =
      record { document_id = doc_id; version = 1; owner_key = owner; bytes = 1 ∷ 2 ∷ [] } ∷ [];
}

abbrev pub whole_window : TextWindow
whole_window = record { start = negsuc 0; size = 2 }

pub owner_allowed : require_owner owner ≡ ok tt
unfolding require_owner strip is_blank
owner_allowed = refl

pub library-Attached : Attached library
unfolding str_eq
library-Attached = record {
  of_chunks = (refl, (refl, tt));
  of_originals = (refl, tt);
  of_drafts = tt;
  of_owners = (refl, tt);
}
