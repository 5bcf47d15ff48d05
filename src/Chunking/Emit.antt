-- ===== src/Chunking/Emit.antt =====
-- chunking.py: `_Emitter` and `_root`.
pub mod Limited
use cogno_engram.Prelude.{
  ℕ, ◌+◌, Option, none, some, List, [], ◌∷◌, ◌++◌, if◌then◌else◌, length, leb,
}
use cogno_engram.Text.{Str, is_empty, words}
use cogno_engram.Errors.{Result, ok, raise, extraction_error}
use cogno_engram.Documents.Rules.{reason_over_limit}
use cogno_engram.Documents.State.{KbChunk}
use cogno_engram.Chunking.Config.{ChunkingConfig}
use cogno_engram.Chunking.Passage.{join}
use cogno_engram.Chunking.Pack.{content_of}

-- The chunk of a body, with the next ordinal of the document.
unfoldable pub new_chunk : ChunkingConfig → ℕ → List Str → Option ℕ → Str → KbChunk
unfolding content_of
new_chunk config ordinal path page body = record {
  ordinal = ordinal;
  content = content_of path body config;
  heading_path = path;
  page = page;
  embedding = none;
}

-- `emit`, to the chunks of the emitter.
unfoldable pub emit :
    ChunkingConfig → List Str → List Str → Option ℕ → List KbChunk → Result (List KbChunk)
unfolding new_chunk
emit config path [] page chunks = ok chunks
emit config path (body ∷ bodies) page chunks =
    let more =
      emit config path bodies page
        (chunks ++ new_chunk config (length chunks) path page body ∷ []) in
    if leb config.max_chunks (length chunks)
    then raise (extraction_error reason_over_limit)
    else more

unfoldable pub root_of : Str → List Str
unfolding words join
root_of title = let t = join (32 ∷ []) (words title) in if is_empty t then [] else t ∷ []
