-- ===== src/Chunking/Config.antt =====
-- chunking.py: `ChunkingConfig` and its bounds. The share of the overlap is a float there; a
-- configuration is kept here with the number of characters that it comes to.
use cogno_engram.Prelude.{ℕ, ◌*◌, ◌≤◌, [], ◌∷◌}
use cogno_engram.Text.{Str}

-- `overlap_chars` is `int(target_chars * overlap)`.
pub record ChunkingConfig : Type 0 where
  pub target_chars : ℕ
  pub overlap_chars : ℕ
  pub max_chunks : ℕ
  pub path_separator : Str

-- What `__post_init__` lets through: an overlap below one half comes to at most half of the target.
abbrev pub IsValid : ChunkingConfig → Type 0
IsValid config =
    (50 ≤ config.target_chars)
    × (2 * config.overlap_chars ≤ config.target_chars)
    × (1 ≤ config.max_chunks)

abbrev pub default_chunking : ChunkingConfig
default_chunking = record {
  target_chars = 2000;
  overlap_chars = 300;
  max_chunks = 5000;
  path_separator = 32 ∷ 8250 ∷ 32 ∷ [];
}
