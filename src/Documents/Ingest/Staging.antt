-- ===== src/Documents/Ingest/Staging.antt =====
-- in_memory.py: `add_chunks`.
use cogno_engram.Prelude.{
  ◌++◌, ℕ, ◌≡◌, refl, ◌∙◌, ◌⊎◌, sym, Bool, true, false, not, none, some, List, [], ◌∷◌, arith, any,
  find?, ◌==◌, Bool-cases, Option-cases, inl, inr, All, All-append, All-not_any, All-update_first,
  Pairwise-snoc, Pairwise-update_first, find?-update_first, find?-snoc, not_none, some_same, subst,
}
use cogno_engram.Text.{Str, str_eq_self}
use cogno_engram.Errors.{ok, raise, bad_vector}
use cogno_engram.Documents.Rules.{require_owner, same_state, kb_processing}
use cogno_engram.Documents.State.{
  VersionRow, KbChunk, ChunkEntry, Documents, is_entry, owned_version, chunks_at,
}
use cogno_engram.Documents.Reading.Paging.{Distinct}
use cogno_engram.Documents.Ingest.{put_chunk, put_chunks, stage, add_chunks, is_vector}

-- Each entry of the chunks has one chunk for each ordinal.
abbrev pub ChunksDistinct : List ChunkEntry → Type 0
ChunksDistinct = All (λ e. Distinct e.rows)

put_chunk-Distinct :
    (c : KbChunk) (rows : List KbChunk) → Distinct rows → Distinct (put_chunk c rows)
unfolding put_chunk
put_chunk-Distinct c rows d = elim (Bool-cases (any (λ r. r.ordinal == c.ordinal) rows)) [
  | inl e ↦ rw e (
      Pairwise-update_first (λ a b. (a.ordinal == b.ordinal) ≡ false) (λ r. r.ordinal == c.ordinal)
        (λ _. c) rows (λ x y same h. ground (arith, same, h))
        (λ x y same h. ground (arith, same, h)) d)
  | inr e ↦ rw e (
      Pairwise-snoc (λ a b. (a.ordinal == b.ordinal) ≡ false) rows c d
        (All-not_any (λ r. r.ordinal == c.ordinal) rows e))
]

put_chunks-Distinct : (cs rows : List KbChunk) → Distinct rows → Distinct (put_chunks cs rows)
unfolding put_chunks
put_chunks-Distinct [] rows d = d
put_chunks-Distinct (c ∷ cs) rows d =
    put_chunks-Distinct cs (put_chunk c rows) (put_chunk-Distinct c rows d)

stage-ChunksDistinct :
    (document_id : Str) (n : ℕ) (cs : List KbChunk) (st : Documents)
    → ChunksDistinct st.chunks
    → ChunksDistinct (stage document_id n cs st).chunks
unfolding stage
stage-ChunksDistinct document_id n cs st d =
    elim (Bool-cases (any (is_entry document_id n) st.chunks)) [
      | inl e ↦ rw e (
          All-update_first (λ e. Distinct e.rows) (is_entry document_id n)
            (λ e. record e { rows = put_chunks cs e.rows }) st.chunks
            (λ x _ h. put_chunks-Distinct cs x.rows h) d)
      | inr e ↦
          rw e (All-append (λ e. Distinct e.rows) st.chunks _ d (put_chunks-Distinct cs [] tt, tt))
    ]

pub chunks_at-stage :
    (document_id : Str) (n : ℕ) (cs : List KbChunk) (st : Documents)
    → chunks_at document_id n (stage document_id n cs st)
      ≡ put_chunks cs (chunks_at document_id n st)
unfolding stage chunks_at
chunks_at-stage document_id n cs st = elim (Bool-cases (any (is_entry document_id n) st.chunks)) [
  | inl e ↦
      let (x, before, after) =
        find?-update_first (is_entry document_id n) (λ e. record e { rows = put_chunks cs e.rows })
          st.chunks (λ x. refl) e in
      rw (e, chunks_at, after, before)
  | inr e ↦ rw (
    e,
    chunks_at,
    find?-snoc (is_entry document_id n) st.chunks
        (record { document_id = document_id; version = n; rows = put_chunks cs [] }) e
        (ground (arith, str_eq_self document_id)),
    find?-none (is_entry document_id n) st.chunks e,
  )
]
  where
    find?-none :
        (p : ChunkEntry → Bool) (xs : List ChunkEntry) → any p xs ≡ false → find? p xs ≡ none
    find?-none p [] h = refl
    find?-none p (x ∷ xs) h = ground (arith, find?-none p xs)

stage-docs :
    (document_id : Str) (n : ℕ) (cs : List KbChunk) (st : Documents)
    → (stage document_id n cs st).docs ≡ st.docs
unfolding stage
stage-docs document_id n cs st = refl

stage-versions :
    (document_id : Str) (n : ℕ) (cs : List KbChunk) (st : Documents)
    → (stage document_id n cs st).versions ≡ st.versions
unfolding stage
stage-versions document_id n cs st = refl

pub put_chunks-append :
    (cs ds rows : List KbChunk) → put_chunks (cs ++ ds) rows ≡ put_chunks ds (put_chunks cs rows)
unfolding put_chunks
put_chunks-append [] ds rows = refl
put_chunks-append (c ∷ cs) ds rows = put_chunks-append cs ds (put_chunk c rows)

-- Adding chunks, by the owner: where the version is not there or not processed, the store stays and
-- the answer is false; where a chunk has no vector of the width of the store, the call is refused and
-- leaves the store as it was; and else the answer is true, the chunks are put under their ordinals,
-- the later one of two with the same ordinal in place of the earlier, every entry still has one chunk
-- for each ordinal, and documents and versions stay.
pub add_chunks-ChunksDistinct :
    (owner document_id : Str) (n : ℕ) (cs : List KbChunk) (st : Documents)
    → require_owner owner ≡ ok tt
    → ChunksDistinct st.chunks
    → ((add_chunks owner document_id n cs st ≡ (st, ok false))
        × ((v : VersionRow)
            → owned_version owner document_id n st ≡ some v
            → same_state v.state kb_processing ≡ false))
      ⊎ ((v : VersionRow) × (owned_version owner document_id n st ≡ some v)
          × (same_state v.state kb_processing ≡ true)
          × (((any (λ c. not (is_vector st.embedding_dim c.embedding)) cs ≡ true)
                × (add_chunks owner document_id n cs st ≡ (st, raise bad_vector)))
              ⊎ ((st' : Documents) × (add_chunks owner document_id n cs st ≡ (st', ok true))
                  × (any (λ c. not (is_vector st.embedding_dim c.embedding)) cs ≡ false)
                  × (chunks_at v.document_id v.version st'
                      ≡ put_chunks cs (chunks_at v.document_id v.version st))
                  × ChunksDistinct st'.chunks
                  × (st'.docs ≡ st.docs)
                  × (st'.versions ≡ st.versions))))
unfolding add_chunks
add_chunks-ChunksDistinct owner document_id n cs st allowed d =
    elim (Option-cases (owned_version owner document_id n st)) [
      | inl missing ↦
          inl (rw (add_chunks, allowed, missing), λ v e. absurd (not_none (sym missing ∙ e)))
      | inr (v, found) ↦ elim (Bool-cases (same_state v.state kb_processing)) [
        | inr other ↦ inl (
          rw (add_chunks, allowed, found, other),
          λ w e.
              subst (λ x. same_state x.state kb_processing ≡ false) (some_same (sym found ∙ e))
                other,
        )
        | inl processing ↦
            elim (Bool-cases (any (λ c. not (is_vector st.embedding_dim c.embedding)) cs)) [
              | inl bad ↦ inr (
                v,
                found,
                processing,
                inl (bad, rw (add_chunks, allowed, found, processing, bad)),
              )
              | inr good ↦ inr (
                v,
                found,
                processing,
                inr (
                  stage v.document_id v.version cs st,
                  rw (add_chunks, allowed, found, processing, good),
                  good,
                  chunks_at-stage v.document_id v.version cs st,
                  stage-ChunksDistinct v.document_id v.version cs st d,
                  stage-docs v.document_id v.version cs st,
                  stage-versions v.document_id v.version cs st,
                ),
              )
            ]
      ]
    ]
