-- ===== src/Store/Turns/Numbering.antt =====
-- in_memory.py: `save_turn`, and the coordinates of turns.
use cogno_engram.Prelude.{
  ℕ, ◌+◌, ◌≡◌, refl, ◌⊎◌, sym, Bool, true, false, ◌&&◌, Option, some, List, [], ◌∷◌, ◌++◌, arith,
  filter, any, All, All-append, All-map, All-filter, All-not_any, All-of_filter, Pairwise,
  Pairwise-snoc, Bool-cases, inl, inr,
}
use cogno_engram.Prelude.Int.{ℤ, pos, negsuc, ◌+ℤ◌, ◌≤ℤ◌}
use cogno_engram.Text.{Str, str_eq_comm}
use cogno_engram.Errors.{ok}
use cogno_engram.Types.{Date, TurnRecord}
use cogno_engram.WriteLoss.{count_of, turn_discarded, record_loss}
use cogno_engram.WriteLoss.Counting.{count_of-bump_self}
use cogno_engram.Graph.State.{require_scope}
use cogno_engram.Store.State.{Store, eq_ℤ, leb_ℤ, date_or}
use cogno_engram.Store.Turns.{in_session, at_turn, max_turn, append_turn, discard_turn, save_turn}

-- Every stored turn has a number that is not negative, and no two share a coordinate.
abbrev pub Apart : TurnRecord → TurnRecord → Type 0
Apart a b = at_turn a.scope a.session_id a.turn_n b ≡ false

pub record TurnsValid (turns : List TurnRecord) : Type 0 where
  pub numbered : All (λ t. pos 0 ≤ℤ t.turn_n) turns
  pub apart : Pairwise Apart turns

max_turn-ge : (ts : List TurnRecord) → All (λ t. t.turn_n ≤ℤ max_turn ts) ts
unfolding max_turn
max_turn-ge [] = tt
max_turn-ge (t ∷ []) = (omega arith, tt)
max_turn-ge (t ∷ u ∷ ts) = (
  ground arith,
  All-map (λ v. v.turn_n ≤ℤ max_turn (u ∷ ts)) _ (u ∷ ts) (λ v h. ground arith)
      (max_turn-ge (u ∷ ts)),
)

max_turn-nonneg : (ts : List TurnRecord) → All (λ t. pos 0 ≤ℤ t.turn_n) ts → pos 0 ≤ℤ max_turn ts
unfolding max_turn
max_turn-nonneg [] h = omega arith
max_turn-nonneg (t ∷ []) h = h.0
max_turn-nonneg (t ∷ u ∷ ts) h = ground (arith, h.0, max_turn-nonneg (u ∷ ts) h.1)

-- What the coordinate of a new turn has to be: not negative, and not taken.
abbrev pub IsFree : TurnRecord → ℤ → List TurnRecord → Type 0
IsFree turn n turns = (pos 0 ≤ℤ n) × All (λ t. at_turn turn.scope turn.session_id n t ≡ false) turns

next-nonneg : (a : ℤ) → pos 0 ≤ℤ a → pos 0 ≤ℤ a +ℤ pos 1
unfolding ◌+ℤ◌
next-nonneg (pos a) h = ground arith
next-nonneg (negsuc a) h = absurd (ground arith)

below-next : (t a : ℤ) → pos 0 ≤ℤ a → t ≤ℤ a → eq_ℤ t (a +ℤ pos 1) ≡ false
unfolding ◌+ℤ◌
below-next t (pos a) h k = ground arith
below-next t (negsuc a) h k = absurd (ground arith)

allocated-IsFree :
    (turn : TurnRecord) (turns : List TurnRecord)
    → All (λ t. pos 0 ≤ℤ t.turn_n) turns
    → IsFree turn (max_turn (filter (in_session turn.scope turn.session_id) turns) +ℤ pos 1) turns
unfolding at_turn
allocated-IsFree turn turns h =
    let mine = filter (in_session turn.scope turn.session_id) turns in
    let nonneg =
      max_turn-nonneg mine
        (All-filter (λ t. pos 0 ≤ℤ t.turn_n) (in_session turn.scope turn.session_id) turns h) in
    (
      next-nonneg (max_turn mine) nonneg,
      All-map (λ t. in_session turn.scope turn.session_id t ≡ true → t.turn_n ≤ℤ max_turn mine) _
          turns
          (λ t k. elim (Bool-cases (in_session turn.scope turn.session_id t)) [
            | inl e ↦ ground (arith, below-next t.turn_n (max_turn mine) nonneg (k e), e)
            | inr e ↦ ground (arith, e)
          ])
          (All-of_filter (λ t. t.turn_n ≤ℤ max_turn mine) (in_session turn.scope turn.session_id)
            turns (max_turn-ge mine)),
    )

pinned-IsFree :
    (turn : TurnRecord) (turns : List TurnRecord)
    → leb_ℤ (pos 0) turn.turn_n ≡ true
    → any (λ t. eq_ℤ t.turn_n turn.turn_n) (filter (in_session turn.scope turn.session_id) turns)
      ≡ false
    → IsFree turn turn.turn_n turns
unfolding at_turn
pinned-IsFree turn turns h k = (
  ground arith,
  All-map (λ t. in_session turn.scope turn.session_id t ≡ true → eq_ℤ t.turn_n turn.turn_n ≡ false)
      _ turns
      (λ t f. elim (Bool-cases (in_session turn.scope turn.session_id t)) [
        | inl e ↦ ground (arith, f e, e)
        | inr e ↦ ground (arith, e)
      ])
      (All-of_filter (λ t. eq_ℤ t.turn_n turn.turn_n ≡ false)
        (in_session turn.scope turn.session_id) turns
        (All-not_any _ (filter (in_session turn.scope turn.session_id) turns) k)),
)

at_turn-sym :
    (turn : TurnRecord) (n : ℤ) (t : TurnRecord) (m : Option ℕ)
    → at_turn turn.scope turn.session_id n t ≡ false
    → Apart t (record turn { turn_n = n; created_at = m })
unfolding at_turn in_session
at_turn-sym turn n t m h =
    rw (str_eq_comm turn.scope t.scope, str_eq_comm turn.session_id t.session_id)
      (ground (arith, h))

append_turn-TurnsValid :
    (digest : Str → Str) (now : Date) (turn : TurnRecord) (n : ℤ) (st : Store)
    → IsFree turn n st.turns
    → TurnsValid st.turns
    → TurnsValid (append_turn digest now turn n st).turns
unfolding append_turn
append_turn-TurnsValid digest now turn n st free v = record {
  numbered = All-append (λ t. pos 0 ≤ℤ t.turn_n) st.turns _ v.numbered (free.0, tt);
  apart =
      Pairwise-snoc Apart st.turns _ v.apart
        (All-map _ _ st.turns (λ t h. at_turn-sym turn n t _ h) free.1);
}

any-filter {ℓ} :
    {A : Type ℓ} (p q : A → Bool) (xs : List A) → any p (filter q xs) ≡ any (λ x. q x && p x) xs
any-filter p q [] = refl
any-filter p q (x ∷ xs) = ground (arith, any-filter p q xs)

taken_coordinate :
    (turn : TurnRecord) (turns : List TurnRecord)
    → any (λ t. eq_ℤ t.turn_n turn.turn_n) (filter (in_session turn.scope turn.session_id) turns)
      ≡ true
    → any (at_turn turn.scope turn.session_id turn.turn_n) turns ≡ true
unfolding at_turn
taken_coordinate turn turns h =
    rw
      (sym
        (any-filter (λ t. eq_ℤ t.turn_n turn.turn_n) (in_session turn.scope turn.session_id) turns))
      h

-- Saving a turn returns, and the stored turns keep numbers that are not negative and coordinates of
-- their own. Either the turn is stored at the end under the number that is returned, its own when that
-- is not negative, dated if it had no date, and no loss is counted; or its number is not negative and
-- its coordinate is taken: then the turns stay as they are, 0 is returned, and one more discarded turn
-- is counted.
pub save_turn-TurnsValid :
    (digest : Str → Str) (now : Date) (turn : TurnRecord) (st : Store)
    → require_scope turn.scope ≡ ok tt
    → TurnsValid st.turns
    → (st' : Store) × (n : ℤ) × (save_turn digest now turn st ≡ ok (st', n))
      × TurnsValid st'.turns
      × (((st'.turns
              ≡ st.turns
                ++ record turn { turn_n = n; created_at = some (date_or now turn.created_at) } ∷ [])
            × (st'.losses ≡ st.losses)
            × (leb_ℤ (pos 0) turn.turn_n ≡ true → n ≡ turn.turn_n))
          ⊎ ((leb_ℤ (pos 0) turn.turn_n ≡ true)
              × (any (at_turn turn.scope turn.session_id turn.turn_n) st.turns ≡ true)
              × (n ≡ pos 0)
              × (st'.turns ≡ st.turns)
              × (count_of turn_discarded st'.losses.counts
                  ≡ count_of turn_discarded st.losses.counts + 1)))
unfolding save_turn append_turn discard_turn record_loss
save_turn-TurnsValid digest now turn st allowed v =
    let mine = filter (in_session turn.scope turn.session_id) st.turns in
    elim (Bool-cases (leb_ℤ (pos 0) turn.turn_n)) [
      | inl pinned ↦ elim (Bool-cases (any (λ t. eq_ℤ t.turn_n turn.turn_n) mine)) [
        | inl taken ↦ (
          discard_turn digest turn st,
          pos 0,
          rw (allowed, pinned, taken),
          v,
          inr (
            pinned,
            taken_coordinate turn st.turns taken,
            refl,
            refl,
            count_of-bump_self turn_discarded st.losses.counts,
          ),
        )
        | inr vacant ↦ (
          append_turn digest now turn turn.turn_n st,
          turn.turn_n,
          rw (allowed, pinned, vacant),
          append_turn-TurnsValid digest now turn turn.turn_n st
              (pinned-IsFree turn st.turns pinned vacant) v,
          inl (refl, refl, λ _. refl),
        )
      ]
      | inr negative ↦ (
        append_turn digest now turn (max_turn mine +ℤ pos 1) st,
        max_turn mine +ℤ pos 1,
        rw (allowed, negative),
        append_turn-TurnsValid digest now turn (max_turn mine +ℤ pos 1) st
            (allocated-IsFree turn st.turns v.numbered) v,
        inl (refl, refl, λ e. absurd (cc)),
      )
    ]
