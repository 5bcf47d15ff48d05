-- ===== src/WriteLoss/Counting.antt =====
-- write_loss.py: `record`, and the counters of the closed vocabulary.
use cogno_engram.Prelude.{
  ap, none, some, ◌++◌, ℕ, ◌+◌, ◌≡◌, refl, true, Option, List, [], ◌∷◌, arith, if◌then◌else◌, map,
  any, All,
}
use cogno_engram.Prelude.Int.{ℤ}
use cogno_engram.Text.{Str, is_empty, str_eq, str_eq_iff, str_eq_self}
use cogno_engram.WriteLoss.{
  Losses, Notice, Fields, bump, count_of, record_loss, events, loss_fields, told,
}

pub count_of-bump :
    (event other : Str) (counts : List (Str × ℕ))
    → count_of other (bump event counts)
      ≡ (if str_eq event other then count_of other counts + 1 else count_of other counts)
unfolding count_of bump
count_of-bump event other [] = ground arith
count_of-bump event other ((k, n) ∷ counts) = ground (
  arith,
  count_of-bump event other counts,
  str_eq_iff k event,
  str_eq_iff k other,
  str_eq_iff event other,
)

pub count_of-bump_self :
    (event : Str) (counts : List (Str × ℕ))
    → count_of event (bump event counts) ≡ count_of event counts + 1
count_of-bump_self event counts =
    ground (arith, count_of-bump event event counts, str_eq_self event)

abbrev pub HasCounter : List (Str × ℕ) → Str → Type 0
HasCounter counts event = any (λ c. str_eq c.0 event) counts ≡ true

bump-HasCounter :
    (event other : Str) (counts : List (Str × ℕ))
    → HasCounter counts other
    → HasCounter (bump event counts) other
unfolding bump
bump-HasCounter event other [] h = absurd (cc)
bump-HasCounter event other ((k, n) ∷ counts) h = ground (arith, bump-HasCounter event other counts)

-- What is announced: the event and its fields, with the digest of the scope and never the scope.
abbrev pub Announces : (Str → Str) → Str → Str → Str → Option ℤ → List (Str × Str) → Notice → Type 0
Announces digest event scope session turn extra n =
    (n.event ≡ event)
    × (n.fields.scope_sha ≡ (if is_empty scope then none else some (digest scope)))
    × (n.fields.session ≡ (if is_empty session then none else some session))
    × (n.fields.turn ≡ turn)
    × (n.fields.extra ≡ extra)

map-told :
    (event : Str) (f : Fields) (os : List ℕ) → map (λ n. n.observer) (map (told event f) os) ≡ os
map-told event f [] = refl
map-told event f (o ∷ os) = ap (λ r. o ∷ r) (map-told event f os)

told-Announces :
    (digest : Str → Str) (event scope session : Str) (turn : Option ℤ) (extra : List (Str × Str))
    (os : List ℕ)
    → All
        (Announces digest event scope session turn extra)
        (map (told event (loss_fields digest scope session turn extra)) os)
unfolding loss_fields
told-Announces digest event scope session turn extra [] = tt
told-Announces digest event scope session turn extra (o ∷ os) =
    ((refl, refl, refl, refl, refl), told-Announces digest event scope session turn extra os)

-- A loss adds one to the counter of its event and nothing to any other, keeps every counter of the
-- closed vocabulary, and behind what was told before tells every observer once, in their order, the
-- event with its fields.
pub record_loss-counts :
    (digest : Str → Str) (event scope session : Str) (turn : Option ℤ) (extra : List (Str × Str))
    (s : Losses)
    → All (HasCounter s.counts) events
    → ((other : Str)
        → count_of other (record_loss digest event scope session turn extra s).counts
          ≡ (if str_eq event other then count_of other s.counts + 1 else count_of other s.counts))
      × All (HasCounter (record_loss digest event scope session turn extra s).counts) events
      × (new : List Notice) × ((record_loss digest event scope session turn extra s).notices
          ≡ s.notices ++ new)
      × (map (λ n. n.observer) new ≡ s.observers)
      × All (Announces digest event scope session turn extra) new
unfolding record_loss
record_loss-counts digest event scope session turn extra s h = (
  λ other. count_of-bump event other s.counts,
  (
    bump-HasCounter event _ s.counts h.0,
    (bump-HasCounter event _ s.counts h.1.0, (bump-HasCounter event _ s.counts h.1.1.0, tt)),
  ),
  map (told event (loss_fields digest scope session turn extra)) s.observers,
  refl,
  map-told event (loss_fields digest scope session turn extra) s.observers,
  told-Announces digest event scope session turn extra s.observers,
)
