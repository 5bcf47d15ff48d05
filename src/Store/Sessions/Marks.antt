-- ===== src/Store/Sessions/Marks.antt =====
-- in_memory.py: the marks on turns, and the scan for idle sessions.
use cogno_engram.Prelude.{
  ℕ, ◌≡◌, refl, ◌∙◌, subst, Bool, true, false, ◌&&◌, List, [], ◌∷◌, map, arith, any-take,
  any-sort_by, any-map, any, filter, Bool-cases, inl, inr, All, All-map, All-Memᴰ, any-append,
  any-update_first,
}
use mathlib.Core.List.{Memᴰ}
use cogno_engram.Text.{Str, str_eq, str_eq_self}
use cogno_engram.Types.{Date, TurnRecord}
use cogno_engram.Store.State.{Coordinate, Store}
use cogno_engram.Store.Sessions.{
  stamp, coordinate, same_coordinate, is_consolidated, dated_by, Activity, note_activity, activity,
  is_idle, idle_sessions,
}

same_coordinate_self : (c : Coordinate) → same_coordinate c c ≡ true
unfolding same_coordinate
same_coordinate_self c = ground (arith, str_eq_self c.scope, str_eq_self c.session_id)

marked_in :
    (p : TurnRecord → Bool) (turns : List TurnRecord) (t : TurnRecord)
    → Memᴰ t turns
    → p t ≡ true
    → any (same_coordinate (coordinate t)) (map coordinate (filter p turns)) ≡ true
marked_in p [] t m h = elim m [ ]
marked_in p (u ∷ us) t (Memᴰ.head e) h =
    let here : p u ≡ true = subst (λ x. p x ≡ true) e h in
    rw here (rw⁻¹ e (ground (arith, same_coordinate_self (coordinate t))))
marked_in p (u ∷ us) t (Memᴰ.tail m) h =
    let rest = marked_in p us t m h in
    elim (Bool-cases (p u)) [ inl e ↦ rw e (ground (arith, rest)) | inr e ↦ rw e rest ]

-- The stamp marks every turn that it covers.
pub stamp-marks :
    (session_id scope : Str) (ended : Date) (st : Store)
    → All
        (λ t.
          (str_eq t.session_id session_id && str_eq t.scope scope && dated_by ended t) ≡ true
          → is_consolidated (stamp session_id scope ended st) t ≡ true)
        st.turns
unfolding stamp is_consolidated
stamp-marks session_id scope ended st =
    All-map _ _ st.turns
      (λ t m h.
        any-append (same_coordinate (coordinate t)) st.consolidated _
        ∙ ground (
          arith,
          marked_in
              (λ u. str_eq u.session_id session_id && str_eq u.scope scope && dated_by ended u)
              st.turns t m h,
        ))
      (All-Memᴰ st.turns)

-- No turn of the session is left unmarked.
abbrev pub AllMarked : Str → Store → List TurnRecord → Type 0
AllMarked session_id st =
    All (λ t. str_eq t.session_id session_id ≡ true → is_consolidated st t ≡ true)

note-other :
    (now : Date) (session_id : Str) (t : TurnRecord) (seen : List Activity)
    → str_eq t.session_id session_id ≡ false
    → any (λ a. str_eq a.session_id session_id) (note_activity now t seen)
      ≡ any (λ a. str_eq a.session_id session_id) seen
unfolding note_activity
note-other now session_id t seen h =
    elim (Bool-cases (any (λ a. str_eq a.session_id t.session_id) seen)) [
      | inl e ↦ rw e (
          any-update_first (λ a. str_eq a.session_id session_id)
            (λ a. str_eq a.session_id t.session_id) _ seen (λ a _. refl))
      | inr e ↦ rw e (any-append (λ a. str_eq a.session_id session_id) seen _ ∙ ground (arith, h))
    ]

activity-marked :
    (now : Date) (session_id : Str) (st : Store) (turns : List TurnRecord) (seen : List Activity)
    → AllMarked session_id st turns
    → any (λ a. str_eq a.session_id session_id) seen ≡ false
    → any (λ a. str_eq a.session_id session_id) (activity now st turns seen) ≡ false
unfolding activity
activity-marked now session_id st [] seen marked h = h
activity-marked now session_id st (t ∷ ts) seen marked h =
    elim (Bool-cases (is_consolidated st t)) [
      | inl e ↦ rw e (activity-marked now session_id st ts seen marked.1 h)
      | inr e ↦ rw e (
          activity-marked now session_id st ts (note_activity now t seen) marked.1
            (note-other now session_id t seen (ground (arith, marked.0, e)) ∙ h))
    ]

any-filter-false {ℓ} :
    {A : Type ℓ} (p q : A → Bool) (xs : List A) → any p xs ≡ false → any p (filter q xs) ≡ false
any-filter-false p q [] h = refl
any-filter-false p q (x ∷ xs) h = ground (arith, any-filter-false p q xs)

-- A session all of whose turns are marked is not idle, whatever the table of sessions holds.
pub marked-not_idle :
    (now : Date) (seconds limit : ℕ) (session_id : Str) (st : Store)
    → AllMarked session_id st st.turns
    → any (λ s. str_eq s.id session_id) (idle_sessions now seconds limit st) ≡ false
unfolding idle_sessions
marked-not_idle now seconds limit session_id st marked =
    any-take (λ s. str_eq s.id session_id) limit _
      (any-sort_by _ (λ s. str_eq s.id session_id) _
        ∙ any-map (λ s. str_eq s.id session_id) _ _
        ∙ any-filter-false (λ a. str_eq a.session_id session_id) (is_idle now seconds st)
            (activity now st st.turns [])
            (activity-marked now session_id st st.turns [] marked refl))
