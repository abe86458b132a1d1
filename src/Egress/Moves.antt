-- ===== src/Egress/Moves.antt =====
-- What a switch writes and reports, also where the store fails half way, and the rules that name
-- an exit.
use trust_panel.Prelude.{
  ◌≡◌, refl, sym, ◌∙◌, ap, Bool, true, false, ◌&&◌, ◌||◌, Option, none, some, List, [], ◌∷◌, ◌++◌,
  map, filter, if◌then◌else◌, Text, text_eq, is_empty, arith, fun_ext, Bool-cases, Option-cases,
  inl, inr,
}
use trust_panel.Model.Node.{Group}
use trust_panel.Model.Policy.{RoutePolicy, names_any, names_exit, is_exit_action, is_exit_fallback}
use trust_panel.Model.State.{State, policies_naming_exit}
use trust_panel.Egress.Asked.{
  Selects, none_left, moved_out, stays, told, move_of-told, chosen-Names, chosen-elsewhere,
  not_chosen,
}
use trust_panel.Egress.{
  rules_naming, Move, moved_to, move_of, is_chosen, load_failed, upsert_failed, Switched, report,
  switch_loop, switch,
}

filter_same :
    {A : Type 0} (p q : A → Bool)
    → ((x : A) → p x ≡ q x)
    → (xs : List A) → filter p xs ≡ filter q xs
filter_same p q h xs = rw (fun_ext h) refl

filter_none : {A : Type 0} (xs : List A) → filter (λ _. false) xs ≡ []
filter_none [] = refl
filter_none (x ∷ xs) = filter_none xs

names_none :
    (p : RoutePolicy) (id : Text) → is_empty id ≡ true → names_any (names_exit p id) ≡ false
unfolding names_exit
names_none p id e = ground arith

named_twice :
    (p : RoutePolicy) (id : Text)
    → is_empty id ≡ false
    → (if p.disabled
        then false
        else (is_exit_action p.action && text_eq p.exit_node_id id)
          || (is_exit_action p.others_action && text_eq p.others_exit_id id)
          || (is_exit_fallback p.fallback_kind && text_eq p.fallback_exit_id id))
      ≡ names_any (names_exit p id)
unfolding names_exit
named_twice p id e = ground arith

-- The rules that a drain warns about are the rules that the state lists as naming the exit: the two
-- functions agree on every state and id.
pub rules_naming-policies_naming_exit :
    (st : State) (node_id : Text) → rules_naming st node_id ≡ policies_naming_exit st node_id
unfolding rules_naming policies_naming_exit
rules_naming-policies_naming_exit st node_id = elim (Bool-cases (is_empty node_id)) [
  | inl e ↦
      let named = λ (p : RoutePolicy). names_any (names_exit p node_id) in
      let nobody = λ (p : RoutePolicy). false in
      let same : (p : RoutePolicy) → named p ≡ nobody p = λ p. names_none p node_id e in
      rw e (sym (filter_same named nobody same st.route_policies ∙ filter_none st.route_policies))
  | inr e ↦ rw e (ap (λ f. filter f st.route_policies) (fun_ext λ p. named_twice p node_id e))
]

module _ {S : Type 0} (load : S → Option State) (upsert : S → Group → Option S) (ids : List Text)
    (exit_id : Text) where
  -- Groups written one after another.
  unfoldable pub write_all : S → List Group → Option S
  write_all s [] = some s
  write_all s (g ∷ gs) = elim (upsert s (moved_to exit_id g)) [
    | none ↦ none
    | some after ↦ write_all after gs
  ]

  -- Where a switch stopped: at the end, or at the first of the groups that are left, which the
  -- store did not accept.
  abbrev pub Stopped : Switched S → List Group → Type 0
  Stopped r [] = r.error ≡ none
  Stopped r (g ∷ _) =
      (r.error ≡ some (upsert_failed g.id)) × (upsert r.store (moved_to exit_id g) ≡ none)

  goes_on :
      (m : Move) (r : Switched S) (left : List Group) → Stopped r left → Stopped (report m r) left
  goes_on m r [] h = h
  goes_on m r (h ∷ left) k = k

  write_all-step :
      (s after : S) (g : Group) (gs : List Group)
      → upsert s (moved_to exit_id g) ≡ some after
      → write_all s (g ∷ gs) ≡ write_all after gs
  unfolding write_all
  write_all-step s after g gs wrote = cc wrote

  -- There is always an answer to which groups are to be moved.
  selected : (gs : List Group) → (to_move : List Group) × Selects ids exit_id gs to_move
  selected [] = ([], none_left)
  selected (g ∷ gs) =
      let (rest, chosen) = selected gs in
      elim (Bool-cases (is_chosen ids exit_id g)) [
        | inl e ↦ (
          g ∷ rest,
          moved_out (chosen-Names ids exit_id g e) (chosen-elsewhere ids exit_id g e) chosen,
        )
        | inr e ↦ (rest, stays (not_chosen ids exit_id g e) chosen)
      ]

  abbrev loop : S → List Group → Switched S
  loop = switch_loop load upsert ids exit_id

  loop-skips :
      (s : S) (g : Group) (gs : List Group)
      → is_chosen ids exit_id g ≡ false
      → loop s (g ∷ gs) ≡ loop s gs
  unfolding switch_loop
  loop-skips s g gs e = cc e

  loop-stops :
      (s : S) (g : Group) (gs : List Group)
      → is_chosen ids exit_id g ≡ true
      → upsert s (moved_to exit_id g) ≡ none
      → loop s (g ∷ gs) ≡ record { store = s; moved = []; error = some (upsert_failed g.id) }
  unfolding switch_loop
  loop-stops s g gs e stuck = cc (e, stuck)

  loop-moves :
      (s after : S) (g : Group) (gs : List Group)
      → is_chosen ids exit_id g ≡ true
      → upsert s (moved_to exit_id g) ≡ some after
      → loop s (g ∷ gs) ≡ report (move_of exit_id g) (loop after gs)
  unfolding switch_loop
  loop-moves s after g gs e wrote = cc (e, wrote)

  -- The groups to move split in two: those that were written one after another and reported, and
  -- those that are left.
  abbrev pub Splits : Switched S → S → List Group → Type 0
  Splits r s gs =
      (done : List Group) × (left : List Group) × Selects ids exit_id gs (done ++ left)
      × (write_all s done ≡ some r.store)
      × (r.moved ≡ map (told exit_id) done)
      × Stopped r left

  loop-Splits : (s : S) (gs : List Group) → Splits (loop s gs) s gs
  unfolding write_all
  loop-Splits s [] = unfold switch_loop in ([], [], none_left, refl, refl, refl)
  loop-Splits s (g ∷ gs) = elim (Bool-cases (is_chosen ids exit_id g)) [
    | inl e ↦
        let asked = chosen-Names ids exit_id g e in
        let elsewhere = chosen-elsewhere ids exit_id g e in
        elim (Option-cases (upsert s (moved_to exit_id g))) [
          | inl stuck ↦
              let (rest, chosen) = selected gs in
              rw (loop-stops s g gs e stuck)
                ([], g ∷ rest, moved_out asked elsewhere chosen, refl, refl, (refl, stuck))
          | inr found ↦
              let (after, wrote) = found in
              let (done, left, split, written, moved, stopped) = loop-Splits after gs in
              let sent = move_of exit_id g in
              rw (loop-moves s after g gs e wrote) (
                g ∷ done,
                left,
                moved_out asked elsewhere split,
                write_all-step s after g done wrote ∙ written,
                ap (λ l. sent ∷ l) moved
                    ∙ ap (λ m. m ∷ map (told exit_id) done) (move_of-told exit_id g),
                goes_on sent (loop after gs) left stopped,
              )
        ]
    | inr e ↦
        let (done, left, split, written, moved, stopped) = loop-Splits s gs in
        rw (loop-skips s g gs e)
          (done, left, stays (not_chosen ids exit_id g e) split, written, moved, stopped)
  ]

  -- What there is to say of a switch: nothing was done, for want of a state, or it is split.
  abbrev pub Reported : Switched S → S → Option State → Type 0
  Reported r s none = r ≡ record { store = s; moved = []; error = some load_failed }
  Reported r s (some st) = Splits r s st.groups

  switch-unloaded :
      (s : S)
      → load s ≡ none
      → switch load upsert ids exit_id s
        ≡ record { store = s; moved = []; error = some load_failed }
  unfolding switch
  switch-unloaded s e = cc e

  switch-loops :
      (s : S) (st : State) → load s ≡ some st → switch load upsert ids exit_id s ≡ loop s st.groups
  unfolding switch
  switch-loops s st e = cc e

  -- Whatever the store does, the groups to move, which are those listed, or all where none is, that
  -- leave by another exit, split in two: the first ones are written, one after another, and reported
  -- as moved from their exit to the new one, and those that are left are none, or start with the
  -- group that the error names and that the store refused. Where the state cannot be loaded, nothing is written and nothing reported as moved.
  pub switch-reports : (s : S) → Reported (switch load upsert ids exit_id s) s (load s)
  switch-reports s = elim (Option-cases (load s)) [
    | inl e ↦ rw (switch-unloaded s e, e) refl
    | inr found ↦ let (st, e) = found in rw (switch-loops s st e, e) (loop-Splits s st.groups)
  ]
