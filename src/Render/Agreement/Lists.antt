-- ===== src/Render/Agreement/Lists.antt =====
-- The rules of a list of policies decide as the tester's walk over it.
use mathlib.Core.List.{Memᴰ}
use trust_panel.Prelude.{
  ◌≡◌, refl, ◌∙◌, ap, Bool, true, false, ◌&&◌, Option, none, some, List, [], ◌∷◌, ◌++◌, arith, Text,
  Bool-cases, inl, inr, if◌then◌else◌,
}
use trust_panel.Model.Node.{User}
use trust_panel.Model.Policy.{
  RoutePolicy, RuleAction, action_valid, MatchNode, match_tree, policy_match,
}
use trust_panel.Model.Policy.Reading.{holds}
use trust_panel.Model.State.{State}
use trust_panel.Render.Netip.{Netip}
use trust_panel.Render.Config.{SbRule}
use trust_panel.Render.Compiler.{compile_policy, compile_reservation, one_rule, emit_policies}
use trust_panel.Render.Simulator.{
  GeoMatcher, SimResult, Stage, applies, answers_for_others, eval_half, eval, match_policy,
  first_group, owner_of_group,
}
use trust_panel.Render.SingBox.{SingBox, Verdict}
use trust_panel.Render.Agreement.Nodes.{hit}
use trust_panel.Render.Agreement.Tester.{Sees, match_policy-hit}
use trust_panel.Render.Agreement.Members.{IsOnly}
use trust_panel.Render.Agreement.Policies.{
  Fits, reserved_for, verdict_of, half_verdict, apply_action-verdict, compile_policy-verdict,
  compile_reservation-verdict,
}

one_rule-append :
    (o : Option SbRule) (xs ys : List SbRule) → one_rule o xs ++ ys ≡ one_rule o (xs ++ ys)
one_rule-append none xs ys = refl
one_rule-append (some r) xs ys = refl

-- The rules of a list of policies are those of the first one, its two halves, and then the others'.
pub emit_policies-cons :
    (net : Netip) (s : State) (active : List User) (p : RoutePolicy) (ps : List RoutePolicy)
    (rest : List SbRule)
    → (emit_policies net s active (p ∷ ps)).0 ++ rest
      ≡ one_rule (compile_policy net s active p).0 (
          one_rule
            (compile_reservation net s active p).0
            ((emit_policies net s active ps).0 ++ rest))
unfolding emit_policies
emit_policies-cons net s active p ps rest =
    rw
      (
        one_rule-append (compile_policy net s active p).0,
        one_rule-append (compile_reservation net s active p).0,
      )
      refl

-- Outside its group a rule answers exactly where it reserves.
answers-reserved :
    (p : RoutePolicy) (gid owner : Text)
    → applies p gid owner ≡ false
    → answers_for_others p gid owner ≡ reserved_for p owner
unfolding applies answers_for_others
answers-reserved p gid owner h = ground arith

-- An answer of the walk, read as a verdict, with what comes after it.
abbrev pub walked : {Addr : Type 0} → SingBox → Bool × SimResult Addr → List SbRule → Verdict
walked c (true, r) rest = verdict_of r
walked c (false, r) rest = c.verdict rest

module _ (net : Netip) (s : State) (active : List User) (u : User) (only : IsOnly active u)
    (c : SingBox) (named : c.user ≡ u.username) (g : GeoMatcher (net.Addr)) (domain : Text)
    (ips : List (net.Addr)) (sees : Sees net g domain ips c)
    (owned : owner_of_group (first_group s.groups u.group_id) ≡ u.owner_id) where
  abbrev walk : Stage → List RoutePolicy → SimResult (net.Addr) → Bool × SimResult (net.Addr)
  walk = eval net s (some g) u.group_id domain ips

  abbrev half :
      Stage → RoutePolicy → RuleAction → Text → SimResult (net.Addr) → Bool × SimResult (net.Addr)
  half = eval_half net s (some g) u.group_id domain ips

  half-hits :
      (stage : Stage) (p : RoutePolicy) (a : RuleAction) (e : Text) (r : SimResult (net.Addr))
      (t : MatchNode)
      → match_tree (policy_match p) ≡ some t
      → (half stage p a e r).0 ≡ holds (hit c net) t
  unfolding eval_half
  half-hits stage p a e r t h = ground (arith, match_policy-hit net g domain ips c sees p t r h)

  half-decides :
      (stage : Stage) (p : RoutePolicy) (a : RuleAction) (e : Text) (r : SimResult (net.Addr))
      → action_valid a ≡ true
      → (half stage p a e r).0 ≡ true
      → verdict_of (half stage p a e r).1 ≡ half_verdict s p a e
  unfolding eval_half
  half-decides stage p a e r v h = elim (Bool-cases (match_policy net (some g) domain ips p r).0) [
    | inl m ↦ rw m (apply_action-verdict s _ p a e v)
    | inr m ↦ absurd (ground arith)
  ]

  -- The two rules of one policy, in front of others.
  policy-decides :
      (p : RoutePolicy) (fits : Fits net c p) (rest : List SbRule)
      → c.verdict (
          one_rule
            (compile_policy net s active p).0
            (one_rule (compile_reservation net s active p).0 rest))
        ≡ (if applies p u.group_id u.owner_id && holds (hit c net) fits.0
            then half_verdict s p p.action p.exit_node_id
            else if reserved_for p u.owner_id && holds (hit c net) fits.0
            then half_verdict s p p.others_action p.others_exit_id
            else c.verdict rest)
  policy-decides p fits rest =
      compile_policy-verdict net s active u only c named p
        (one_rule (compile_reservation net s active p).0 rest) fits
      ∙ ap
          (λ v.
            if applies p u.group_id u.owner_id && holds (hit c net) fits.0
            then half_verdict s p p.action p.exit_node_id
            else v)
          (compile_reservation-verdict net s active u only c named p rest fits)

  -- One round of the walk: what the rule decides, or what the walk over the others does, whatever
  -- was recorded so far.
  walk-step :
      (stage : Stage) (p : RoutePolicy) (fits : Fits net c p) (ps : List RoutePolicy)
      (rest : List SbRule) (w : Verdict)
      → ((r : SimResult (net.Addr)) → w ≡ walked c (walk stage ps r) rest)
      → (r : SimResult (net.Addr))
      → (if applies p u.group_id u.owner_id && holds (hit c net) fits.0
          then half_verdict s p p.action p.exit_node_id
          else if reserved_for p u.owner_id && holds (hit c net) fits.0
          then half_verdict s p p.others_action p.others_exit_id
          else w)
        ≡ walked c (walk stage (p ∷ ps) r) rest
  unfolding eval
  walk-step stage p (t, e, h, a, o) ps rest w ih r =
      let own = half stage p p.action p.exit_node_id r in
      let oth = half stage p p.others_action p.others_exit_id r in
      let own_hits = half-hits stage p p.action p.exit_node_id r t e in
      let oth_hits = half-hits stage p p.others_action p.others_exit_id r t e in
      elim (Bool-cases (applies p u.group_id u.owner_id)) [
        | inl y ↦
            ground
              (arith, owned, own_hits, half-decides stage p p.action p.exit_node_id r, ih own.1)
        | inr n ↦ ground (
          arith,
          owned,
          oth_hits,
          half-decides stage p p.others_action p.others_exit_id r,
          ih oth.1,
          ih r,
          answers-reserved p u.group_id u.owner_id,
        )
      ]

  -- The rules emitted for a list of policies, in front of others, decide for the user as the
  -- tester's walk over the list does; where it decides nothing, the other rules do.
  pub walk-agrees :
      (stage : Stage) (ps : List RoutePolicy)
      → ((p : RoutePolicy) → Memᴰ p ps → Fits net c p)
      → (r : SimResult (net.Addr)) (rest : List SbRule)
      → c.verdict ((emit_policies net s active ps).0 ++ rest) ≡ walked c (walk stage ps r) rest
  walk-agrees stage [] fits r rest = unfold emit_policies eval in refl
  walk-agrees stage (p ∷ ps) fits r rest =
      let tail = (emit_policies net s active ps).0 in
      let own = fits p (Memᴰ.head refl) in
      ap c.verdict (emit_policies-cons net s active p ps rest)
      ∙ policy-decides p own (tail ++ rest)
      ∙ walk-step stage p own ps rest (c.verdict (tail ++ rest))
          (λ r'. walk-agrees stage ps (λ q m. fits q (Memᴰ.tail m)) r' rest) r
