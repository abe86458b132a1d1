-- ===== src/Render/Agreement/Policies.antt =====
-- What the rules of one policy, and of a list of policies, do with a connection.

use trust_panel.Prelude.{
  ◌≡◌, refl, ◌∙◌, Bool, true, false, not, ◌&&◌, ◌||◌, Option, none, some, List, [], ◌∷◌, any, arith,
  Text, codes, text_eq, text_eq_sym, is_empty, Bool-cases, inl, inr, if◌then◌else◌,
}
use trust_panel.Model.Node.{User, exit_direct}
use trust_panel.Model.Policy.{
  RoutePolicy, RuleAction, action_unset, action_exit, action_direct, action_block, other_action,
  MatchNode, match_tree, policy_match, action_valid, is_unset_action,
}
use trust_panel.Model.Policy.Reading.{holds}
use trust_panel.Model.State.{State}
use trust_panel.Render.Netip.{Netip}
use trust_panel.Render.Config.{SbMatch, SbRule}
use trust_panel.Render.Matching.{Emit}
use trust_panel.Render.Compiler.{
  drained, exit_tag, resolve_exit, policy_exit, exit_rule, action_rule, others_rule, some_users,
  policy_users, compile_policy, reservation_users, compile_reservation, one_rule, users_rule,
  members, owner_members,
}
use trust_panel.Render.Simulator.{
  by_exit, by_direct, by_block, undecided, SimResult, SimWarning, sim_falls_back, sim_both_out,
  sim_refuses, warn, set_exit, apply_exit, apply_action, applies,
}
use trust_panel.Render.SingBox.{SingBox, Verdict, refused, via, outcome, is_final}
use trust_panel.Render.Agreement.Nodes.{IsUsable, hit, in_scope, compile_match-matches}
use trust_panel.Render.Agreement.Members.{IsOnly, members-named, owner_members-named}

-- The tester's decision as the verdict on a connection.
abbrev pub verdict_of : {Addr : Type 0} → SimResult Addr → Verdict
verdict_of r = elim r.decision [
  | by_block ↦ refused
  | by_direct ↦ via exit_direct
  | by_exit ↦ via (exit_tag r.exit_node_id)
  | undecided ↦ via []
]

abbrev tag_verdict : Option Text → Verdict
tag_verdict none = refused
tag_verdict (some tag) = via tag

-- What a half of a rule does with what it matches.
pub half_verdict : State → RoutePolicy → RuleAction → Text → Verdict
half_verdict s p action_direct exit_id = via exit_direct
half_verdict s p action_block exit_id = refused
half_verdict s p action_exit exit_id = tag_verdict (policy_exit s p [] exit_id).0
half_verdict s p action_unset exit_id = via []
half_verdict s p (other_action _) exit_id = via []

module _ {Addr : Type 0} (s : State) where
  warn-verdict : (r : SimResult Addr) (w : SimWarning) → verdict_of (warn r w) ≡ verdict_of r
  unfolding warn
  warn-verdict r w = ground arith

  pub set_exit-verdict :
      (r : SimResult Addr) (e : Text) → verdict_of (set_exit s r e) ≡ via (resolve_exit s e).0
  unfolding set_exit resolve_exit
  set_exit-verdict r e = elim (Bool-cases (drained s e)) [
    | inl d ↦ rw d (warn-verdict _ _)
    | inr d ↦ rw d refl
  ]

  -- A half with an exit that is out of rotation, on both sides, by the rule's fallback.
  apply_exit-verdict :
      (r : SimResult Addr) (p : RoutePolicy) (e : Text)
      → verdict_of (apply_exit s r p e) ≡ tag_verdict (policy_exit s p [] e).0
  unfolding apply_exit policy_exit
  apply_exit-verdict r p e =
      let back = p.fallback_exit_id in
      let blocked : SimResult Addr = record r { decision = by_block; exit_node_id = [] } in
      ground (
        arith,
        set_exit-verdict r e,
        set_exit-verdict r back,
        warn-verdict (set_exit s r back) (sim_falls_back e p.name back),
        warn-verdict blocked (sim_both_out e back p.name),
        warn-verdict blocked (sim_refuses e p.name),
      )

  pub apply_action-verdict :
      (r : SimResult Addr) (p : RoutePolicy) (a : RuleAction) (e : Text)
      → action_valid a ≡ true
      → verdict_of (apply_action s r p a e) ≡ half_verdict s p a e
  unfolding apply_action half_verdict
  apply_action-verdict r p action_direct e h = refl
  apply_action-verdict r p action_block e h = refl
  apply_action-verdict r p action_exit e h = apply_exit-verdict r p e
  apply_action-verdict r p action_unset e h = cc
  apply_action-verdict r p (other_action _) e h = cc

module _ (s : State) where
  -- The half only shows in the warning's key.
  policy_exit-half :
      (p : RoutePolicy) (half e : Text) → (policy_exit s p half e).0 ≡ (policy_exit s p [] e).0
  unfolding policy_exit
  policy_exit-half p half e = ground arith

module _ (c : SingBox) (s : State) where
  first_rule :
      (r : SbRule) (rest : List SbRule) (b : Bool) (v : Verdict)
      → c.matches r.matcher ≡ b
      → is_final r.action ≡ true
      → outcome r ≡ v
      → c.verdict (r ∷ rest) ≡ (if b then v else c.verdict rest)
  first_rule r rest b v e f g = c.verdict_cons r rest ∙ rw (e, f, g) refl

  exit_rule-verdict :
      (m : SbMatch) (o : Option Text) (b : Bool) (rest : List SbRule)
      → c.matches m ≡ b
      → c.verdict (exit_rule m o ∷ rest) ≡ (if b then tag_verdict o else c.verdict rest)
  exit_rule-verdict m none b rest e = first_rule _ rest b refused e refl refl
  exit_rule-verdict m (some t) b rest e = first_rule _ rest b (via t) e refl refl

  -- The rule of a policy's own half, behind its matcher.
  action_rule-verdict :
      (p : RoutePolicy) (m : SbMatch) (a : RuleAction) (b : Bool) (rest : List SbRule)
      → c.matches m ≡ b
      → c.verdict ((action_rule s p m a).0 ∷ rest)
        ≡ (if b then half_verdict s p a p.exit_node_id else c.verdict rest)
  unfolding half_verdict
  action_rule-verdict p m action_direct b rest e = first_rule _ rest b _ e refl refl
  action_rule-verdict p m action_block b rest e = first_rule _ rest b _ e refl refl
  action_rule-verdict p m action_exit b rest e = exit_rule-verdict m _ b rest e
  action_rule-verdict p m action_unset b rest e = first_rule _ rest b _ e refl refl
  action_rule-verdict p m (other_action _) b rest e = first_rule _ rest b _ e refl refl

  -- The rule of the half for everyone else.
  others_rule-verdict :
      (p : RoutePolicy) (m : SbMatch) (a : RuleAction) (b : Bool) (rest : List SbRule)
      → action_valid a ≡ true
      → c.matches m ≡ b
      → c.verdict ((others_rule s p m a).0 ∷ rest)
        ≡ (if b then half_verdict s p a p.others_exit_id else c.verdict rest)
  unfolding half_verdict
  others_rule-verdict p m action_direct b rest h e = first_rule _ rest b _ e refl refl
  others_rule-verdict p m action_block b rest h e = first_rule _ rest b _ e refl refl
  others_rule-verdict p m action_exit b rest h e =
      exit_rule-verdict m _ b rest e
      ∙ rw (policy_exit-half s p (codes "everyone else") p.others_exit_id) refl
  others_rule-verdict p m action_unset b rest h e = cc
  others_rule-verdict p m (other_action _) b rest h e = cc

-- What the comparison of one rule rests on: its match folds into a tree whose conditions all have a
-- value left, and its actions are known ones.
abbrev pub Fits : Netip → SingBox → RoutePolicy → Type 0
Fits net c p =
    (t : MatchNode) × (match_tree (policy_match p) ≡ some t)
    × IsUsable c net t
    × (action_valid p.action ≡ true)
    × ((is_unset_action p.others_action || action_valid p.others_action) ≡ true)

-- The half of a rule that answers for those outside its group, with no regard to the group.
abbrev pub reserved_for : RoutePolicy → Text → Bool
reserved_for p owner =
    not (is_unset_action p.others_action || is_empty p.applies_to_group_id)
    && (is_empty p.owner_id || text_eq p.owner_id owner)

module _ (net : Netip) (s : State) (active : List User) (u : User) (only : IsOnly active u)
    (c : SingBox) (named : c.user ≡ u.username) where
  -- Users to scope to, as a test on the connection's user.
  abbrev pub scoped_test : Option (List Text) → Bool
  scoped_test none = false
  scoped_test (some users) = in_scope c users

  some_users-test :
      (users : List Text) → scoped_test (some_users users) ≡ any (text_eq c.user) users
  some_users-test [] = refl
  some_users-test (x ∷ users) = refl

  member_test :
      (gid : Text) → scoped_test (some_users (members active gid)) ≡ text_eq gid u.group_id
  member_test gid =
      some_users-test (members active gid)
      ∙ rw named (members-named active u only gid)
      ∙ text_eq_sym u.group_id gid

  owner_test : (o : Text) → scoped_test (some_users (owner_members active o)) ≡ text_eq o u.owner_id
  owner_test o =
      some_users-test (owner_members active o)
      ∙ rw named (owner_members-named active u only o)
      ∙ text_eq_sym u.owner_id o

  pub policy_users-test :
      (p : RoutePolicy)
      → scoped_test (policy_users net s active p) ≡ applies p u.group_id u.owner_id
  unfolding policy_users applies
  policy_users-test p = elim (Bool-cases (is_empty p.applies_to_group_id)) [
    | inr e ↦ rw e (member_test p.applies_to_group_id)
    | inl e ↦ elim (Bool-cases (is_empty p.owner_id)) [
      | inr f ↦ rw (e, f) (owner_test p.owner_id)
      | inl f ↦ rw (e, f) refl
    ]
  ]

  reservation_users-test :
      (p : RoutePolicy)
      → scoped_test (reservation_users net s active p)
        ≡ (is_empty p.owner_id || text_eq p.owner_id u.owner_id)
  unfolding reservation_users
  reservation_users-test p = elim (Bool-cases (is_empty p.owner_id)) [
    | inr f ↦ rw f (owner_test p.owner_id)
    | inl f ↦ rw f refl
  ]

  compiled-verdict :
      (p : RoutePolicy) (o : Option (List Text)) (f : SbMatch → Emit SbRule) (v : Verdict)
      (t : MatchNode) (rest : List SbRule)
      → match_tree (policy_match p) ≡ some t
      → IsUsable c net t
      → ((m : SbMatch) (b : Bool)
          → c.matches m ≡ b
          → c.verdict ((f m).0 ∷ rest) ≡ (if b then v else c.verdict rest))
      → c.verdict (one_rule (users_rule net f p o).0 rest)
        ≡ (if scoped_test o && holds (hit c net) t then v else c.verdict rest)
  compiled-verdict p none f v t rest e h k = refl
  compiled-verdict p (some users) f v t rest e h k =
      let (m, made, same) = compile_match-matches c net p users t e h in rw made (k m _ same)

  -- The rule of a policy decides for the user where the tester says that the policy applies to a
  -- member of the user's group and its match holds.
  pub compile_policy-verdict :
      (p : RoutePolicy) (rest : List SbRule) (fits : Fits net c p)
      → c.verdict (one_rule (compile_policy net s active p).0 rest) ≡ (
          if applies p u.group_id u.owner_id && holds (hit c net) fits.0
          then half_verdict s p p.action p.exit_node_id
          else c.verdict rest)
  unfolding compile_policy
  compile_policy-verdict p rest (t, e, h, a, o) =
      compiled-verdict p (policy_users net s active p) (λ m. action_rule s p m p.action) _ t rest e
        h (λ m b q. action_rule-verdict c s p m p.action b rest q)
      ∙ rw (policy_users-test p) refl

  pub compile_reservation-verdict :
      (p : RoutePolicy) (rest : List SbRule) (fits : Fits net c p)
      → c.verdict (one_rule (compile_reservation net s active p).0 rest) ≡ (
          if reserved_for p u.owner_id && holds (hit c net) fits.0
          then half_verdict s p p.others_action p.others_exit_id
          else c.verdict rest)
  unfolding compile_reservation
  compile_reservation-verdict p rest (t, e, h, a, o) =
      elim (Bool-cases (is_unset_action p.others_action || is_empty p.applies_to_group_id)) [
        | inl k ↦ rw k refl
        | inr k ↦ rw k (
            compiled-verdict p (reservation_users net s active p)
              (λ m. others_rule s p m p.others_action) _ t rest e h
              (λ m b q. others_rule-verdict c s p m p.others_action b rest (ground arith) q)
            ∙ rw (reservation_users-test p) refl)
      ]
