-- ===== src/Render/Agreement/Isolation.antt =====
-- An entry node without the rules of other namespaces, for one user.
use mathlib.Core.List.{Memᴰ}
use trust_panel.Prelude.{
  ◌≡◌, refl, sym, ◌∙◌, ap, ◌⊎◌, inl, inr, Bool, true, false, not, ◌&&◌, ◌||◌, none, List, [], ◌∷◌,
  ◌++◌, map, filter, arith, mem-filter, mem_of_filter, Text, codes, is_empty, fun_ext,
  if◌then◌else◌,
}
use trust_panel.Prelude.Result.{ok}
use trust_panel.Model.Node.{Instant, User}
use trust_panel.Model.Policy.{
  RoutePolicy, RuleTier, RuleAction, action_unset, action_exit, action_direct, action_block,
  other_action, is_fleet_tier, is_exit_tier, is_unset_action,
}
use trust_panel.Model.Order.Filtering.{filter-sort_policies}
use trust_panel.Model.State.{State, validate, active_users}
use trust_panel.Render.Netip.{Netip}
use trust_panel.Render.Config.{SbMatch, SbRule}
use trust_panel.Render.Matching.{pure}
use trust_panel.Render.Compiler.{
  policies_by_tier, drained, resolve_exit, policy_exit, action_rule, others_rule, compile_policy,
  compile_reservation, users_rule, policy_users, reservation_users, emit_policies, default_rule,
  default_rules, body_rules, sorted_keys, compile_rules,
}
use trust_panel.Render.SingBox.{SingBox}
use trust_panel.Render.Agreement.Members.{IsOnly}
use trust_panel.Render.Agreement.Policies.{Fits}
use trust_panel.Render.Agreement.Foreign.{is_foreign, foreign_applies, emit_policies-is_foreign}
use trust_panel.Render.Agreement.Valid.{active-IsOnly, HasUsableRules, rules-Fit}
use trust_panel.Render.Agreement.Whole.{by_tier-mem}
use trust_panel.Render.Agreement.Prepared.{ReadDomain, compile_rules-handled}
use trust_panel.Render.Agreement.Resolved.{ReadAddresses, body_rules-notes}

-- The state without the rules of other namespaces than the user's.
abbrev pub without_foreign : User → State → State
without_foreign u s = record s {
  route_policies = filter (λ p. not (is_foreign u p)) s.route_policies;
}

filter_swap :
    {A : Type 0} (p q : A → Bool) (xs : List A) → filter p (filter q xs) ≡ filter q (filter p xs)
filter_swap p q [] = refl
filter_swap p q (x ∷ xs) = ground (arith, filter_swap p q xs)

by_tier-filter :
    (q : RoutePolicy → Bool) (ps : List RoutePolicy) (tier : RuleTier → Bool)
    → policies_by_tier (filter q ps) tier ≡ filter q (policies_by_tier ps tier)
unfolding policies_by_tier
by_tier-filter q ps tier =
    rw (filter_swap (λ p. not p.disabled && tier p.tier) q ps)
      (sym (filter-sort_policies q (filter (λ p. not p.disabled && tier p.tier) ps)))

-- The rules read of a state, beside its policies, its nodes and its groups only.
module _ (net : Netip) (s : State) (active : List User) (ps : List RoutePolicy) where
  abbrev other : State
  other = record s { route_policies = ps }

  policy_exit-state :
      (p : RoutePolicy) (half e : Text) → policy_exit other p half e ≡ policy_exit s p half e
  unfolding policy_exit resolve_exit drained
  policy_exit-state p half e = refl

  action_rule-state :
      (p : RoutePolicy) (m : SbMatch) (a : RuleAction)
      → action_rule other p m a ≡ action_rule s p m a
  action_rule-state p m action_direct = refl
  action_rule-state p m action_block = refl
  action_rule-state p m action_exit = rw (policy_exit-state p [] p.exit_node_id) refl
  action_rule-state p m action_unset = refl
  action_rule-state p m (other_action _) = refl

  others_rule-state :
      (p : RoutePolicy) (m : SbMatch) (a : RuleAction)
      → others_rule other p m a ≡ others_rule s p m a
  others_rule-state p m action_direct = refl
  others_rule-state p m action_block = refl
  others_rule-state p m action_exit =
      rw (policy_exit-state p (codes "everyone else") p.others_exit_id) refl
  others_rule-state p m action_unset = refl
  others_rule-state p m (other_action _) = refl

  policy-state :
      (p : RoutePolicy) → compile_policy net other active p ≡ compile_policy net s active p
  unfolding compile_policy policy_users
  policy-state p =
      ap (λ f. users_rule net f p (policy_users net s active p))
        (fun_ext λ m. action_rule-state p m p.action)

  reservation-state :
      (p : RoutePolicy)
      → compile_reservation net other active p ≡ compile_reservation net s active p
  unfolding compile_reservation reservation_users
  reservation-state p =
      ap
        (λ f.
          if is_unset_action p.others_action || is_empty p.applies_to_group_id
          then pure none
          else users_rule net f p (reservation_users net s active p))
        (fun_ext λ m. others_rule-state p m p.others_action)

  emit_policies-state :
      (qs : List RoutePolicy) → emit_policies net other active qs ≡ emit_policies net s active qs
  unfolding emit_policies
  emit_policies-state [] = refl
  emit_policies-state (q ∷ qs) =
      rw (policy-state q, reservation-state q, emit_policies-state qs) refl

  default_rule-state : (gid : Text) → default_rule other active gid ≡ default_rule s active gid
  unfolding default_rule resolve_exit drained
  default_rule-state gid = refl

  default_rules-state :
      (gids : List Text) → default_rules other active gids ≡ default_rules s active gids
  unfolding default_rules
  default_rules-state [] = refl
  default_rules-state (gid ∷ gids) = rw (default_rule-state gid, default_rules-state gids) refl

module _ (net : Netip) (s : State) (active : List User) (u : User) (only : IsOnly active u)
    (c : SingBox) (named : c.user ≡ u.username)
    (fits : (p : RoutePolicy) → Memᴰ p s.route_policies → p.disabled ≡ false → Fits net c p) where
  abbrev own : List RoutePolicy → List RoutePolicy
  own = filter (λ p. not (is_foreign u p))

  abbrev remaining : State
  remaining = without_foreign u s

  tier-is_foreign :
      (tier : RuleTier → Bool) (rest more : List SbRule)
      → c.verdict rest ≡ c.verdict more
      → c.verdict ((emit_policies net s active (policies_by_tier s.route_policies tier)).0 ++ rest)
        ≡ c.verdict (
            (emit_policies net remaining active (policies_by_tier remaining.route_policies tier)).0
            ++ more)
  tier-is_foreign tier rest more h =
      let all = policies_by_tier s.route_policies tier in
      emit_policies-is_foreign net s active u only c named all rest more
        (λ p m. let (at, on) = by_tier-mem s.route_policies tier p m in fits p at on) h
      ∙ rw
          (
            by_tier-filter (λ p. not (is_foreign u p)) s.route_policies tier,
            emit_policies-state net s active (own s.route_policies) (own all),
          )
          refl

  body-is_foreign :
      c.verdict (body_rules net s active).0 ≡ c.verdict (body_rules net remaining active).0
  unfolding body_rules
  body-is_foreign =
      let keys = sorted_keys (map (λ v. v.group_id) active) in
      tier-is_foreign is_fleet_tier _ _ (
        tier-is_foreign is_exit_tier _ _ (
          ap (λ d. c.verdict d.0)
            (sym (default_rules-state net s active (own s.route_policies) keys))))

-- A rule for the client is not foreign, and is left.
still-ReadAddresses :
    (u : User) (s : State) → ReadAddresses s u → ReadAddresses (without_foreign u s) u
still-ReadAddresses u s (p, t, m, on, tier, here, made, a) = (
  p,
  t,
  mem_of_filter (λ q. not (is_foreign u q)) s.route_policies m
      (ground (arith, here, foreign_applies u p)),
  on,
  tier,
  here,
  made,
  a,
)

-- In a state that Validate accepts, take an active client, let every condition of every enabled rule
-- have a value left when it is cleaned, and let none of its "and"s put addresses and rule-sets into
-- one ordinary rule. Compare the rules compiled from the state with those compiled without the rules
-- of other namespaces, but for those written for the client's own group. For a connection of the
-- client whose domain is known when it arrives, or read by an ordinary rule of both lists, and whose
-- addresses are known, or looked at by an enabled rule for the client, the node does the same.
pub compile_rules-without_foreign :
    (net : Netip) (parses : Text → Bool) (s : State) (at : Instant) (u : User) (c : SingBox)
    (knows_domain knows_addresses : Bool)
    → validate parses s ≡ ok tt
    → Memᴰ u (active_users s at)
    → c.user ≡ u.username
    → HasUsableRules net c s
    → let full = body_rules net s (active_users s at) in
      let fewer = body_rules net (without_foreign u s) (active_users s at) in
      (knows_domain ≡ true) ⊎ (ReadDomain full.0 × ReadDomain fewer.0)
      → (knows_addresses ≡ true) ⊎ ReadAddresses s u
      → c.handle knows_domain knows_addresses (compile_rules net s (active_users s at)).0
        ≡ c.handle knows_domain knows_addresses
            (compile_rules net (without_foreign u s) (active_users s at)).0
compile_rules-without_foreign net parses s at u c knows_domain knows_addresses ok_state here named
      usable reads resolves =
    let active = active_users s at in
    let fewer = without_foreign u s in
    let only = active-IsOnly parses s at u ok_state here in
    let fits = rules-Fit net c parses s ok_state usable in
    compile_rules-handled c net s active knows_domain knows_addresses
      (elim reads [ inl e ↦ inl e | inr (r, _) ↦ inr r ])
      (elim resolves [
        | inl e ↦ inl e
        | inr r ↦ inr (body_rules-notes net s active u only c named fits r)
      ])
    ∙ body-is_foreign net s active u only c named fits
    ∙ sym (
        compile_rules-handled c net fewer active knows_domain knows_addresses
          (elim reads [ inl e ↦ inl e | inr (_, r) ↦ inr r ])
          (elim resolves [
            | inl e ↦ inl e
            | inr r ↦ inr (
                body_rules-notes net fewer active u only c named
                  (λ p m. fits p (mem-filter (λ q. not (is_foreign u q)) s.route_policies m).0)
                  (still-ReadAddresses u s r))
          ]))
