-- ===== src/Model/Policy/Validate.antt =====
-- model/model.go: RouteCondition.Validate and RoutePolicy.Validate. Package netip is a parameter:
-- `parses` says that a trimmed text is a prefix or an address (ParsePrefix, ParseAddr).
use trust_panel.Prelude.{
  Bool, true, false, not, ◌&&◌, ◌||◌, List, [], ◌∷◌, if◌then◌else◌, Text, text_eq, trim_space,
}
use trust_panel.Prelude.Result.{Result, ok, ◌>>◌, fail_if, for_each}
use trust_panel.Model.Node.{
  ModelError, unknown_condition_kind, no_condition_values, unknown_join, policy_id_required,
  invalid_tier, invalid_action, match_required, leading_exclusion, invalid_cidr, exit_node_required,
  invalid_fallback, fallback_exit_required, fallback_is_the_exit, fallback_without_exit,
  invalid_others_action, others_need_group, others_exit_required, nothing_reserved, blank,
}
use trust_panel.Model.Policy.{
  RoutePolicy, RouteCondition, RuleAction, CondKind, Join, action_exit, action_direct, action_block,
  action_unset, other_action, cond_cidr, other_kind, other_join, tier_valid, action_valid,
  fallback_valid, is_exit_action, is_unset_action, is_exit_fallback, is_unset_fallback, is_except,
  clean_values, policy_match, has_match,
}

abbrev known_kind : CondKind → Bool
known_kind k = elim k [ other_kind _ ↦ false | _ ↦ true ]

abbrev known_join : Join → Bool
known_join j = elim j [ other_join _ ↦ false | _ ↦ true ]

abbrev has_values : RouteCondition → Bool
has_values c = elim (clean_values c.values) [ [] ↦ false | _ ∷ _ ↦ true ]

-- RouteCondition.Validate
unfoldable pub condition_validate : Text → Bool → RouteCondition → Result ModelError (Unit {0})
condition_validate id first c = do
  fail_if (not (known_kind c.kind)) (unknown_condition_kind id)
  fail_if (not (has_values c)) (no_condition_values id)
  fail_if (not first && not (known_join c.join)) (unknown_join id)

unfoldable pub conditions_validate :
    Text → Bool → List RouteCondition → Result ModelError (Unit {0})
conditions_validate id first [] = ok tt
conditions_validate id first (c ∷ cs) =
    condition_validate id first c >> conditions_validate id false cs

abbrev leads_with_except : List RouteCondition → Bool
leads_with_except [] = false
leads_with_except (c ∷ _) = is_except c.join

-- `p.OthersAction == p.Action`
unfoldable pub same_action : RuleAction → RuleAction → Bool
same_action action_unset action_unset = true
same_action action_exit action_exit = true
same_action action_direct action_direct = true
same_action action_block action_block = true
same_action (other_action a) (other_action b) = text_eq a b
same_action _ _ = false

module _ (parses : Text → Bool) where
  abbrev cidr_validate : Text → RouteCondition → Result ModelError (Unit {0})
  cidr_validate id c = elim c.kind [
    | cond_cidr ↦ for_each (λ v. fail_if (not (parses (trim_space v))) (invalid_cidr id)) c.values
    | _ ↦ ok tt
  ]

-- The checks on the fallback: it answers for whichever half of the rule names an exit.
unfoldable pub fallback_validate : RoutePolicy → Result ModelError (Unit {0})
fallback_validate p =
    if is_exit_action p.action || is_exit_action p.others_action
    then (do
      fail_if (not (is_unset_fallback p.fallback_kind) && not (fallback_valid p.fallback_kind))
          (invalid_fallback p.id)
      fail_if (is_exit_fallback p.fallback_kind && blank p.fallback_exit_id)
          (fallback_exit_required p.id)
      fail_if
          (is_exit_fallback p.fallback_kind
            && is_exit_action p.action
            && text_eq p.fallback_exit_id p.exit_node_id)
          (fallback_is_the_exit p.id))
    else fail_if (not (is_unset_fallback p.fallback_kind)) (fallback_without_exit p.id)

-- The checks on the half for everyone else.
unfoldable pub others_validate : RoutePolicy → Result ModelError (Unit {0})
unfolding same_action
others_validate p = if is_unset_action p.others_action then ok tt else do
  fail_if (not (action_valid p.others_action)) (invalid_others_action p.id)
  fail_if (blank p.applies_to_group_id) (others_need_group p.id)
  fail_if (is_exit_action p.others_action && blank p.others_exit_id) (others_exit_required p.id)
  fail_if
      (same_action p.others_action p.action
        && (not (is_exit_action p.others_action) || text_eq p.others_exit_id p.exit_node_id))
      (nothing_reserved p.id)

module _ (parses : Text → Bool) where
  -- RoutePolicy.Validate
  unfoldable pub policy_validate : RoutePolicy → Result ModelError (Unit {0})
  policy_validate p = do
    fail_if (blank p.id) policy_id_required
    fail_if (not (tier_valid p.tier)) (invalid_tier p.id)
    fail_if (not (action_valid p.action)) (invalid_action p.id)
    fail_if (not (has_match p)) (match_required p.id)
    conditions_validate p.id true p.conditions
    fail_if (leads_with_except p.conditions) (leading_exclusion p.id)
    for_each (cidr_validate parses p.id) (policy_match p)
    fail_if (is_exit_action p.action && blank p.exit_node_id) (exit_node_required p.id)
    fallback_validate p
    others_validate p
