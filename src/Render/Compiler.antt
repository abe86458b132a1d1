-- ===== src/Render/Compiler.antt =====
-- render/singbox.go: entryCompiler, from the rules of the state to the rule list of an entry node.
use trust_panel.Prelude.{
  Bool, true, false, not, ◌&&◌, ◌||◌, Option, none, some, List, [], ◌∷◌, ◌++◌, map, any, filter,
  foldr, if◌then◌else◌, Text, codes, text_eq, text_lt, is_empty, has_prefix,
}
use trust_panel.Model.Node.{Group, User, exit_direct}
use trust_panel.Model.Policy.{
  RoutePolicy, RuleTier, RuleAction, action_unset, action_exit, action_direct, action_block,
  other_action, fallback_exit, fallback_block, is_unset_action, is_fleet_tier, is_exit_tier,
}
use trust_panel.Model.Order.{sort_policies}
use trust_panel.Model.State.{State, node_by_id}
use trust_panel.Render.Netip.{Netip}
use trust_panel.Render.Config.{
  SbMatch, SbRule, flat, logical, inverted, no_matchers, non_empty, route, reject, resolve, sniff,
}
use trust_panel.Render.Matching.{
  exit_out, falls_back, both_out, refuses, Effect, need_exit, resolve_user, resolve_everyone,
  warn_once, Emit, ◌>>=◌, pure, compile_match,
}

-- policiesByTier, for a tier given by its test.
unfoldable pub policies_by_tier : List RoutePolicy → (RuleTier → Bool) → List RoutePolicy
policies_by_tier ps tier = sort_policies (filter (λ p. not p.disabled && tier p.tier) ps)

-- `membership` and `ownerMembers` of renderEntry: the usernames of the active users of one group or
-- one namespace, in their order.
unfoldable pub members : List User → Text → List Text
members active gid = map (λ u. u.username) (filter (λ u. text_eq u.group_id gid) active)

unfoldable pub owner_members : List User → Text → List Text
owner_members active owner = map (λ u. u.username) (filter (λ u. text_eq u.owner_id owner) active)

-- entryCompiler.drained, and the simulator's drainedExit
unfoldable pub drained : State → Text → Bool
drained s exit_id = elim (node_by_id s exit_id) [ none ↦ false | some n ↦ n.maintenance ]

abbrev pub exit_tag : Text → Text
exit_tag node_id = codes "exit-" ++ node_id

-- entryCompiler.resolveExit
unfoldable pub resolve_exit : State → Text → Emit Text
resolve_exit s exit_id =
    if drained s exit_id
    then (exit_direct, warn_once exit_id (exit_out exit_id) ∷ [])
    else (exit_tag exit_id, need_exit exit_id ∷ [])

abbrev pub out_by : Emit Text → Emit (Option Text)
out_by m = m >>= λ tag. pure (some tag)

-- entryCompiler.policyExit; `none` is a refusal. `half` is the empty text or "everyone else".
unfoldable pub policy_exit : State → RoutePolicy → Text → Text → Emit (Option Text)
policy_exit s p half exit_id =
    let key = codes "policy:" ++ (p.id ++ (codes ":" ++ half)) in
    if not (drained s exit_id) then out_by (resolve_exit s exit_id) else elim p.fallback_kind [
      | fallback_exit ↦
          if not (drained s p.fallback_exit_id)
          then (let (out, log) = out_by (resolve_exit s p.fallback_exit_id) in
              (out, warn_once key (falls_back exit_id p.name p.fallback_exit_id) ∷ log))
          else (none, warn_once key (both_out exit_id p.fallback_exit_id p.name) ∷ [])
      | fallback_block ↦ (none, warn_once key (refuses exit_id p.name) ∷ [])
      | _ ↦ out_by (resolve_exit s exit_id)
    ]

-- The rule that one half of a policy becomes, once its matcher is there.
abbrev pub exit_rule : SbMatch → Option Text → SbRule
exit_rule m none = record { matcher = m; action = reject; outbound = [] }
exit_rule m (some tag) = record { matcher = m; action = route; outbound = tag }

abbrev pub direct_rule : SbMatch → SbRule
direct_rule m = record { matcher = m; action = route; outbound = exit_direct }

abbrev pub reject_rule : SbMatch → SbRule
reject_rule m = record { matcher = m; action = reject; outbound = [] }

-- The switch on the action in compilePolicy: an action it does not know sets nothing.
abbrev pub action_rule : State → RoutePolicy → SbMatch → RuleAction → Emit SbRule
action_rule s p m action_direct = pure (direct_rule m)
action_rule s p m action_block = pure (reject_rule m)
action_rule s p m action_exit = do out ← policy_exit s p [] p.exit_node_id; pure (exit_rule m out)
action_rule s p m action_unset = pure (record { matcher = m; action = route; outbound = [] })
action_rule s p m (other_action _) = pure (record { matcher = m; action = route; outbound = [] })

-- The switch in compileReservation: what is neither direct nor an exit is refused.
abbrev pub others_rule : State → RoutePolicy → SbMatch → RuleAction → Emit SbRule
others_rule s p m action_direct = pure (direct_rule m)
others_rule s p m action_exit = do
  out ← policy_exit s p (codes "everyone else") p.others_exit_id
  pure (exit_rule m out)
others_rule s p m action_block = pure (reject_rule m)
others_rule s p m action_unset = pure (reject_rule m)
others_rule s p m (other_action _) = pure (reject_rule m)

abbrev pub under : (SbMatch → Emit SbRule) → Option SbMatch → Emit (Option SbRule)
under f none = pure none
under f (some m) = do r ← f m; pure (some r)

-- Users to scope a rule to: nobody (the rule is left out), or a list, empty for everyone.
abbrev pub some_users : List Text → Option (List Text)
some_users [] = none
some_users (u ∷ us) = some (u ∷ us)

-- Nobody to scope to is no rule; else the match is compiled, and the action put on it.
abbrev pub users_rule :
    Netip → (SbMatch → Emit SbRule) → RoutePolicy → Option (List Text) → Emit (Option SbRule)
users_rule net f p none = pure none
users_rule net f p (some users) = compile_match net p users >>= under f

module _ (net : Netip) (s : State) (active : List User) where
  -- The switch on whom compilePolicy writes a rule for.
  unfoldable pub policy_users : RoutePolicy → Option (List Text)
  policy_users p =
      if not (is_empty p.applies_to_group_id)
      then some_users (members active p.applies_to_group_id)
      else if not (is_empty p.owner_id)
      then some_users (owner_members active p.owner_id)
      else some []

  -- entryCompiler.compilePolicy
  unfoldable pub compile_policy : RoutePolicy → Emit (Option SbRule)
  compile_policy p = users_rule net (λ m. action_rule s p m p.action) p (policy_users p)

  unfoldable pub reservation_users : RoutePolicy → Option (List Text)
  reservation_users p =
      if not (is_empty p.owner_id) then some_users (owner_members active p.owner_id) else some []

  -- entryCompiler.compileReservation
  unfoldable pub compile_reservation : RoutePolicy → Emit (Option SbRule)
  compile_reservation p =
      if is_unset_action p.others_action || is_empty p.applies_to_group_id
      then pure none
      else users_rule net (λ m. others_rule s p m p.others_action) p (reservation_users p)

abbrev pub one_rule : Option SbRule → List SbRule → List SbRule
one_rule none rest = rest
one_rule (some r) rest = r ∷ rest

-- A key of a map in sorted order, once (sortedKeys).
unfoldable pub insert_key : Text → List Text → List Text
insert_key k [] = k ∷ []
insert_key k (j ∷ js) =
    let rest = insert_key k js in
    if text_eq k j then j ∷ js else if text_lt k j then k ∷ j ∷ js else j ∷ rest

unfoldable pub sorted_keys : List Text → List Text
unfolding insert_key
sorted_keys = foldr insert_key []

-- `groupByID[id]`: the last group of that id.
unfoldable pub last_group : List Group → Text → Option Group
last_group [] id = none
last_group (g ∷ gs) id = elim (last_group gs id) [
  | some h ↦ some h
  | none ↦ if text_eq g.id id then some g else none
]

abbrev pub exit_of_group : Option Group → Text
exit_of_group none = []
exit_of_group (some g) = g.default_exit_id

module _ (s : State) (active : List User) where
  -- The default route of one group that has active members.
  unfoldable pub default_rule : Text → Emit SbRule
  default_rule gid =
      let exit_id = exit_of_group (last_group s.groups gid) in
      let m = flat (record no_matchers { auth_user = members active gid }) in
      if is_empty exit_id || text_eq exit_id exit_direct then pure (direct_rule m) else (do
        out ← resolve_exit s exit_id
        pure (record { matcher = m; action = route; outbound = out }))

  unfoldable pub default_rules : List Text → Emit (List SbRule)
  default_rules [] = pure []
  default_rules (gid ∷ gids) = do r ← default_rule gid; rest ← default_rules gids; pure (r ∷ rest)

module _ (net : Netip) (s : State) (active : List User) where
  -- The closure `emit` of compileRules, for a list of policies.
  unfoldable pub emit_policies : List RoutePolicy → Emit (List SbRule)
  emit_policies [] = pure []
  emit_policies (p ∷ ps) = do
    own ← compile_policy net s active p
    others ← compile_reservation net s active p
    rest ← emit_policies ps
    pure (one_rule own (one_rule others rest))

  -- The first part of compileRules: fleet rules, then the namespaces', then the group defaults.
  unfoldable pub body_rules : Emit (List SbRule)
  body_rules = do
    fleet ← emit_policies (policies_by_tier s.route_policies is_fleet_tier)
    exit ← emit_policies (policies_by_tier s.route_policies is_exit_tier)
    defaults ← default_rules s active (sorted_keys (map (λ u. u.group_id) active))
    pure (fleet ++ (exit ++ defaults))

abbrev pub flat_needs_sniff : SbMatch → Bool
flat_needs_sniff (flat f) =
    non_empty f.domain_suffix || any (λ t. has_prefix t (codes "geosite-")) f.rule_set
flat_needs_sniff (logical _ _ _) = false
flat_needs_sniff (inverted _) = false

-- The loop over the rules' own domain suffixes and rule-sets; rules nested in them are not looked at.
unfoldable pub needs_sniff : List SbRule → Bool
needs_sniff = any (λ r. flat_needs_sniff r.matcher)

-- The users whose destinations have to be resolved, and whether everyone's have to be.
unfoldable pub resolve_users : List Effect → List Text
resolve_users [] = []
resolve_users (resolve_user u ∷ es) = u ∷ resolve_users es
resolve_users (_ ∷ es) = resolve_users es

unfoldable pub resolve_all : List Effect → Bool
resolve_all [] = false
resolve_all (resolve_everyone ∷ es) = true
resolve_all (_ ∷ es) = resolve_all es

abbrev pub sniff_rule : SbRule
sniff_rule = record { matcher = flat no_matchers; action = sniff; outbound = [] }

abbrev pub resolve_rule : List Text → SbRule
resolve_rule users = record {
  matcher = flat (record no_matchers { auth_user = users });
  action = resolve;
  outbound = [];
}

-- The resolve rule, for everyone or for the users whose rules look at addresses.
unfoldable pub resolve_first : List Effect → List SbRule → List SbRule
resolve_first log rules =
    if resolve_all log
    then resolve_rule [] ∷ rules
    else if non_empty (resolve_users log)
    then resolve_rule (sorted_keys (resolve_users log)) ∷ rules
    else rules

unfoldable pub sniff_first : Bool → List SbRule → List SbRule
sniff_first needed rules = if needed then sniff_rule ∷ rules else rules

-- entryCompiler.compileRules, with the log of what it recorded.
unfoldable pub compile_rules : Netip → State → List User → Emit (List SbRule)
unfolding sniff_first resolve_first
compile_rules net s active =
    let (rules, log) = body_rules net s active in
    (sniff_first (needs_sniff rules) (resolve_first log rules), log)
