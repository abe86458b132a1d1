-- ===== src/Model/Policy.antt =====
-- model/model.go: route policies, the conditions of their match, and the tree that a condition
-- list folds into.
pub mod Validate
pub mod Reading
use trust_panel.Prelude.{
  ℕ, ◌+◌, ◌≡◌, Bool, true, false, not, ◌&&◌, ◌||◌, Option, none, some, List, [], ◌∷◌, ◌++◌, ltb,
  if◌then◌else◌, Text, text_eq, trim_space, is_empty,
}
use trust_panel.Prelude.Int.{ℤ}
use trust_panel.Model.Node.{Instant, ModelError}

pub data RuleTier : Type 0 where
  fleet_tier exit_tier : RuleTier
  other_tier : Text → RuleTier

-- RuleAction. `action_unset` is the empty text.
pub data RuleAction : Type 0 where
  action_unset action_exit action_direct action_block : RuleAction
  other_action : Text → RuleAction

-- FallbackKind. `fallback_unset` is the empty text.
pub data FallbackKind : Type 0 where
  fallback_unset fallback_block fallback_direct fallback_exit : FallbackKind
  other_fallback : Text → FallbackKind

pub data CondKind : Type 0 where
  cond_domain cond_geoip cond_geosite cond_cidr : CondKind
  other_kind : Text → CondKind

-- The words that join a condition to what stands above it; `other_join` is any other text.
pub data Join : Type 0 where
  join_and join_or join_except : Join
  other_join : Text → Join

pub record RouteCondition : Type 0 where
  pub join : Join
  pub kind : CondKind
  pub values : List Text

pub record RoutePolicy : Type 0 where
  pub id : Text
  pub name : Text
  pub priority : ℤ
  pub tier : RuleTier
  pub applies_to_group_id : Text
  pub match_domains : List Text
  pub match_cidrs : List Text
  pub match_geoip : List Text
  pub match_geosite : List Text
  pub exclude_domains : List Text
  pub action : RuleAction
  pub exit_node_id : Text
  pub fallback_kind : FallbackKind
  pub fallback_exit_id : Text
  pub conditions : List RouteCondition
  pub others_action : RuleAction
  pub others_exit_id : Text
  pub disabled : Bool
  pub owner_id : Text
  pub created_at : Instant
  pub updated_at : Instant

-- RuleTier.Valid, RuleAction.Valid, FallbackKind.Valid
abbrev pub tier_valid : RuleTier → Bool
tier_valid fleet_tier = true
tier_valid exit_tier = true
tier_valid (other_tier _) = false

abbrev pub action_valid : RuleAction → Bool
action_valid action_exit = true
action_valid action_direct = true
action_valid action_block = true
action_valid action_unset = false
action_valid (other_action _) = false

abbrev pub fallback_valid : FallbackKind → Bool
fallback_valid fallback_block = true
fallback_valid fallback_direct = true
fallback_valid fallback_exit = true
fallback_valid fallback_unset = false
fallback_valid (other_fallback _) = false

-- `== ActionExit`, `== ""` and the like.
abbrev pub is_exit_action : RuleAction → Bool
is_exit_action a = elim a [ action_exit ↦ true | _ ↦ false ]

abbrev pub is_unset_action : RuleAction → Bool
is_unset_action a = elim a [ action_unset ↦ true | _ ↦ false ]

abbrev pub is_exit_fallback : FallbackKind → Bool
is_exit_fallback f = elim f [ fallback_exit ↦ true | _ ↦ false ]

abbrev pub is_unset_fallback : FallbackKind → Bool
is_unset_fallback f = elim f [ fallback_unset ↦ true | _ ↦ false ]

abbrev pub is_except : Join → Bool
is_except j = elim j [ join_except ↦ true | _ ↦ false ]

abbrev pub is_fleet_tier : RuleTier → Bool
is_fleet_tier t = elim t [ fleet_tier ↦ true | _ ↦ false ]

abbrev pub is_exit_tier : RuleTier → Bool
is_exit_tier t = elim t [ exit_tier ↦ true | _ ↦ false ]

-- cleanValues
unfoldable pub clean_values : List Text → List Text
clean_values [] = []
clean_values (v ∷ vs) =
    let t = trim_space v in let rest = clean_values vs in if is_empty t then rest else t ∷ rest

-- The closure `add` of LegacyConditions: a blank list adds nothing, and the first condition's join
-- is `and`.
unfoldable pub add_condition :
    List RouteCondition → Join → CondKind → List Text → List RouteCondition
add_condition out j k [] = out
add_condition [] j k (v ∷ vs) = record { join = join_and; kind = k; values = v ∷ vs } ∷ []
add_condition (c ∷ out) j k (v ∷ vs) =
    (c ∷ out) ++ record { join = j; kind = k; values = v ∷ vs } ∷ []

-- The exclusion is added only below another condition.
unfoldable pub add_exclusion : List RouteCondition → List Text → List RouteCondition
add_exclusion [] vs = []
add_exclusion (c ∷ out) [] = c ∷ out
add_exclusion (c ∷ out) (v ∷ vs) =
    (c ∷ out) ++ record { join = join_except; kind = cond_domain; values = v ∷ vs } ∷ []

-- LegacyConditions
unfoldable pub legacy_conditions : RoutePolicy → List RouteCondition
unfolding add_condition add_exclusion
legacy_conditions p =
    let a = add_condition [] join_and cond_geoip (clean_values p.match_geoip) in
    let b = add_condition a join_or cond_geosite (clean_values p.match_geosite) in
    let c = add_condition b join_and cond_domain (clean_values p.match_domains) in
    let d = add_condition c join_and cond_cidr (clean_values p.match_cidrs) in
    add_exclusion d (clean_values p.exclude_domains)

abbrev non_empty_or {ℓ} : {A : Type ℓ} → List A → List A → List A
non_empty_or [] ys = ys
non_empty_or (x ∷ xs) ys = x ∷ xs

-- RoutePolicy.Match
unfoldable pub policy_match : RoutePolicy → List RouteCondition
policy_match p = non_empty_or p.conditions (legacy_conditions p)

-- RoutePolicy.HasMatch
abbrev pub has_match : RoutePolicy → Bool
has_match p = elim (policy_match p) [ [] ↦ false | _ ∷ _ ↦ true ]

pub data Op : Type 0 where
  op_and op_or op_except : Op

-- MatchNode: a condition, or two nodes with the word that joins them.
pub data MatchNode : Type 0 where
  leaf : RouteCondition → MatchNode
  node : Op → MatchNode → MatchNode → MatchNode

-- MatchNode.IsCond
abbrev pub is_cond : MatchNode → Bool
is_cond (leaf _) = true
is_cond (node _ _ _) = false

-- Any join but `or` and `except` reads as `and`.
abbrev pub join_op : Join → Op
join_op join_or = op_or
join_op join_except = op_except
join_op join_and = op_and
join_op (other_join _) = op_and

-- One round of the loop of MatchTree, with its index and its accumulator.
abbrev match_step : ℕ → Option MatchNode → RouteCondition → Option MatchNode
match_step i none c = if ltb 0 i && is_except c.join then none else some (leaf c)
match_step i (some acc) c = some (node (join_op c.join) acc (leaf c))

match_loop : ℕ → Option MatchNode → List RouteCondition → Option MatchNode
match_loop i acc [] = acc
match_loop i acc (c ∷ cs) = match_loop (i + 1) (match_step i acc c) cs

-- MatchTree
unfoldable pub match_tree : List RouteCondition → Option MatchNode
unfolding match_loop
match_tree conds = match_loop 0 none conds

-- ExitRefs, and ExitRefs.Any
pub record ExitRefs : Type 0 where
  pub action : Bool
  pub others : Bool
  pub fallback : Bool

abbrev pub names_any : ExitRefs → Bool
names_any r = r.action || r.others || r.fallback

-- RoutePolicy.NamesExit
unfoldable pub names_exit : RoutePolicy → Text → ExitRefs
names_exit p node_id =
    if is_empty node_id || p.disabled
    then record { action = false; others = false; fallback = false }
    else record {
      action = is_exit_action p.action && text_eq p.exit_node_id node_id;
      others = is_exit_action p.others_action && text_eq p.others_exit_id node_id;
      fallback = is_exit_fallback p.fallback_kind && text_eq p.fallback_exit_id node_id;
    }
