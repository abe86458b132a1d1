-- ===== src/Render/Matching.antt =====
-- render/singbox.go: a rule's match compiled into a sing-box matcher. What the compiler records on
-- the way (exits and rule-sets that are needed, users whose destinations have to be resolved,
-- warnings) is a log of effects: its maps are sets that are only written.
use trust_panel.Prelude.{Option, none, some, List, [], ◌∷◌, ◌++◌, map, Text}
use trust_panel.Model.Policy.{
  RoutePolicy, CondKind, cond_domain, cond_cidr, cond_geoip, cond_geosite, other_kind, MatchNode,
  leaf, node, Op, op_and, op_or, op_except, match_tree, policy_match,
}
use trust_panel.Render.Netip.{
  Netip, normalize_cidr, clean_by, clean_suffixes, clean_geo, geoip_tag, geosite_tag,
}
use trust_panel.Render.Config.{
  FlatMatch, SbMatch, flat, no_matchers, join_or_rule, join_and_rule, join_except_rule, scope,
}

-- The warnings, with node ids and rule names in place of the sentences.
pub data Warning : Type 0 where
  exit_out : Text → Warning
  falls_back both_out : Text → Text → Text → Warning
  refuses : Text → Text → Warning

pub data Effect : Type 0 where
  need_exit use_rule_set resolve_user : Text → Effect
  resolve_everyone : Effect
  warn_once : Text → Warning → Effect

abbrev pub Emit {ℓ} : Type ℓ → Type ℓ
Emit A = A × List Effect

infixl 5 ◌>>=◌
abbrev pub ◌>>=◌ : {A B : Type 0} → Emit A → (A → Emit B) → Emit B
m >>= f = ((f m.0).0, m.1 ++ (f m.0).1)

abbrev pub pure : {A : Type 0} → A → Emit A
pure a = (a, [])

abbrev pub resolve_effects : List Text → List Effect
resolve_effects [] = resolve_everyone ∷ []
resolve_effects (u ∷ us) = map resolve_user (u ∷ us)

-- A condition whose values are all blank gives no rule.
abbrev pub usable : FlatMatch → List Text → List Effect → List Effect → Emit (Option SbMatch)
usable f [] always found = (none, always)
usable f (v ∷ vs) always found = (some (flat f), always ++ found)

module _ (net : Netip) where
  -- entryCompiler.conditionRule
  unfoldable pub condition_rule : CondKind → List Text → List Text → Emit (Option SbMatch)
  condition_rule cond_domain values users =
      let ds = clean_suffixes values in usable (record no_matchers { domain_suffix = ds }) ds [] []
  condition_rule cond_cidr values users =
      let ns = clean_by (normalize_cidr net) values in
      usable (record no_matchers { ip_cidr = ns }) ns [] (resolve_effects users)
  condition_rule cond_geoip values users =
      let tags = map geoip_tag (clean_by clean_geo values) in
      usable (record no_matchers { rule_set = tags }) tags (map use_rule_set tags)
        (resolve_effects users)
  condition_rule cond_geosite values users =
      let tags = map geosite_tag (clean_by clean_geo values) in
      usable (record no_matchers { rule_set = tags }) tags (map use_rule_set tags) []
  condition_rule (other_kind _) values users = (none, [])

-- The switch of nodeRule on what its two sides compiled to.
abbrev pub join_rules : Op → Option SbMatch → Option SbMatch → Option SbMatch
join_rules op none none = none
join_rules op_except none (some r) = none
join_rules op_and none (some r) = some r
join_rules op_or none (some r) = some r
join_rules op (some l) none = some l
join_rules op_or (some l) (some r) = some (join_or_rule l r)
join_rules op_except (some l) (some r) = some (join_except_rule l r)
join_rules op_and (some l) (some r) = some (join_and_rule l r)

abbrev pub scoped : Option SbMatch → List Text → Option SbMatch
scoped none users = none
scoped (some m) users = some (scope m users)

module _ (net : Netip) where
  -- entryCompiler.nodeRule
  unfoldable pub node_rule : MatchNode → List Text → Emit (Option SbMatch)
  node_rule (leaf c) users = condition_rule net c.kind c.values users
  node_rule (node op l r) users = do
    a ← node_rule l users
    b ← node_rule r users
    pure (join_rules op a b)

  -- compileMatch, once the conditions are folded: no tree is no rule.
  abbrev pub tree_rule : Option MatchNode → List Text → Emit (Option SbMatch)
  tree_rule none users = (none, [])
  tree_rule (some tree) users = do m ← node_rule tree users; pure (scoped m users)

  -- entryCompiler.compileMatch
  unfoldable pub compile_match : RoutePolicy → List Text → Emit (Option SbMatch)
  compile_match p users = tree_rule (match_tree (policy_match p)) users
