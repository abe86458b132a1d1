-- ===== src/Render/Simulator.antt =====
-- render/routesim.go: the route tester. Its sentences (egress, decided_by, reason, detail, the
-- labels of the trace) are not modelled; its decision, its exit, its trace of rules and its
-- warnings are.
use trust_panel.Prelude.{
  Bool, true, false, not, ◌&&◌, ◌||◌, Option, none, some, List, [], ◌∷◌, ◌++◌, any, if◌then◌else◌,
  Text, codes, text_eq, trim_space, to_lower, is_empty, has_suffix, trim_suffix_dot,
}
use trust_panel.Model.Node.{Group}
use trust_panel.Model.Policy.{
  RoutePolicy, RuleAction, action_unset, action_exit, action_direct, action_block, other_action,
  fallback_exit, fallback_block, is_unset_action, is_fleet_tier, is_exit_tier, CondKind,
  cond_domain, cond_cidr, cond_geoip, cond_geosite, other_kind, MatchNode, leaf, node, match_tree,
  policy_match,
}
use trust_panel.Model.Policy.Reading.{combine}
use trust_panel.Model.State.{State}
use trust_panel.Render.Netip.{Netip, normalize_cidr, clean_suffixes, clean_geo}
use trust_panel.Render.Compiler.{policies_by_tier, drained, exit_of_group}

-- GeoMatcher, in which `none` is an error.
pub record GeoMatcher (Addr : Type 0) : Type 0 where
  pub geo_ip : Text → Addr → Option Bool
  pub geo_site : Text → Text → Option Bool

pub data Decision : Type 0 where
  undecided by_exit by_direct by_block : Decision

-- The warnings, with node ids and rule names in place of the sentences.
pub data SimWarning : Type 0 where
  unevaluated : Text → SimWarning
  sim_falls_back sim_both_out : Text → Text → Text → SimWarning
  sim_refuses : Text → Text → SimWarning
  leaves_directly : Text → SimWarning

same_warning : SimWarning → SimWarning → Bool
same_warning (unevaluated a) (unevaluated b) = text_eq a b
same_warning (sim_falls_back a b c) (sim_falls_back d e f) =
    text_eq a d && text_eq b e && text_eq c f
same_warning (sim_both_out a b c) (sim_both_out d e f) = text_eq a d && text_eq b e && text_eq c f
same_warning (sim_refuses a b) (sim_refuses c d) = text_eq a c && text_eq b d
same_warning (leaves_directly a) (leaves_directly b) = text_eq a b
same_warning _ _ = false

pub data Stage : Type 0 where
  stage_fleet stage_exit stage_group_default : Stage

-- One line of the trace: the rule's id, or nothing for the group's own exit.
pub record SimStep : Type 0 where
  pub stage : Stage
  pub rule : Option Text
  pub action : RuleAction
  pub matched : Bool

pub record SimResult (Addr : Type 0) : Type 0 where
  pub target_is_ip : Bool
  pub resolved_ips : List Addr
  pub decision : Decision
  pub exit_node_id : Text
  pub trace : List SimStep
  pub warnings : List SimWarning

module _ {Addr : Type 0} where
  -- SimResult.Warn: the same warning is said once.
  unfoldable pub warn : SimResult Addr → SimWarning → SimResult Addr
  unfolding same_warning
  warn r w =
      if any (same_warning w) r.warnings then r else record r { warnings = r.warnings ++ w ∷ [] }

  abbrev pub add_step : SimResult Addr → SimStep → SimResult Addr
  add_step r st = record r { trace = r.trace ++ st ∷ [] }

-- suffixMatchAny
unfoldable pub suffix_match_any : Text → List Text → Bool
suffix_match_any domain suffixes =
    any (λ s. text_eq domain s || has_suffix domain (codes "." ++ s)) suffixes

module _ (net : Netip) where
  open net use {Addr, parse_prefix, contains}

  -- The inner part of ipInAnyCIDR, for one text.
  unfoldable pub ip_in_cidr : List Addr → Text → Bool
  ip_in_cidr ips raw =
      let norm = normalize_cidr net raw in
      elim (parse_prefix norm) [
        | none ↦ false
        | some prefix ↦ not (is_empty norm) && any (λ ip. contains prefix ip) ips
      ]

  -- ipInAnyCIDR
  unfoldable pub ip_in_any_cidr : List Addr → List Text → Bool
  ip_in_any_cidr ips cidrs = any (ip_in_cidr ips) cidrs

-- A lookup that may not have been possible: whether it hit, and whether one was not evaluated.
abbrev pub Lookup : Type 0
Lookup = Bool × Bool

-- One lookup more: an error is noted, a hit ends the loop, so that nothing after it is noted.
abbrev pub lookup_step : Option Bool → Lookup → Lookup
lookup_step none rest = (rest.0, true)
lookup_step (some true) rest = (true, false)
lookup_step (some false) rest = rest

-- The lookups of one value, then those of the values behind it.
abbrev pub after : Lookup → Lookup → Lookup
after a rest = if a.0 then a else (rest.0, a.1 || rest.1)

module _ {Addr : Type 0} where
  unfoldable pub geoip_ips : (Addr → Option Bool) → List Addr → Lookup
  geoip_ips f [] = (false, false)
  geoip_ips f (ip ∷ ips) = lookup_step (f ip) (geoip_ips f ips)

  -- The loop of matchGeoIPValues over the cleaned values; without a matcher nothing is evaluated.
  unfoldable pub geoip_values : Option (GeoMatcher Addr) → List Addr → List Text → Lookup
  geoip_values geo ips [] = (false, false)
  geoip_values geo ips (v ∷ vs) =
      let rest = geoip_values geo ips vs in
      let cc = clean_geo v in
      if is_empty cc
      then rest
      else elim geo [ none ↦ (rest.0, true) | some g ↦ after (geoip_ips (g.geo_ip cc) ips) rest ]

  -- The loop of matchGeoSiteValues.
  unfoldable pub geosite_values : Option (GeoMatcher Addr) → Text → List Text → Lookup
  geosite_values geo domain [] = (false, false)
  geosite_values geo domain (v ∷ vs) =
      let rest = geosite_values geo domain vs in
      let cat = clean_geo v in
      if is_empty cat || is_empty domain
      then rest
      else elim geo [ none ↦ (rest.0, true) | some g ↦ lookup_step (g.geo_site cat domain) rest ]

  -- The end of both: no hit, and a lookup that could not be made, is a warning.
  abbrev pub note : RoutePolicy → Lookup → SimResult Addr → Bool × SimResult Addr
  note p look r =
      if look.0
      then (true, r)
      else if look.1
      then (false, warn r (unevaluated p.name))
      else (false, r)

module _ (net : Netip) (geo : Option (GeoMatcher (net.Addr))) (domain : Text)
    (ips : List (net.Addr)) where
  open net use {Addr}

  -- matchCondition
  unfoldable pub match_condition :
      RoutePolicy → CondKind → List Text → SimResult Addr → Bool × SimResult Addr
  match_condition p cond_domain values r =
      (not (is_empty domain) && suffix_match_any domain (clean_suffixes values), r)
  match_condition p cond_cidr values r = (ip_in_any_cidr net ips values, r)
  match_condition p cond_geoip values r = note p (geoip_values geo ips values) r
  match_condition p cond_geosite values r = note p (geosite_values geo domain values) r
  match_condition p (other_kind _) values r = (false, r)

  -- matchNode: both sides are always evaluated.
  unfoldable pub match_node : MatchNode → RoutePolicy → SimResult Addr → Bool × SimResult Addr
  match_node (leaf c) p r = match_condition p c.kind c.values r
  match_node (node op a b) p r =
      let (x, r1) = match_node a p r in let (y, r2) = match_node b p r1 in (combine op x y, r2)

  -- matchPolicy
  unfoldable pub match_policy : RoutePolicy → SimResult Addr → Bool × SimResult Addr
  match_policy p r = elim (match_tree (policy_match p)) [
    | none ↦ (true, r)
    | some tree ↦ match_node tree p r
  ]

module _ {Addr : Type 0} (s : State) where
  -- setExit
  unfoldable pub set_exit : SimResult Addr → Text → SimResult Addr
  set_exit r exit_id =
      if drained s exit_id
      then warn (record r { decision = by_direct; exit_node_id = [] }) (leaves_directly exit_id)
      else record r { decision = by_exit; exit_node_id = exit_id }

  abbrev refuse : SimResult Addr → SimWarning → SimResult Addr
  refuse r w = warn (record r { decision = by_block; exit_node_id = [] }) w

  -- The case ActionExit of applyAction.
  unfoldable pub apply_exit : SimResult Addr → RoutePolicy → Text → SimResult Addr
  apply_exit r p exit_id =
      if not (drained s exit_id) then set_exit r exit_id else elim p.fallback_kind [
        | fallback_exit ↦
            if not (drained s p.fallback_exit_id)
            then warn (set_exit r p.fallback_exit_id)
                (sim_falls_back exit_id p.name p.fallback_exit_id)
            else refuse r (sim_both_out exit_id p.fallback_exit_id p.name)
        | fallback_block ↦ refuse r (sim_refuses exit_id p.name)
        | _ ↦ set_exit r exit_id
      ]

  -- applyAction, for the action and the exit of the half that matched.
  unfoldable pub apply_action : SimResult Addr → RoutePolicy → RuleAction → Text → SimResult Addr
  apply_action r p action_direct exit_id = record r { decision = by_direct }
  apply_action r p action_block exit_id = record r { decision = by_block }
  apply_action r p action_exit exit_id = apply_exit r p exit_id
  apply_action r p action_unset exit_id = r
  apply_action r p (other_action _) exit_id = r

-- The group whose member asks; a group that is not there has no namespace and no exit.
unfoldable pub first_group : List Group → Text → Option Group
first_group [] id = none
first_group (g ∷ gs) id = if text_eq g.id id then some g else first_group gs id

abbrev pub owner_of_group : Option Group → Text
owner_of_group none = []
owner_of_group (some g) = g.owner_id

abbrev in_namespace : RoutePolicy → Text → Bool
in_namespace p owner = is_empty p.owner_id || text_eq p.owner_id owner

-- The closure `applies`, for a member of the group `gid` in the namespace `owner`.
unfoldable pub applies : RoutePolicy → Text → Text → Bool
applies p gid owner =
    if not (is_empty p.applies_to_group_id)
    then text_eq p.applies_to_group_id gid
    else in_namespace p owner

-- The closure `answersForOthers`.
unfoldable pub answers_for_others : RoutePolicy → Text → Text → Bool
answers_for_others p gid owner =
    if is_unset_action p.others_action
      || is_empty p.applies_to_group_id
      || text_eq p.applies_to_group_id gid
    then false
    else in_namespace p owner

module _ (net : Netip) (s : State) (geo : Option (GeoMatcher (net.Addr))) (gid : Text)
    (domain : Text) (ips : List (net.Addr)) where
  open net use {Addr}

  abbrev owner : Text
  owner = owner_of_group (first_group s.groups gid)

  -- One round of `eval`, for a half with its action and its exit: whether it decided.
  unfoldable pub eval_half :
      Stage → RoutePolicy → RuleAction → Text → SimResult Addr → Bool × SimResult Addr
  eval_half stage p action exit_id r =
      let (matched, r1) = match_policy net geo domain ips p r in
      let r2 =
        add_step r1
          (record { stage = stage; rule = some p.id; action = action; matched = matched }) in
      if matched then (true, apply_action s r2 p action exit_id) else (false, r2)

  -- The closure `eval`: the first rule that applies and matches decides.
  unfoldable pub eval : Stage → List RoutePolicy → SimResult Addr → Bool × SimResult Addr
  eval stage [] r = (false, r)
  eval stage (p ∷ ps) r = elim (applies p gid owner) [
    | true ↦
        let (done, r1) = eval_half stage p p.action p.exit_node_id r in
        elim done [ true ↦ (true, r1) | false ↦ eval stage ps r1 ]
    | false ↦ elim (answers_for_others p gid owner) [
      | true ↦
          let (done, r1) = eval_half stage p p.others_action p.others_exit_id r in
          elim done [ true ↦ (true, r1) | false ↦ eval stage ps r1 ]
      | false ↦ eval stage ps r
    ]
  ]

  -- The catch-all of the group.
  unfoldable pub group_default : SimResult Addr → SimResult Addr
  group_default r =
      let exit_id = exit_of_group (first_group s.groups gid) in
      if not (is_empty exit_id)
      then add_step (set_exit s r exit_id) (record {
        stage = stage_group_default;
        rule = none;
        action = action_exit;
        matched = true;
      })
      else add_step (record r { decision = by_direct })
          (record {
            stage = stage_group_default;
            rule = none;
            action = action_direct;
            matched = true;
          })

  -- The two stages of Simulate and its end.
  unfoldable pub decide : SimResult Addr → SimResult Addr
  decide r =
      let (by_fleet, r1) = eval stage_fleet (policies_by_tier s.route_policies is_fleet_tier) r in
      elim by_fleet [
        | true ↦ r1
        | false ↦
            let (by_rule, r2) =
              eval stage_exit (policies_by_tier s.route_policies is_exit_tier) r1 in
            elim by_rule [ true ↦ r2 | false ↦ group_default r2 ]
      ]

module _ (net : Netip) where
  open net use {Addr, parse_addr}

  abbrev pub start : Bool → List Addr → SimResult Addr
  start is_ip ips = record {
    target_is_ip = is_ip;
    resolved_ips = ips;
    decision = undecided;
    exit_node_id = [];
    trace = [];
    warnings = [];
  }

  abbrev pub non_empty_or_one : List Addr → Addr → List Addr
  non_empty_or_one [] a = a ∷ []
  non_empty_or_one (i ∷ is) a = i ∷ is

  -- The domain that a target is read as: trimmed, less a trailing dot, in lower case.
  unfoldable pub target_domain : Text → Text
  target_domain target = to_lower (trim_suffix_dot (trim_space target))

  -- How Simulate reads its target: whether it is an address, the domain (none for an address), and
  -- the addresses to look at.
  abbrev pub read_as : Option Addr → Text → List Addr → Bool × Text × List Addr
  read_as none target ips = (false, target_domain target, ips)
  read_as (some addr) target ips = (true, [], non_empty_or_one ips addr)

  abbrev pub read_target : Text → List Addr → Bool × Text × List Addr
  read_target target ips = read_as (parse_addr (trim_space target)) target ips

  -- Simulate
  unfoldable pub simulate :
      State → Text → Text → List Addr → Option (GeoMatcher Addr) → SimResult Addr
  simulate s gid target ips geo =
      let (is_ip, domain, seen) = read_target target ips in
      decide net s geo gid domain seen (start is_ip seen)
