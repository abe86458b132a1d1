-- ===== src/Scenarios.antt =====
-- A small panel state, and the connection of one of its clients, on which the theorems are run.
mod Modelled
mod Admitted
mod Built
mod Delivered
mod Hosted
mod Moved
mod Reconciled
mod Routed
mod Shared
mod Watched
use trust_panel.Prelude.{ℕ, Bool, true, false, Option, none, some, List, [], ◌∷◌, Text, codes}
use trust_panel.Prelude.Int.{ℤ, pos}
use trust_panel.Model.Node.{
  Node, Group, User, ControlPlane, PublicRole, entry_role, exit_role, healthy, pg_none, DialIn,
  vless_reality,
}
use trust_panel.Model.Account.{AdminAccount, Role, admin, operator}
use trust_panel.Model.Policy.{
  RoutePolicy, RouteCondition, RuleTier, fleet_tier, exit_tier, action_exit, action_direct,
  action_block, action_unset, RuleAction, fallback_unset, fallback_exit, FallbackKind, cond_domain,
  cond_cidr, cond_geoip, join_and, join_or, join_except,
}
use trust_panel.Model.State.{State}

abbrev some_dial_in : DialIn
some_dial_in = record {
  proto = vless_reality;
  port = pos 443;
  uuid = codes "u";
  target_sni = codes "a.b";
  public_key = [];
  priv_key = [];
  short_id = [];
}

abbrev pub node_of : Text → PublicRole → Option DialIn → Bool → Node
node_of id role dial away = record {
  id = id;
  name = id;
  public_role = role;
  mgmt_capable = true;
  public_ips = [];
  agent_addr = [];
  health = healthy;
  last_seen_at = none;
  pg_role = pg_none;
  dial_in = dial;
  limits = none;
  billing = none;
  maintenance = away;
  managed_services = [];
  owner_id = [];
  created_at = 0;
  updated_at = 0;
}

abbrev pub user_of : Text → Text → Text → Bool → User
user_of id group owner enabled = record {
  id = id;
  username = id;
  secret = [];
  display_name = id;
  enabled = enabled;
  group_id = group;
  owner_id = owner;
  expires_at = none;
  expiry_alerted_for = none;
  data_limit = pos 0;
  used_traffic = pos 0;
  reset_period = [];
  used_reset_at = none;
  created_at = 0;
  updated_at = 0;
}

abbrev group_of : Text → Text → Text → Group
group_of id exit owner = record {
  id = id;
  name = id;
  default_exit_id = exit;
  owner_id = owner;
  created_at = 0;
  updated_at = 0;
}

abbrev pub policy_of :
    Text → RuleTier → ℕ → Text → List RouteCondition → RuleAction → Text → RoutePolicy
policy_of id tier rank owner conds action exit = record {
  id = id;
  name = id;
  priority = pos rank;
  tier = tier;
  applies_to_group_id = [];
  match_domains = [];
  match_cidrs = [];
  match_geoip = [];
  match_geosite = [];
  exclude_domains = [];
  action = action;
  exit_node_id = exit;
  fallback_kind = fallback_unset;
  fallback_exit_id = [];
  conditions = conds;
  others_action = action_unset;
  others_exit_id = [];
  disabled = false;
  owner_id = owner;
  created_at = 0;
  updated_at = 0;
}

abbrev pub of_domain : RouteCondition
of_domain = record { join = join_and; kind = cond_domain; values = codes "x.y" ∷ [] }

abbrev pub but_not_domain : RouteCondition
but_not_domain = record { join = join_except; kind = cond_domain; values = codes "z" ∷ [] }

-- A fleet rule that refuses a domain, and a rule of a namespace by the exit that is out of
-- rotation, with the other exit as its fallback.
abbrev pub refuse_domain : RoutePolicy
refuse_domain =
    policy_of (codes "p") fleet_tier 0 [] (of_domain ∷ but_not_domain ∷ []) action_block []

abbrev pub by_the_exit : RoutePolicy
by_the_exit =
    record (policy_of (codes "q") exit_tier 5 (codes "me")
      (record { join = join_and; kind = cond_domain; values = codes "c" ∷ [] } ∷ []) action_exit
      (codes "off")) { fallback_kind = fallback_exit; fallback_exit_id = codes "on" }

abbrev pub alice : User
alice = user_of (codes "al") (codes "g") (codes "me") true

abbrev pub bob : User
bob = user_of (codes "bo") (codes "h") (codes "us") true

abbrev pub sample : State
sample = record {
  control_plane = record {
    active_node_id = codes "e";
    epoch = 1;
    standby_node_ids = [];
    updated_at = 0;
  };
  nodes =
      node_of (codes "e") entry_role none false
      ∷ node_of (codes "on") exit_role (some some_dial_in) false
      ∷ node_of (codes "off") exit_role (some some_dial_in) true
      ∷ [];
  groups =
      group_of (codes "g") (codes "on") (codes "me") ∷ group_of (codes "h") [] (codes "us") ∷ [];
  users = bob ∷ alice ∷ [];
  route_policies = by_the_exit ∷ refuse_domain ∷ [];
  domains = [];
}

abbrev pub an_operator : AdminAccount
an_operator = record {
  username = codes "op";
  password_hash = [];
  role = operator;
  namespace_id = codes "me";
  telegram_id = none;
  alert_chat_id = [];
  locale = [];
  created_at = 0;
  updated_at = 0;
}
