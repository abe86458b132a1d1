-- ===== src/Authz.antt =====
-- internal/core/authz/authz.go: the one place where the namespace rule is enforced, for reads
-- (ScopeState) and for writes (the Can* gates).
pub mod Isolation
use trust_panel.Prelude.{
  ℕ, ◌+◌, Bool, true, false, not, ◌&&◌, ◌||◌, List, [], ◌∷◌, filter, if◌then◌else◌, Text, text_eq,
}
use trust_panel.Model.Node.{Node, User, Group, ControlPlane}
use trust_panel.Model.Account.{
  AdminAccount, account_can_manage_infra, is_bootstrap_owner, namespace,
}
use trust_panel.Model.Policy.{RoutePolicy, is_fleet_tier}
use trust_panel.Model.State.{State}

abbrev pub no_control_plane : ControlPlane
no_control_plane = record { active_node_id = []; epoch = 0; standby_node_ids = []; updated_at = 0 }

-- filterUsers, filterGroups, filterPolicies
unfoldable pub filter_users : List User → Text → List User
filter_users us owner = filter (λ u. text_eq u.owner_id owner) us

unfoldable pub filter_groups : List Group → Text → List Group
filter_groups gs owner = filter (λ g. text_eq g.owner_id owner) gs

unfoldable pub filter_policies : List RoutePolicy → Text → List RoutePolicy
filter_policies ps owner = filter (λ p. is_fleet_tier p.tier || text_eq p.owner_id owner) ps

-- ScopeStateView
unfoldable pub scope_state_view : State → AdminAccount → Bool → State
unfolding filter_users filter_groups filter_policies
scope_state_view st acct see_all =
    let me = namespace acct in
    let out = record st {
      users = filter_users st.users me;
      groups = filter_groups st.groups me;
      route_policies = filter_policies st.route_policies me;
    } in
    if is_bootstrap_owner acct && see_all
    then st
    else if account_can_manage_infra acct
    then out
    else record out { nodes = []; domains = []; control_plane = no_control_plane }

-- ScopeState
unfoldable pub scope_state : State → AdminAccount → State
unfolding scope_state_view
scope_state st acct = scope_state_view st acct true

pub record Aggregate : Type 0 where
  pub other_users : ℕ
  pub any_online : Bool

-- The loop of OthersAggregateView.
unfoldable pub count_others : Text → Aggregate → List User → Aggregate
count_others me agg [] = agg
count_others me agg (u ∷ us) =
    count_others me
      (if text_eq u.owner_id me
        then agg
        else record { other_users = agg.other_users + 1; any_online = u.enabled || agg.any_online })
      us

-- OthersAggregateView
unfoldable pub others_aggregate_view : State → AdminAccount → Bool → Aggregate
unfolding count_others
others_aggregate_view st acct see_all =
    let none_yet : Aggregate = record { other_users = 0; any_online = false } in
    if is_bootstrap_owner acct && see_all
    then none_yet
    else count_others (namespace acct) none_yet st.users

-- OthersAggregate
unfoldable pub others_aggregate : State → AdminAccount → Aggregate
unfolding others_aggregate_view
others_aggregate st acct = others_aggregate_view st acct true

-- CanManageInfra
abbrev pub can_manage_infra : AdminAccount → Bool
can_manage_infra acct = account_can_manage_infra acct

-- CanWriteOwned
unfoldable pub can_write_owned : AdminAccount → Text → Bool
can_write_owned acct owner_id =
    if is_bootstrap_owner acct then true else text_eq owner_id (namespace acct)

-- CanManageMembers
unfoldable pub can_manage_members : AdminAccount → Text → Bool
can_manage_members acct target_ns = is_bootstrap_owner acct

-- CanWritePolicy
unfoldable pub can_write_policy : AdminAccount → RoutePolicy → Bool
unfolding can_write_owned
can_write_policy acct p =
    if is_fleet_tier p.tier then can_manage_infra acct else can_write_owned acct p.owner_id

-- CanWriteNode
unfoldable pub can_write_node : AdminAccount → Node → Bool
can_write_node acct n = can_manage_infra acct

-- CanWriteDomain
unfoldable pub can_write_domain : AdminAccount → Node → Bool
unfolding can_write_node
can_write_domain acct host_node = can_write_node acct host_node
