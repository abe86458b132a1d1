-- ===== src/Model/State.antt =====
-- model/model.go: the control-plane state, its lookups, its cross-reference checks, and the active
-- users in the order they are rendered.
pub mod References
pub mod Users
pub mod Sound
use trust_panel.Prelude.{
  ℕ, ◌≡◌, Bool, true, false, not, ◌&&◌, ◌||◌, Option, none, some, List, [], ◌∷◌, any, filter,
  reverse, if◌then◌else◌, Text, text_eq, text_lt, is_empty,
}
use trust_panel.Prelude.Result.{Result, ok, err, ◌>>=◌, ◌>>◌, fail_if, for_each}
use trust_panel.Model.Node.{
  Instant, Node, Group, User, Domain, ControlPlane, ModelError, is_exit, exit_direct, node_validate,
  group_validate, user_validate, active, duplicate_node, duplicate_group, duplicate_username,
  default_exit_not_exit, user_group_missing, policy_group_missing, policy_exit_not_exit,
  policy_fallback_not_exit,
}
use trust_panel.Model.Policy.{RoutePolicy, names_exit, names_any, is_exit_action, is_exit_fallback}
use trust_panel.Model.Policy.Validate.{policy_validate}

pub record State : Type 0 where
  pub control_plane : ControlPlane
  pub nodes : List Node
  pub groups : List Group
  pub users : List User
  pub route_policies : List RoutePolicy
  pub domains : List Domain

-- State.NodeByID, on the list of nodes: the first one of that id.
unfoldable pub find_node : List Node → Text → Option Node
find_node [] id = none
find_node (n ∷ ns) id = if text_eq n.id id then some n else find_node ns id

abbrev pub node_by_id : State → Text → Option Node
node_by_id s id = find_node s.nodes id

-- State.DomainByID
unfoldable pub find_domain : List Domain → Text → Option Domain
find_domain [] id = none
find_domain (d ∷ ds) id = if text_eq d.id id then some d else find_domain ds id

-- State.PoliciesNamingExit
unfoldable pub policies_naming_exit : State → Text → List RoutePolicy
policies_naming_exit s node_id = filter (λ p. names_any (names_exit p node_id)) s.route_policies

-- The map `nodeIDs` of Validate is the list of the nodes that passed, the newest in front.
unfoldable pub validate_nodes : List Node → List Node → Result ModelError (List Node)
validate_nodes seen [] = ok seen
validate_nodes seen (n ∷ ns) =
    node_validate n
    >> fail_if (any (λ m. text_eq n.id m.id) seen) (duplicate_node n.id)
    >> validate_nodes (n ∷ seen) ns

-- `n, ok := nodeIDs[id]; ok && n.IsExit()`
unfoldable pub is_exit_id : List Node → Text → Bool
unfolding find_node
is_exit_id nodes id = elim (find_node nodes id) [ none ↦ false | some n ↦ is_exit n ]

unfoldable pub validate_groups : List Node → List Text → List Group → Result ModelError (List Text)
validate_groups nodes seen [] = ok seen
validate_groups nodes seen (g ∷ gs) =
    group_validate g
    >> fail_if (any (text_eq g.id) seen) (duplicate_group g.id)
    >> fail_if
        (not (is_empty g.default_exit_id)
          && not (text_eq g.default_exit_id exit_direct)
          && not (is_exit_id nodes g.default_exit_id))
        (default_exit_not_exit g.id)
    >> validate_groups nodes (g.id ∷ seen) gs

unfoldable pub validate_users : List Text → List Text → List User → Result ModelError (Unit {0})
validate_users groups seen [] = ok tt
validate_users groups seen (u ∷ us) =
    user_validate u
    >> fail_if (any (text_eq u.username) seen) (duplicate_username u.username)
    >> fail_if (not (any (text_eq u.group_id) groups)) (user_group_missing u.id)
    >> validate_users groups (u.username ∷ seen) us

-- One rule: its own checks, then its references. The exit of `others_action` is not looked up, nor
-- is a fallback where the rule's own action is no exit.
unfoldable pub validate_policy :
    (Text → Bool) → List Node → List Text → RoutePolicy → Result ModelError (Unit {0})
validate_policy parses nodes groups p = do
  policy_validate parses p
  fail_if (not (is_empty p.applies_to_group_id) && not (any (text_eq p.applies_to_group_id) groups))
      (policy_group_missing p.id)
  fail_if (is_exit_action p.action && not (is_exit_id nodes p.exit_node_id))
      (policy_exit_not_exit p.id)
  fail_if
      (is_exit_action p.action
        && is_exit_fallback p.fallback_kind
        && not (is_exit_id nodes p.fallback_exit_id))
      (policy_fallback_not_exit p.id)

-- State.Validate
unfoldable pub validate : (Text → Bool) → State → Result ModelError (Unit {0})
validate parses s = do
  nodes ← validate_nodes [] s.nodes
  groups ← validate_groups nodes [] s.groups
  validate_users groups [] s.users
  for_each (validate_policy parses nodes groups) s.route_policies

-- The inner loop of sortUsersByUsername: the new user sinks below every user in front of it whose
-- name is greater. `front` is the sorted part, its last user first.
sink : User → List User → List User
sink u [] = u ∷ []
sink u (v ∷ front) =
    let deeper = sink u front in if text_lt u.username v.username then v ∷ deeper else u ∷ v ∷ front

sort_loop : List User → List User → List User
sort_loop front [] = front
sort_loop front (u ∷ us) = sort_loop (sink u front) us

-- sortUsersByUsername
unfoldable pub sort_users_by_username : List User → List User
unfolding sink sort_loop
sort_users_by_username us = reverse (sort_loop [] us)

-- State.ActiveUsers
unfoldable pub active_users : State → Instant → List User
unfolding active
active_users s at = sort_users_by_username (filter (λ u. active u at) s.users)
