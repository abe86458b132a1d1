-- ===== src/Model/State/Sound.antt =====
-- A state that passes State.Validate is sound: the statement, over the whole state.
use trust_panel.Prelude.{
  ◌≡◌, ◌⊎◌, inl, inr, Bool, true, false, ◌&&◌, List, [], ◌∷◌, map, any, All, arith, Text, text_eq,
  is_empty, Bool-cases,
}
use trust_panel.Prelude.Result.{ok, for_each-ok, then-ok, >>=-ok}
use trust_panel.Model.Node.{Node, User}
use trust_panel.Model.Policy.{RoutePolicy, is_exit_action, is_exit_fallback}
use trust_panel.Model.State.{
  State, validate_nodes, validate_groups, validate_policy, validate, validate_users,
}
use trust_panel.Model.State.References.{
  NamesExitNode, NamesGroup, Distinct, DefaultExitIsSound, exit_id-names, validate_nodes-keys,
  validate_groups_sound, validate_groups-seen, validate_users_sound, empty-nil,
}

-- What a rule refers to: its group, if it names one; its exit, if it sends traffic to one; and
-- then its fallback, if that is an exit too.
pub record PolicyIsSound (s : State) (p : RoutePolicy) : Type 0 where
  pub group : (p.applies_to_group_id ≡ []) ⊎ NamesGroup s.groups p.applies_to_group_id
  pub exit : (is_exit_action p.action ≡ false) ⊎ NamesExitNode s.nodes p.exit_node_id
  pub fallback :
      ((is_exit_action p.action && is_exit_fallback p.fallback_kind) ≡ false)
      ⊎ NamesExitNode s.nodes p.fallback_exit_id

pub record IsSound (s : State) : Type 0 where
  pub node_ids : Distinct (map (λ n. n.id) s.nodes)
  pub group_ids : Distinct (map (λ g. g.id) s.groups)
  pub usernames : Distinct (map (λ u. u.username) s.users)
  pub default_exits : All (DefaultExitIsSound s.nodes) s.groups
  pub memberships : All (λ u. NamesGroup s.groups u.group_id) s.users
  pub policies : All (PolicyIsSound s) s.route_policies

module _ (s : State) (nodes : List Node) (groups : List Text)
    (checked : validate_nodes [] s.nodes ≡ ok nodes)
    (grouped : validate_groups nodes [] s.groups ≡ ok groups) where
  names_group : (id : Text) → any (text_eq id) groups ≡ true → NamesGroup s.groups id
  names_group id h = elim (validate_groups-seen nodes [] s.groups groups id grouped h) [
    | inl e ↦ absurd (cc e)
    | inr k ↦ k
  ]

  memberships_of :
      (us : List User)
      → All (λ u. any (text_eq u.group_id) groups ≡ true) us
      → All (λ u. NamesGroup s.groups u.group_id) us
  memberships_of [] h = tt
  memberships_of (u ∷ us) (h, hs) = (names_group u.group_id h, memberships_of us hs)

  policy_sound :
      (parses : Text → Bool) (p : RoutePolicy)
      → validate_policy parses nodes groups p ≡ ok tt
      → PolicyIsSound s p
  unfolding validate_policy
  policy_sound parses p h = record {
    group = elim (Bool-cases (is_empty p.applies_to_group_id)) [
      | inl e ↦ inl (empty-nil p.applies_to_group_id e)
      | inr e ↦ inr (names_group p.applies_to_group_id (ground arith))
    ];
    exit = elim (Bool-cases (is_exit_action p.action)) [
      | inl e ↦ inr (exit_id-names s.nodes nodes p.exit_node_id checked (ground arith))
      | inr e ↦ inl e
    ];
    fallback = elim (Bool-cases (is_exit_action p.action && is_exit_fallback p.fallback_kind)) [
      | inl e ↦ inr (exit_id-names s.nodes nodes p.fallback_exit_id checked (ground arith))
      | inr e ↦ inl e
    ];
  }

  policies_of :
      (parses : Text → Bool) (ps : List RoutePolicy)
      → All (λ p. validate_policy parses nodes groups p ≡ ok tt) ps
      → All (PolicyIsSound s) ps
  policies_of parses [] h = tt
  policies_of parses (p ∷ ps) (h, hs) = (policy_sound parses p h, policies_of parses ps hs)

-- Inversion of the chain of four loops.
pub validate_parts :
    (parses : Text → Bool) (s : State)
    → validate parses s ≡ ok tt
    → (nodes : List Node) × (groups : List Text) × (validate_nodes [] s.nodes ≡ ok nodes)
      × (validate_groups nodes [] s.groups ≡ ok groups)
      × (validate_users groups [] s.users ≡ ok tt)
      × All (λ p. validate_policy parses nodes groups p ≡ ok tt) s.route_policies
unfolding validate
validate_parts parses s h =
    let (nodes, checked, h1) = >>=-ok (validate_nodes [] s.nodes) _ h in
    let (groups, grouped, h2) = >>=-ok (validate_groups nodes [] s.groups) _ h1 in
    let (used, h3) = then-ok (validate_users groups [] s.users) _ h2 in
    (
      nodes,
      groups,
      checked,
      grouped,
      used,
      for_each-ok (validate_policy parses nodes groups) s.route_policies h3,
    )

-- In a state that Validate accepts, node ids, group ids and usernames are unique, each user's group
-- exists, each group's default exit is unset, direct or an exit node, and each rule's group exists,
-- and its exit and fallback exit are exit nodes as far as the rule's own action uses them. Nothing is
-- said of the exits that a rule has for everyone else.
pub validate-IsSound : (parses : Text → Bool) (s : State) → validate parses s ≡ ok tt → IsSound s
validate-IsSound parses s h =
    let (nodes, groups, checked, grouped, used, ruled) = validate_parts parses s h in
    let (sounds, (_, ids)) =
      validate_groups_sound s.nodes nodes checked [] s.groups groups grouped in
    let (known, (_, names)) = validate_users_sound groups [] s.users used in
    record {
      node_ids = (validate_nodes-keys [] s.nodes nodes checked).1;
      group_ids = ids;
      usernames = names;
      default_exits = sounds;
      memberships = memberships_of s nodes groups checked grouped s.users known;
      policies = policies_of s nodes groups checked grouped parses s.route_policies ruled;
    }
