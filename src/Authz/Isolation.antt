-- ===== src/Authz/Isolation.antt =====
-- What an account sees of a state, what it may write, and how the two fit together.
use mathlib.Core.List.{Memᴰ}
use trust_panel.Prelude.{
  ◌+◌, ◌≡◌, refl, ◌↔◌, ◌⊎◌, inl, inr, Bool, true, false, not, ◌&&◌, ◌||◌, List, [], ◌∷◌, length,
  any, arith, Text, text_eq, text_eq_iff, if◌then◌else◌, mem-filter, mem_of_filter, Bool-cases,
}
use trust_panel.Model.Node.{User, Group}
use trust_panel.Model.Account.{AdminAccount, is_bootstrap_owner, account_can_manage_infra}
use trust_panel.Model.Policy.{RoutePolicy, fleet_tier, is_fleet_tier}
use trust_panel.Model.State.{State}
use trust_panel.Authz.{
  filter_users, filter_groups, filter_policies, scope_state_view, no_control_plane, Aggregate,
  count_others, others_aggregate_view, can_write_owned, can_write_policy,
}

-- What an account that does not see everything is shown: exactly the clients and groups of its
-- namespace, exactly the rules of its namespace and of the fleet tier, and the infrastructure as
-- it is or, for an operator, none of it.
pub record IsIsolated (st view : State) (acct : AdminAccount) : Type 0 where
  pub users : (u : User) → Memᴰ u view.users ↔ (Memᴰ u st.users × (u.owner_id ≡ acct.namespace_id))
  pub groups :
      (g : Group) → Memᴰ g view.groups ↔ (Memᴰ g st.groups × (g.owner_id ≡ acct.namespace_id))
  pub policies :
      (p : RoutePolicy)
      → Memᴰ p view.route_policies
        ↔ (Memᴰ p st.route_policies × ((p.tier ≡ fleet_tier) ⊎ (p.owner_id ≡ acct.namespace_id)))
  pub nodes : view.nodes ≡ (if account_can_manage_infra acct then st.nodes else [])
  pub domains : view.domains ≡ (if account_can_manage_infra acct then st.domains else [])
  pub control_plane :
      view.control_plane
      ≡ (if account_can_manage_infra acct then st.control_plane else no_control_plane)

either_of : (a b : Bool) → (a || b) ≡ true → (a ≡ true) ⊎ (b ≡ true)
either_of a b h = ground arith

is_fleet_tier_iff : (p : RoutePolicy) → (is_fleet_tier p.tier ≡ true) ↔ (p.tier ≡ fleet_tier)
is_fleet_tier_iff p = ground arith

module _ (st : State) (acct : AdminAccount) where
  users-scoped :
      (u : User)
      → Memᴰ u (filter_users st.users acct.namespace_id)
        ↔ (Memᴰ u st.users × (u.owner_id ≡ acct.namespace_id))
  unfolding filter_users
  users-scoped u = (
    λ h.
        let (m, e) = mem-filter _ st.users h in (m, (text_eq_iff u.owner_id acct.namespace_id).0 e),
    λ h. mem_of_filter _ st.users h.0 ((text_eq_iff u.owner_id acct.namespace_id).1 h.1),
  )

  groups-scoped :
      (g : Group)
      → Memᴰ g (filter_groups st.groups acct.namespace_id)
        ↔ (Memᴰ g st.groups × (g.owner_id ≡ acct.namespace_id))
  unfolding filter_groups
  groups-scoped g = (
    λ h.
        let (m, e) = mem-filter _ st.groups h in
        (m, (text_eq_iff g.owner_id acct.namespace_id).0 e),
    λ h. mem_of_filter _ st.groups h.0 ((text_eq_iff g.owner_id acct.namespace_id).1 h.1),
  )

  policies-scoped :
      (p : RoutePolicy)
      → Memᴰ p (filter_policies st.route_policies acct.namespace_id)
        ↔ (Memᴰ p st.route_policies × ((p.tier ≡ fleet_tier) ⊎ (p.owner_id ≡ acct.namespace_id)))
  unfolding filter_policies
  policies-scoped p = (
    λ h.
        let (m, e) = mem-filter _ st.route_policies h in
        (
          m,
          elim (either_of (is_fleet_tier p.tier) (text_eq p.owner_id acct.namespace_id) e) [
            | inl f ↦ inl ((is_fleet_tier_iff p).0 f)
            | inr o ↦ inr ((text_eq_iff p.owner_id acct.namespace_id).0 o)
          ],
        ),
    λ h.
        mem_of_filter _ st.route_policies h.0
          (ground (arith, text_eq_iff p.owner_id acct.namespace_id)),
  )

-- An account that is not the bootstrap owner, or a bootstrap owner who has not asked to see
-- everything, is shown its own namespace and the fleet's rules, no more and no less, and an
-- operator nothing of the infrastructure.
pub scope_state_view-IsIsolated :
    (st : State) (acct : AdminAccount) (see_all : Bool)
    → (is_bootstrap_owner acct && see_all) ≡ false
    → IsIsolated st (scope_state_view st acct see_all) acct
unfolding scope_state_view
scope_state_view-IsIsolated st acct see_all h = elim (Bool-cases (account_can_manage_infra acct)) [
  | inl e ↦
      rw (h, e)
        (record {
          users = users-scoped st acct;
          groups = groups-scoped st acct;
          policies = policies-scoped st acct;
          nodes = ground arith;
          domains = ground arith;
          control_plane = ground arith;
        })
  | inr e ↦
      rw (h, e)
        (record {
          users = users-scoped st acct;
          groups = groups-scoped st acct;
          policies = policies-scoped st acct;
          nodes = ground arith;
          domains = ground arith;
          control_plane = ground arith;
        })
]

-- Enabled clients of other namespaces.
abbrev pub other_enabled : Text → List User → Bool
other_enabled me us = any (λ u. not (text_eq u.owner_id me) && u.enabled) us

count_others-adds :
    (me : Text) (agg : Aggregate) (us : List User)
    → ((count_others me agg us).other_users + length (filter_users us me)
        ≡ agg.other_users + length us)
      × ((count_others me agg us).any_online ≡ (agg.any_online || other_enabled me us))
unfolding count_others filter_users
count_others-adds me agg [] = (omega arith, ground arith)
count_others-adds me agg (u ∷ us) =
    let next =
      if text_eq u.owner_id me
      then agg
      else record { other_users = agg.other_users + 1; any_online = u.enabled || agg.any_online } in
    let (sum, online) = count_others-adds me next us in
    (ground (arith, sum), ground (arith, online))

-- The clients that an account sees and the number that it is told of others add up to all clients,
-- and "any online" says whether a client that it does not see is enabled. An account that sees
-- everything is told of none.
pub others_aggregate_view_complete :
    (st : State) (acct : AdminAccount) (see_all : Bool)
    → (length (scope_state_view st acct see_all).users
          + (others_aggregate_view st acct see_all).other_users
        ≡ length st.users)
      × ((others_aggregate_view st acct see_all).any_online
          ≡ (not (is_bootstrap_owner acct && see_all) && other_enabled acct.namespace_id st.users))
unfolding scope_state_view others_aggregate_view
others_aggregate_view_complete st acct see_all =
    let start : Aggregate = record { other_users = 0; any_online = false } in
    let (sum, online) = count_others-adds acct.namespace_id start st.users in
    elim (Bool-cases (is_bootstrap_owner acct && see_all)) [
      | inl e ↦ rw e (omega arith, refl)
      | inr e ↦ rw e (ground (arith, sum), ground (arith, online))
    ]

-- A rule of the state that an account may write is one that the account is shown, as long as a
-- bootstrap owner has asked to see everything.
pub can_write_policy-shown :
    (st : State) (acct : AdminAccount) (see_all : Bool) (p : RoutePolicy)
    → (is_bootstrap_owner acct && not see_all) ≡ false
    → Memᴰ p st.route_policies
    → can_write_policy acct p ≡ true
    → Memᴰ p (scope_state_view st acct see_all).route_policies
unfolding can_write_policy
can_write_policy-shown st acct see_all p h m w =
    elim (Bool-cases (is_bootstrap_owner acct && see_all)) [
      | inl e ↦ unfold scope_state_view in rw e m
      | inr e ↦
          let seen = scope_state_view-IsIsolated st acct see_all e in
          (seen.policies p).1
            (m, ground (arith, text_eq_iff p.owner_id acct.namespace_id, is_fleet_tier_iff p))
    ]

-- A client of the state whose namespace an account may write to is one that the account is shown,
-- as long as a bootstrap owner has asked to see everything.
pub can_write_owned-shown :
    (st : State) (acct : AdminAccount) (see_all : Bool) (u : User)
    → (is_bootstrap_owner acct && not see_all) ≡ false
    → Memᴰ u st.users
    → can_write_owned acct u.owner_id ≡ true
    → Memᴰ u (scope_state_view st acct see_all).users
unfolding can_write_owned
can_write_owned-shown st acct see_all u h m w =
    elim (Bool-cases (is_bootstrap_owner acct && see_all)) [
      | inl e ↦ unfold scope_state_view in rw e m
      | inr e ↦
          let seen = scope_state_view-IsIsolated st acct see_all e in
          (seen.users u).1 (m, ground (arith, text_eq_iff u.owner_id acct.namespace_id))
    ]
