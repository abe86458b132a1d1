-- ===== src/Scenarios/Modelled.antt =====
-- The theorems on the model and on authorisation, at the sample state.
use mathlib.Core.List.{Memᴰ, Permᴰ}
use trust_panel.Prelude.{
  ◌≡◌, refl, sym, ap, ◌∙◌, ◌↔◌, Bool, true, false, some, List, [], ◌∷◌, ◌+◌, length, text_eq, Text,
  codes, ◌≢◌, text_eq_iff, trim_space, drop_spaces, contains_any,
}
use trust_panel.Prelude.Result.{ok, for_each}
use trust_panel.Model.Node.{
  User, node_validate, group_validate, user_validate, validate_username, dial_in_validate,
  limits_validate, billing_validate,
}
use trust_panel.Model.Policy.{
  RoutePolicy, RouteCondition, MatchNode, match_tree, CondKind, cond_domain, legacy_conditions,
  clean_values, policy_match,
}
use trust_panel.Model.Policy.Validate.{
  policy_validate, conditions_validate, condition_validate, fallback_validate, others_validate,
  same_action,
}
use trust_panel.Model.Policy.Reading.{
  holds, read_on, match_tree-reads, legacy_sentence, legacy_conditions-reads,
}
use trust_panel.Model.Order.{sort_policies}
use trust_panel.Model.Order.Sorting.{
  IsOrdered, IdNamesOne, sort_policies_correct, sort_policies-perm,
}
use trust_panel.Model.State.{
  validate, active_users, validate_nodes, validate_groups, is_exit_id, find_node, validate_users,
  validate_policy,
}
use trust_panel.Model.State.Users.{IsAscending, IsUnexpired, active_users_correct}
use trust_panel.Model.State.Sound.{IsSound, validate-IsSound}
use trust_panel.Authz.{scope_state_view, others_aggregate_view, can_write_policy, can_write_owned}
use trust_panel.Authz.Isolation.{
  IsIsolated, scope_state_view-IsIsolated, other_enabled, others_aggregate_view_complete,
  can_write_policy-shown, can_write_owned-shown,
}
use trust_panel.Scenarios.{
  sample, an_operator, alice, of_domain, but_not_domain, refuse_domain, by_the_exit,
}

abbrev only_domains : RouteCondition → Bool
only_domains c = elim c.kind [ cond_domain ↦ true | _ ↦ false ]

match_tree-reads_example :
    (t : MatchNode) × (match_tree (of_domain ∷ but_not_domain ∷ []) ≡ some t)
    × (holds only_domains t ≡ read_on only_domains true (but_not_domain ∷ []))
match_tree-reads_example = match_tree-reads only_domains of_domain (but_not_domain ∷ [])

abbrev kind_is_domain : CondKind → List Text → Bool
kind_is_domain k vs = elim k [ cond_domain ↦ true | _ ↦ false ]

abbrev older : RoutePolicy
older = record by_the_exit {
  conditions = [];
  match_geoip = codes "ru" ∷ [];
  match_geosite = codes "cn" ∷ [];
  match_domains = codes "x" ∷ [];
  exclude_domains = codes "y.x" ∷ [];
}

older_tree : (t : MatchNode) × (match_tree (legacy_conditions older) ≡ some t)
unfolding match_tree legacy_conditions clean_values trim_space drop_spaces
older_tree = (_, refl)

legacy_conditions-reads_example :
    some (holds (λ c. kind_is_domain c.kind c.values) older_tree.0)
    ≡ legacy_sentence kind_is_domain older
legacy_conditions-reads_example =
    legacy_conditions-reads kind_is_domain older older_tree.0 older_tree.1

sort_policies_correct_example :
    IsOrdered (sort_policies (by_the_exit ∷ refuse_domain ∷ []))
    × Permᴰ (sort_policies (by_the_exit ∷ refuse_domain ∷ [])) (by_the_exit ∷ refuse_domain ∷ [])
sort_policies_correct_example = sort_policies_correct (by_the_exit ∷ refuse_domain ∷ [])

differs : by_the_exit.id ≢ refuse_domain.id
unfolding text_eq
differs h = absurd_bool ((text_eq_iff by_the_exit.id refuse_domain.id).1 h)
  where
    absurd_bool : false ≡ true → ⊥
    absurd_bool e = cc

two-IdNamesOne : IdNamesOne (by_the_exit ∷ refuse_domain ∷ [])
two-IdNamesOne p q (Memᴰ.head e) (Memᴰ.head f) h = cc (e, f)
two-IdNamesOne p q (Memᴰ.head e) (Memᴰ.tail (Memᴰ.head f)) h =
    absurd (differs (ap (λ (r : RoutePolicy). r.id) (sym e) ∙ h ∙ ap (λ (r : RoutePolicy). r.id) f))
two-IdNamesOne p q (Memᴰ.tail (Memᴰ.head e)) (Memᴰ.head f) h =
    absurd
      (differs (ap (λ (r : RoutePolicy). r.id) (sym f) ∙ sym h ∙ ap (λ (r : RoutePolicy). r.id) e))
two-IdNamesOne p q (Memᴰ.tail (Memᴰ.head e)) (Memᴰ.tail (Memᴰ.head f)) h = cc (e, f)
two-IdNamesOne p q (Memᴰ.head e) (Memᴰ.tail (Memᴰ.tail m)) h = elim m [ ]
two-IdNamesOne p q (Memᴰ.tail (Memᴰ.head e)) (Memᴰ.tail (Memᴰ.tail m)) h = elim m [ ]
two-IdNamesOne p q (Memᴰ.tail (Memᴰ.tail m)) k h = elim m [ ]

sort_policies-perm_example :
    sort_policies (by_the_exit ∷ refuse_domain ∷ [])
    ≡ sort_policies (refuse_domain ∷ by_the_exit ∷ [])
sort_policies-perm_example = sort_policies-perm (Permᴰ.swap refl refl) two-IdNamesOne

active_users_correct_example :
    IsAscending (active_users sample 7)
    × ((u : User)
        → Memᴰ u (active_users sample 7)
          ↔ (Memᴰ u sample.users × (u.enabled ≡ true) × IsUnexpired u 7))
active_users_correct_example = active_users_correct sample 7

pub sample-valid : (parses : Text → Bool) → validate parses sample ≡ ok tt
unfolding validate validate_nodes node_validate dial_in_validate limits_validate billing_validate
    validate_groups group_validate is_exit_id find_node validate_users user_validate
    validate_username validate_policy policy_validate conditions_validate condition_validate
    clean_values policy_match fallback_validate others_validate same_action trim_space drop_spaces
    text_eq contains_any for_each
sample-valid parses = refl

validate-IsSound_example : IsSound sample
validate-IsSound_example = validate-IsSound (λ _. false) sample (sample-valid (λ _. false))

scope_state_view-IsIsolated_example :
    IsIsolated sample (scope_state_view sample an_operator true) an_operator
scope_state_view-IsIsolated_example = scope_state_view-IsIsolated sample an_operator true refl

others_aggregate_view_complete_example :
    (length (scope_state_view sample an_operator true).users
        + (others_aggregate_view sample an_operator true).other_users
      ≡ 2)
    × ((others_aggregate_view sample an_operator true).any_online
        ≡ other_enabled an_operator.namespace_id sample.users)
others_aggregate_view_complete_example = others_aggregate_view_complete sample an_operator true

may_write : can_write_policy an_operator by_the_exit ≡ true
unfolding can_write_policy can_write_owned text_eq
may_write = refl

may_write_alice : can_write_owned an_operator alice.owner_id ≡ true
unfolding can_write_owned text_eq
may_write_alice = refl

can_write_policy-shown_example :
    Memᴰ by_the_exit (scope_state_view sample an_operator true).route_policies
can_write_policy-shown_example =
    can_write_policy-shown sample an_operator true by_the_exit refl (Memᴰ.head refl) may_write

can_write_owned-shown_example : Memᴰ alice (scope_state_view sample an_operator true).users
can_write_owned-shown_example =
    can_write_owned-shown sample an_operator true alice refl (Memᴰ.tail (Memᴰ.head refl))
      may_write_alice
