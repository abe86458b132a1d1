-- ===== src/Model/Order.antt =====
-- model/policyorder.go: the order the nodes read routing rules in.
pub mod Total
pub mod Sorting
pub mod Filtering
use Prim.Native.Nat.{Ordering}
use trust_panel.Prelude.{
  ℕ, Bool, true, false, not, List, [], ◌∷◌, ltb, ◌==◌, if◌then◌else◌, text_lt, foldr, differ,
}
use trust_panel.Prelude.Int.{int_lt, int_eq}
use trust_panel.Model.Policy.{RoutePolicy, RuleTier, fleet_tier, is_unset_action}

-- tierRank: an unknown tier sorts with the scope rules.
unfoldable pub tier_rank : RuleTier → ℕ
tier_rank fleet_tier = 0
tier_rank _ = 1

abbrev pub is_reserved : RoutePolicy → Bool
is_reserved p = not (is_unset_action p.others_action)

-- ComparePolicies. `lt`, `eq` and `gt` stand for the results -1, 0 and 1.
unfoldable pub compare_policies : RoutePolicy → RoutePolicy → Ordering
unfolding tier_rank
compare_policies a b =
    let ra = tier_rank a.tier in
    let rb = tier_rank b.tier in
    if not (ra == rb)
    then (if ltb ra rb then Ordering.lt else Ordering.gt)
    else if differ (is_reserved a) (is_reserved b)
    then (if is_reserved a then Ordering.lt else Ordering.gt)
    else if not (int_eq a.priority b.priority)
    then (if int_lt b.priority a.priority then Ordering.lt else Ordering.gt)
    else if text_lt a.id b.id
    then Ordering.lt
    else if text_lt b.id a.id
    then Ordering.gt
    else Ordering.eq

abbrev pub precedes : RoutePolicy → RoutePolicy → Bool
precedes a b = elim (compare_policies a b) [ Ordering.lt ↦ true | _ ↦ false ]

-- A stable insertion: `p`, which stood in front, stays in front of what does not precede it.
unfoldable pub insert_policy : RoutePolicy → List RoutePolicy → List RoutePolicy
insert_policy p [] = p ∷ []
insert_policy p (q ∷ qs) =
    let rest = insert_policy p qs in if precedes q p then q ∷ rest else p ∷ q ∷ qs

-- SortPolicies. Every stable sort computes the same list (sort.SliceStable).
unfoldable pub sort_policies : List RoutePolicy → List RoutePolicy
unfolding insert_policy
sort_policies = foldr insert_policy []
