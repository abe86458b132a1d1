-- ===== src/Model/Order/Total.antt =====
-- ComparePolicies is a total preorder in which only rules of one id tie.
use Prim.Native.Nat.{Ordering}
use trust_panel.Prelude.{
  ◌≡◌, ◌≢◌, ltb, ◌==◌, if◌then◌else◌, text_lt, text_lt_irrefl, text_lt_trans, text_lt_total, differ,
  arith, fun_ext,
}
use trust_panel.Prelude.Int.{int_lt, int_eq}
use trust_panel.Prelude.Orders.{IsComparison, then_by, then_by-IsComparison}
use trust_panel.Model.Policy.{RoutePolicy}
use trust_panel.Model.Order.{tier_rank, is_reserved, compare_policies}

by_rank : RoutePolicy → RoutePolicy → Ordering
by_rank a b =
    if tier_rank a.tier == tier_rank b.tier
    then Ordering.eq
    else if ltb (tier_rank a.tier) (tier_rank b.tier)
    then Ordering.lt
    else Ordering.gt

by_reserved : RoutePolicy → RoutePolicy → Ordering
by_reserved a b =
    if differ (is_reserved a) (is_reserved b)
    then (if is_reserved a then Ordering.lt else Ordering.gt)
    else Ordering.eq

by_priority : RoutePolicy → RoutePolicy → Ordering
by_priority a b =
    if int_eq a.priority b.priority
    then Ordering.eq
    else if int_lt b.priority a.priority
    then Ordering.lt
    else Ordering.gt

by_id : RoutePolicy → RoutePolicy → Ordering
by_id a b =
    if text_lt a.id b.id
    then Ordering.lt
    else if text_lt b.id a.id
    then Ordering.gt
    else Ordering.eq

by_rank-IsComparison : IsComparison by_rank
unfolding by_rank
by_rank-IsComparison = record {
  flips = λ a b. ground arith;
  lt_trans = λ a b c p q. ground arith;
  eq_left = λ a b c p. ground arith;
}

by_reserved-IsComparison : IsComparison by_reserved
unfolding by_reserved
by_reserved-IsComparison = record {
  flips = λ a b. ground arith;
  lt_trans = λ a b c p q. ground arith;
  eq_left = λ a b c p. ground arith;
}

by_priority-IsComparison : IsComparison by_priority
unfolding by_priority
by_priority-IsComparison = record {
  flips = λ a b. ground arith;
  lt_trans = λ a b c p q. ground arith;
  eq_left = λ a b c p. ground arith;
}

by_id-IsComparison : IsComparison by_id
unfolding by_id
by_id-IsComparison = record {
  flips = λ a b. ground (arith, text_lt_trans a.id b.id a.id, text_lt_irrefl a.id);
  lt_trans = λ a b c p q. ground (arith, text_lt_trans a.id b.id c.id);
  eq_left = λ a b c p. ground (arith, text_lt_total a.id b.id);
}

compare_policies-lex :
    (a b : RoutePolicy)
    → compare_policies a b
      ≡ then_by (by_rank a b) (then_by (by_reserved a b) (then_by (by_priority a b) (by_id a b)))
unfolding compare_policies by_rank by_reserved by_priority by_id
compare_policies-lex a b = ground arith

-- The comparison is antisymmetric and transitive, and rules that tie compare alike.
pub compare_policies-IsComparison : IsComparison compare_policies
compare_policies-IsComparison = rw (fun_ext λ a. fun_ext λ b. compare_policies-lex a b) (
    then_by-IsComparison by_rank-IsComparison (
      then_by-IsComparison by_reserved-IsComparison
        (then_by-IsComparison by_priority-IsComparison by_id-IsComparison)))

-- Rules of different ids never tie.
pub compare_policies-ne_eq : (a b : RoutePolicy) → a.id ≢ b.id → compare_policies a b ≢ Ordering.eq
compare_policies-ne_eq a b h e =
    h (unfold by_id in ground (arith, compare_policies-lex a b, text_lt_total a.id b.id))
