-- ===== src/Model/Order/Filtering.antt =====
-- SortPolicies and filters: sorting a part of the rules gives that part of the sorted rules.
use trust_panel.Prelude.{
  ◌≡◌, refl, sym, ◌∙◌, Bool, false, List, [], ◌∷◌, filter, All, if◌then◌else◌, arith, Bool-cases,
  inl, inr,
}
use trust_panel.Model.Policy.{RoutePolicy}
use trust_panel.Model.Order.{precedes, insert_policy, sort_policies}
use trust_panel.Model.Order.Sorting.{IsOrdered, All-trans, sort-IsOrdered}

insert-front :
    (p : RoutePolicy) (l : List RoutePolicy)
    → All (λ r. precedes r p ≡ false) l
    → insert_policy p l ≡ p ∷ l
unfolding insert_policy
insert-front p [] h = refl
insert-front p (x ∷ l) (h, k) = rw h refl

All-filter :
    (p : RoutePolicy) (q : RoutePolicy → Bool) (l : List RoutePolicy)
    → All (λ r. precedes r p ≡ false) l
    → All (λ r. precedes r p ≡ false) (filter q l)
All-filter p q [] h = tt
All-filter p q (x ∷ l) (h, k) = elim (Bool-cases (q x)) [
  | inl e ↦ rw e (h, All-filter p q l k)
  | inr e ↦ rw e (All-filter p q l k)
]

filter-insert :
    (q : RoutePolicy → Bool) (p : RoutePolicy) (l : List RoutePolicy)
    → IsOrdered l
    → filter q (insert_policy p l) ≡ (if q p then insert_policy p (filter q l) else filter q l)
unfolding insert_policy
filter-insert q p [] o = ground arith
filter-insert q p (x ∷ l) (h, o) = elim (Bool-cases (precedes x p)) [
  | inl e ↦ ground (arith, filter-insert q p l o)
  | inr e ↦
      let front =
        insert-front p (filter q (x ∷ l)) (All-filter p q (x ∷ l) (e, All-trans p x l e h)) in
      elim (Bool-cases (q p)) [ inl k ↦ rw (e, k) (sym front) | inr k ↦ rw (e, k) refl ]
]

-- Sorting the rules that pass a test gives those of the sorted rules that pass it.
pub filter-sort_policies :
    (q : RoutePolicy → Bool) (l : List RoutePolicy)
    → filter q (sort_policies l) ≡ sort_policies (filter q l)
unfolding sort_policies
filter-sort_policies q [] = refl
filter-sort_policies q (p ∷ l) =
    filter-insert q p (sort_policies l) (sort-IsOrdered l) ∙ elim (Bool-cases (q p)) [
      | inl e ↦ rw (e, filter-sort_policies q l) refl
      | inr e ↦ rw (e, filter-sort_policies q l) refl
    ]
