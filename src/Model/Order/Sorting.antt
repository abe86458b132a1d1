-- ===== src/Model/Order/Sorting.antt =====
-- SortPolicies: its result is ordered, rearranges the input, and does not depend on the order in
-- which the state lists the rules.

use mathlib.Core.List.{Memᴰ, Permᴰ}
use mathlib.Core.List.Permᴰ as P
use trust_panel.Prelude.{
  ◌≡◌, refl, ◌∙◌, ◌≢◌, true, false, List, [], ◌∷◌, arith, All, mem-perm, Bool-cases, inl, inr,
  text_eq, text_eq_iff,
}
use trust_panel.Model.Policy.{RoutePolicy}
use trust_panel.Model.Order.{precedes, insert_policy, sort_policies}
use trust_panel.Model.Order.Total.{compare_policies-IsComparison, compare_policies-ne_eq}

-- No rule stands behind one that it precedes.
abbrev pub IsOrdered : List RoutePolicy → Type 0
IsOrdered [] = Unit
IsOrdered (p ∷ ps) = All (λ q. precedes q p ≡ false) ps × IsOrdered ps

precedes_trans :
    (a b c : RoutePolicy) → precedes b a ≡ false → precedes c b ≡ false → precedes c a ≡ false
precedes_trans a b c h k =
    let o = compare_policies-IsComparison in
    ground (
      arith,
      o.flips a b,
      o.flips b c,
      o.flips a c,
      o.lt_trans c a b,
      o.lt_trans b c a,
      o.lt_trans a b c,
      o.eq_left a b c,
      o.eq_left b c a,
      o.eq_left c a b,
      o.lt_trans c b a,
    )

precedes_asym : (a b : RoutePolicy) → precedes a b ≡ true → precedes b a ≡ false
precedes_asym a b h = ground (arith, compare_policies-IsComparison.flips a b)

pub All-trans :
    (a b : RoutePolicy) (l : List RoutePolicy)
    → precedes b a ≡ false
    → All (λ q. precedes q b ≡ false) l
    → All (λ q. precedes q a ≡ false) l
All-trans a b [] h k = tt
All-trans a b (c ∷ l) h (k, ks) = (precedes_trans a b c h k, All-trans a b l h ks)

All-insert :
    (a p : RoutePolicy) (l : List RoutePolicy)
    → precedes p a ≡ false
    → All (λ q. precedes q a ≡ false) l
    → All (λ q. precedes q a ≡ false) (insert_policy p l)
unfolding insert_policy
All-insert a p [] h k = (h, tt)
All-insert a p (q ∷ l) h (k, ks) = elim (Bool-cases (precedes q p)) [
  | inl e ↦ rw e (k, All-insert a p l h ks)
  | inr e ↦ rw e (h, (k, ks))
]

insert-IsOrdered :
    (p : RoutePolicy) (l : List RoutePolicy) → IsOrdered l → IsOrdered (insert_policy p l)
unfolding insert_policy
insert-IsOrdered p [] h = (tt, tt)
insert-IsOrdered p (q ∷ l) (h, k) = elim (Bool-cases (precedes q p)) [
  | inl e ↦ rw e (All-insert q p l (precedes_asym q p e) h, insert-IsOrdered p l k)
  | inr e ↦ rw e ((e, All-trans p q l e h), (h, k))
]

pub sort-IsOrdered : (l : List RoutePolicy) → IsOrdered (sort_policies l)
unfolding sort_policies
sort-IsOrdered [] = tt
sort-IsOrdered (p ∷ l) = insert-IsOrdered p (sort_policies l) (sort-IsOrdered l)

insert-Permᴰ : (p : RoutePolicy) (l : List RoutePolicy) → Permᴰ (insert_policy p l) (p ∷ l)
unfolding insert_policy
insert-Permᴰ p [] = P.refl _
insert-Permᴰ p (q ∷ l) = elim (Bool-cases (precedes q p)) [
  | inl e ↦ rw e (Permᴰ.trans (Permᴰ.cons refl (insert-Permᴰ p l)) (Permᴰ.swap refl refl))
  | inr e ↦ rw e (P.refl _)
]

sort-Permᴰ : (l : List RoutePolicy) → Permᴰ (sort_policies l) l
unfolding sort_policies
sort-Permᴰ [] = Permᴰ.nil
sort-Permᴰ (p ∷ l) = Permᴰ.trans (insert-Permᴰ p (sort_policies l)) (Permᴰ.cons refl (sort-Permᴰ l))

-- Whatever the rules, the sorted list holds exactly the rules that it was given, and no rule in it
-- stands behind one that ComparePolicies puts after it.
pub sort_policies_correct :
    (l : List RoutePolicy) → IsOrdered (sort_policies l) × Permᴰ (sort_policies l) l
sort_policies_correct l = (sort-IsOrdered l, sort-Permᴰ l)

insert_comm :
    (p q : RoutePolicy) (l : List RoutePolicy)
    → p.id ≢ q.id
    → insert_policy p (insert_policy q l) ≡ insert_policy q (insert_policy p l)
unfolding insert_policy
insert_comm p q [] h =
    ground (arith, compare_policies-IsComparison.flips p q, compare_policies-ne_eq p q h)
insert_comm p q (r ∷ l) h =
    let o = compare_policies-IsComparison in
    ground (
      arith,
      o.flips p q,
      compare_policies-ne_eq p q h,
      insert_comm p q l h,
      o.flips r p,
      o.flips r q,
      o.lt_trans r p q,
      o.lt_trans r q p,
    )

-- An id names one rule of the list, which may stand there twice.
abbrev pub IdNamesOne : List RoutePolicy → Type 0
IdNamesOne l = (p q : RoutePolicy) → Memᴰ p l → Memᴰ q l → p.id ≡ q.id → p ≡ q

insert_twice :
    (p q : RoutePolicy) (m : List RoutePolicy)
    → (p.id ≡ q.id → p ≡ q)
    → insert_policy p (insert_policy q m) ≡ insert_policy q (insert_policy p m)
insert_twice p q m one = elim (Bool-cases (text_eq p.id q.id)) [
  | inl e ↦ rw (one ((text_eq_iff p.id q.id).0 e))
  | inr e ↦ insert_comm p q m (λ same. cc (e, (text_eq_iff p.id q.id).1 same))
]

-- However the state lists its rules, they are evaluated in one order: two rearrangements of the
-- same rules, in which an id names one rule, are sorted to the same list.
pub sort_policies-perm :
    {l m : List RoutePolicy} → Permᴰ l m → IdNamesOne l → sort_policies l ≡ sort_policies m
unfolding sort_policies
sort_policies-perm Permᴰ.nil one = refl
sort_policies-perm (Permᴰ.cons {b = b} e d) one =
    let same = sort_policies-perm d (λ p q h k. one p q (Memᴰ.tail h) (Memᴰ.tail k)) in cc (e, same)
sort_policies-perm (Permᴰ.swap {a = a} {b = b} {l = l} e f) one =
    let swapped =
      insert_twice a b (sort_policies l) (one a b (Memᴰ.head refl) (Memᴰ.tail (Memᴰ.head refl))) in
    cc (e, f, swapped)
sort_policies-perm (Permᴰ.trans d d') one =
    sort_policies-perm d one
    ∙ sort_policies-perm d' (λ p q h k. one p q (mem-perm d h) (mem-perm d k))
