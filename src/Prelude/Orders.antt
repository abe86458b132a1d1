-- ===== src/Prelude/Orders.antt =====
-- Three-way comparisons, and their lexicographic product.
use Prim.Native.Nat.{Ordering}
use mathlib.Core.Path.{◌≡◌}
use native.Mathlib.Omega.{arith}

abbrev pub flip : Ordering → Ordering
flip Ordering.lt = Ordering.gt
flip Ordering.eq = Ordering.eq
flip Ordering.gt = Ordering.lt

-- The second comparison decides where the first one does not.
abbrev pub then_by : Ordering → Ordering → Ordering
then_by Ordering.lt o = Ordering.lt
then_by Ordering.eq o = o
then_by Ordering.gt o = Ordering.gt

pub record IsComparison {ℓ} {A : Type ℓ} (cmp : A → A → Ordering) : Type ℓ where
  pub flips : (a b : A) → cmp b a ≡ flip (cmp a b)
  pub lt_trans : (a b c : A) → cmp a b ≡ Ordering.lt → cmp b c ≡ Ordering.lt → cmp a c ≡ Ordering.lt
  pub eq_left : (a b c : A) → cmp a b ≡ Ordering.eq → cmp a c ≡ cmp b c

module _ {ℓ} {A : Type ℓ} {c d : A → A → Ordering} where
  pub then_by-IsComparison :
      IsComparison c → IsComparison d → IsComparison (λ a b. then_by (c a b) (d a b))
  then_by-IsComparison hc hd = record {
    flips = λ x y. ground (arith, hc.flips x y, hd.flips x y);
    lt_trans = λ x y z p q. ground (
      arith,
      hc.lt_trans x y z,
      hd.lt_trans x y z,
      hc.eq_left x y z,
      hd.eq_left x y z,
      hc.flips x y,
      hc.flips y z,
      hc.flips x z,
      hc.eq_left y z x,
    );
    eq_left = λ x y z p. ground (arith, hc.eq_left x y z, hd.eq_left x y z);
  }
