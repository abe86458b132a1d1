-- ===== src/Render/Agreement/Matchers.antt =====
-- A compiled matcher holds of a connection exactly where the rule's match does.
use trust_panel.Prelude.{
  ◌≡◌, refl, ◌∙◌, Bool, true, false, not, ◌||◌, List, [], ◌∷◌, ◌++◌, any, any-append, arith,
}
use trust_panel.Render.Config.{
  FlatMatch, SbMatch, flat, logical, inverted, merge_flat, chain_half, same_half, non_empty,
}
use trust_panel.Render.SingBox.{SingBox}

-- No users yet, and not inverted at the top.
abbrev pub IsPlain : SbMatch → Type 0
IsPlain (flat f) = (f.auth_user ≡ []) × (f.invert ≡ false)
IsPlain (logical _ _ _) = Unit
IsPlain (inverted _) = Unit

non_empty-append {ℓ} :
    {A : Type ℓ} (xs ys : List A) → non_empty (xs ++ ys) ≡ (non_empty xs || non_empty ys)
non_empty-append [] ys = refl
non_empty-append (x ∷ xs) ys = refl

any-empty {ℓ} : {A : Type ℓ} (p : A → Bool) (xs : List A) → non_empty xs ≡ false → any p xs ≡ false
any-empty p [] h = refl
any-empty p (x ∷ xs) h = cc

abbrev has_address : FlatMatch → Bool
has_address f = non_empty f.domain_suffix || non_empty f.ip_cidr

module _ (c : SingBox) where
  address_hit : FlatMatch → Bool
  address_hit f = any c.suffix_hit f.domain_suffix || any c.cidr_hit f.ip_cidr

  tags_hit : FlatMatch → Bool
  tags_hit f = any c.set_hit f.rule_set

  flat_plain :
      (f : FlatMatch)
      → IsPlain (flat f)
      → c.matches (flat f)
        ≡ (not (has_address f || non_empty f.rule_set) || (address_hit f || tags_hit f))
  unfolding address_hit tags_hit
  flat_plain f (u, i) = c.flat_law f ∙ rw (u, i) refl

  address_hit-none : (f : FlatMatch) → has_address f ≡ false → address_hit f ≡ false
  unfolding address_hit
  address_hit-none f h =
      ground (arith, any-empty c.suffix_hit f.domain_suffix, any-empty c.cidr_hit f.ip_cidr)

  tags_hit-none : (f : FlatMatch) → non_empty f.rule_set ≡ false → tags_hit f ≡ false
  unfolding tags_hit
  tags_hit-none f h = any-empty c.set_hit f.rule_set h

  address_hit-merge :
      (a b : FlatMatch)
      → (address_hit (merge_flat a b) ≡ (address_hit a || address_hit b))
        × (has_address (merge_flat a b) ≡ (has_address a || has_address b))
  unfolding address_hit
  address_hit-merge a b = (
    ground (
      arith,
      any-append c.suffix_hit a.domain_suffix b.domain_suffix,
      any-append c.cidr_hit a.ip_cidr b.ip_cidr,
    ),
    ground (
      arith,
      non_empty-append a.domain_suffix b.domain_suffix,
      non_empty-append a.ip_cidr b.ip_cidr,
    ),
  )

  tags_hit-merge :
      (a b : FlatMatch)
      → (tags_hit (merge_flat a b) ≡ (tags_hit a || tags_hit b))
        × (non_empty (merge_flat a b).rule_set ≡ (non_empty a.rule_set || non_empty b.rule_set))
  unfolding tags_hit
  tags_hit-merge a b =
      (any-append c.set_hit a.rule_set b.rule_set, non_empty-append a.rule_set b.rule_set)

  module _ (a b : FlatMatch) (pa : IsPlain (flat a)) (pb : IsPlain (flat b)) where
    pub merged-or :
        same_half (chain_half (flat a)) (chain_half (flat b)) ≡ true
        → c.matches (flat (merge_flat a b)) ≡ (c.matches (flat a) || c.matches (flat b))
    merged-or h = ground (
      arith,
      flat_plain a pa,
      flat_plain b pb,
      flat_plain (merge_flat a b) pa,
      (address_hit-merge a b).0,
      (address_hit-merge a b).1,
      (tags_hit-merge a b).0,
      (tags_hit-merge a b).1,
      address_hit-none a,
      address_hit-none b,
      tags_hit-none a,
      tags_hit-none b,
    )

    -- A run of alternatives joined to another run of the same half is one such run.
    pub half-merge :
        same_half (chain_half (flat a)) (chain_half (flat b)) ≡ true
        → chain_half (flat (merge_flat a b)) ≡ chain_half (flat a)
    half-merge h = ground (arith, pa.1, pb.1, (address_hit-merge a b).1, (tags_hit-merge a b).1)
