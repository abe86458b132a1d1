-- ===== src/Render/Agreement/Nodes.antt =====
-- nodeRule compiles a match tree into a matcher that holds exactly where the tree does.
use trust_panel.Prelude.{
  ◌≡◌, refl, ◌∙◌, ap, Bool, true, false, not, ◌&&◌, ◌||◌, Option, some, List, [], ◌∷◌, map, any,
  arith, Text, text_eq, Bool-cases, inl, inr, if◌then◌else◌,
}
use trust_panel.Model.Policy.{
  RouteCondition, CondKind, cond_domain, cond_cidr, cond_geoip, cond_geosite, other_kind, MatchNode,
  leaf, node, Op, op_and, op_or, op_except, RoutePolicy, match_tree, policy_match,
}
use trust_panel.Model.Policy.Reading.{holds}
use trust_panel.Render.Netip.{
  Netip, normalize_cidr, clean_by, clean_suffixes, clean_geo, geoip_tag, geosite_tag,
}
use trust_panel.Render.Config.{
  FlatMatch, SbMatch, flat, logical, inverted, mode_and, mode_or, merge_flat, Half, no_half,
  address_half, rule_set_half, chain_half, same_half, other_half, join_or_rule, join_and_rule,
  join_except_rule, invert_rule, scope, non_empty, no_matchers,
}
use trust_panel.Render.Matching.{condition_rule, node_rule, Effect, usable, compile_match}
use trust_panel.Render.SingBox.{SingBox}
use trust_panel.Render.Agreement.Matchers.{IsPlain, merged-or, half-merge}

usable-some :
    (f : FlatMatch) (vs : List Text) (always found : List Effect)
    → non_empty vs ≡ true
    → (usable f vs always found).0 ≡ some (flat f)
usable-some f [] always found h = cc
usable-some f (v ∷ vs) always found h = refl

-- The half of an ordinary rule that holds the alternatives of a tree, if all are of one half.
abbrev pub joined_run : Half → Half → Half
joined_run x y = if same_half x y then x else no_half

abbrev pub run_of_kind : CondKind → Half
run_of_kind cond_domain = address_half
run_of_kind cond_cidr = address_half
run_of_kind cond_geoip = rule_set_half
run_of_kind cond_geosite = rule_set_half
run_of_kind (other_kind _) = no_half

abbrev pub run_of : MatchNode → Half
run_of (leaf r) = run_of_kind r.kind
run_of (node op_or a b) = joined_run (run_of a) (run_of b)
run_of (node op_and a b) = no_half
run_of (node op_except a b) = no_half

-- No "and" between alternatives of addresses and alternatives of rule-sets.
abbrev pub IsApart : Op → Half → Half → Type 0
IsApart op_and x y = other_half x y ≡ false
IsApart op_or x y = Unit
IsApart op_except x y = Unit

module _ (c : SingBox) where
  join_or-matches :
      (l r : SbMatch)
      → IsPlain l
      → IsPlain r
      → IsPlain (join_or_rule l r)
        × (c.matches (join_or_rule l r) ≡ (c.matches l || c.matches r))
        × (chain_half (join_or_rule l r) ≡ joined_run (chain_half l) (chain_half r))
  unfolding join_or_rule
  join_or-matches (flat a) (flat b) pa pb =
      elim (Bool-cases (same_half (chain_half (flat a)) (chain_half (flat b)))) [
        | inl e ↦
            let made : join_or_rule (flat a) (flat b) ≡ flat (merge_flat a b) = ground arith in
            rw (made, e) (pa, merged-or c a b pa pb e, half-merge c a b pa pb e)
        | inr e ↦
            let made : join_or_rule (flat a) (flat b) ≡ logical mode_or (flat a) (flat b) =
              ground arith in
            rw (made, e) (tt, c.or_law (flat a) (flat b), refl)
      ]
  join_or-matches (flat a) (logical m x y) pa pb =
      (ground arith, ground (arith, c.or_law (flat a) (logical m x y)), ground arith)
  join_or-matches (flat a) (inverted x) pa pb =
      (ground arith, ground (arith, c.or_law (flat a) (inverted x)), ground arith)
  join_or-matches (logical m x y) r pa pb = (tt, c.or_law (logical m x y) r, refl)
  join_or-matches (inverted x) r pa pb = (tt, c.or_law (inverted x) r, refl)

  join_and-matches :
      (l r : SbMatch)
      → other_half (chain_half l) (chain_half r) ≡ false
      → IsPlain (join_and_rule l r)
        × (c.matches (join_and_rule l r) ≡ (c.matches l && c.matches r))
        × (chain_half (join_and_rule l r) ≡ no_half)
  unfolding join_and_rule
  join_and-matches l r e =
      let made : join_and_rule l r ≡ logical mode_and l r = ground (arith, e) in
      rw made (tt, c.and_law l r, refl)

  invert-matches : (r : SbMatch) → IsPlain r → c.matches (invert_rule r) ≡ not (c.matches r)
  invert-matches (flat f) (u, i) =
      ground (arith, c.flat_law f, c.flat_law (record f { invert = true }))
  invert-matches (logical m x y) p = c.inverted_law (logical m x y)
  invert-matches (inverted x) p = c.inverted_law (inverted x)

  join_except-matches :
      (l r : SbMatch)
      → IsPlain r
      → IsPlain (join_except_rule l r)
        × (c.matches (join_except_rule l r) ≡ (c.matches l && not (c.matches r)))
  unfolding join_except_rule
  join_except-matches l r p =
      (tt, c.and_law l (invert_rule r) ∙ ap (λ b. c.matches l && b) (invert-matches r p))

  module _ (net : Netip) where
    -- The values of a condition that are left when they are cleaned, as the node is given them.
    abbrev pub cleaned : CondKind → List Text → List Text
    cleaned cond_domain vs = clean_suffixes vs
    cleaned cond_cidr vs = clean_by (normalize_cidr net) vs
    cleaned cond_geoip vs = map geoip_tag (clean_by clean_geo vs)
    cleaned cond_geosite vs = map geosite_tag (clean_by clean_geo vs)
    cleaned (other_kind _) vs = []

    -- Whether the destination is in one of them.
    abbrev pub kind_hit : CondKind → List Text → Bool
    kind_hit cond_domain vs = any c.suffix_hit (cleaned cond_domain vs)
    kind_hit cond_cidr vs = any c.cidr_hit (cleaned cond_cidr vs)
    kind_hit cond_geoip vs = any c.set_hit (cleaned cond_geoip vs)
    kind_hit cond_geosite vs = any c.set_hit (cleaned cond_geosite vs)
    kind_hit (other_kind _) vs = false

    abbrev pub hit : RouteCondition → Bool
    hit r = kind_hit r.kind r.values

    -- Every condition of the tree has a value left, and none of its "and"s puts alternatives of
    -- addresses and of rule-sets into one flat rule.
    abbrev pub IsUsable : MatchNode → Type 0
    IsUsable (leaf r) = non_empty (cleaned r.kind r.values) ≡ true
    IsUsable (node op a b) = IsUsable a × IsUsable b × IsApart op (run_of a) (run_of b)

    -- What a compiled node is worth: there is a matcher, plain, that holds where the tree does.
    abbrev pub Compiled : MatchNode → Option SbMatch → Type 0
    Compiled t o =
        (m : SbMatch) × (o ≡ some m)
        × IsPlain m
        × (c.matches m ≡ holds hit t)
        × (chain_half m ≡ run_of t)

    kind-compiles :
        (k : CondKind) (vs users : List Text)
        → non_empty (cleaned k vs) ≡ true
        → (m : SbMatch) × ((condition_rule net k vs users).0 ≡ some m)
          × IsPlain m
          × (c.matches m ≡ kind_hit k vs)
          × (chain_half m ≡ run_of_kind k)
    unfolding condition_rule
    kind-compiles cond_domain vs users h =
        let ds = cleaned cond_domain vs in
        let f : FlatMatch = record no_matchers { domain_suffix = ds } in
        (
          flat f,
          usable-some f ds _ _ h,
          (refl, refl),
          ground (arith, c.flat_law f),
          ground (arith, h),
        )
    kind-compiles cond_cidr vs users h =
        let ns = cleaned cond_cidr vs in
        let f : FlatMatch = record no_matchers { ip_cidr = ns } in
        (
          flat f,
          usable-some f ns _ _ h,
          (refl, refl),
          ground (arith, c.flat_law f),
          ground (arith, h),
        )
    kind-compiles cond_geoip vs users h =
        let tags = cleaned cond_geoip vs in
        let f : FlatMatch = record no_matchers { rule_set = tags } in
        (
          flat f,
          usable-some f tags _ _ h,
          (refl, refl),
          ground (arith, c.flat_law f),
          ground (arith, h),
        )
    kind-compiles cond_geosite vs users h =
        let tags = cleaned cond_geosite vs in
        let f : FlatMatch = record no_matchers { rule_set = tags } in
        (
          flat f,
          usable-some f tags _ _ h,
          (refl, refl),
          ground (arith, c.flat_law f),
          ground (arith, h),
        )
    kind-compiles (other_kind _) vs users h = cc

    -- A tree whose conditions all have values left compiles to a matcher that holds of the
    -- connection exactly where the tree does.
    pub node_rule-compiles :
        (t : MatchNode) (users : List Text) → IsUsable t → Compiled t (node_rule net t users).0
    unfolding node_rule holds join_except_rule
    node_rule-compiles (leaf r) users h = kind-compiles r.kind r.values users h
    node_rule-compiles (node op a b) users (ha, hb, apart) =
        joined op apart (node_rule-compiles a users ha) (node_rule-compiles b users hb)
      where
        joined :
            (op : Op)
            → IsApart op (run_of a) (run_of b)
            → Compiled a (node_rule net a users).0
            → Compiled b (node_rule net b users).0
            → Compiled (node op a b) (node_rule net (node op a b) users).0
        joined op_or apart (m, e, p, q, k) (n, f, p', q', k') =
            let (plain, same, half) = join_or-matches m n p p' in
            (join_or_rule m n, rw (e, f) refl, plain, rw (same, q, q') refl, half ∙ rw (k, k') refl)
        joined op_and apart (m, e, p, q, k) (n, f, p', q', k') =
            let (plain, same, half) = join_and-matches m n (rw (k, k') apart) in
            (join_and_rule m n, rw (e, f) refl, plain, rw (same, q, q') refl, half)
        joined op_except apart (m, e, p, q, k) (n, f, p', q', k') =
            let (plain, same) = join_except-matches m n p' in
            (join_except_rule m n, rw (e, f) refl, plain, rw (same, q, q') refl, refl)

module _ (c : SingBox) where
  -- Whether a rule scoped to `users` is about the connection's user; no users means everyone.
  abbrev pub in_scope : List Text → Bool
  in_scope users = not (non_empty users) || any (text_eq c.user) users

  scope-matches :
      (m : SbMatch) (users : List Text)
      → IsPlain m
      → c.matches (scope m users) ≡ (in_scope users && c.matches m)
  unfolding scope
  scope-matches m [] p = refl
  scope-matches (flat f) (u ∷ us) (e, i) =
      ground (arith, c.flat_law f, c.flat_law (record f { auth_user = u ∷ us }))
  scope-matches (logical m x y) (u ∷ us) p =
      let users : FlatMatch = record no_matchers { auth_user = u ∷ us } in
      ground (arith, c.and_law (flat users) (logical m x y), c.flat_law users)
  scope-matches (inverted x) (u ∷ us) p =
      let users : FlatMatch = record no_matchers { auth_user = u ∷ us } in
      ground (arith, c.and_law (flat users) (inverted x), c.flat_law users)

  -- A rule with a usable match compiles to a matcher that holds for the users it is scoped to,
  -- where its match tree holds.
  pub compile_match-matches :
      (net : Netip) (p : RoutePolicy) (users : List Text) (t : MatchNode)
      → match_tree (policy_match p) ≡ some t
      → IsUsable c net t
      → (m : SbMatch) × ((compile_match net p users).0 ≡ some m)
        × (c.matches m ≡ (in_scope users && holds (hit c net) t))
  unfolding compile_match
  compile_match-matches net p users t e h =
      let (m, made, plain, same, _) = node_rule-compiles c net t users h in
      (scope m users, rw (e, made) refl, rw (scope-matches m users plain, same) refl)
