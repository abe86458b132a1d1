-- ===== src/Render/Agreement/Tester.antt =====
-- The simulator's reading of a rule's match, for a target that it sees as the node does.
use trust_panel.Prelude.{
  ◌≡◌, refl, ◌∙◌, Bool, false, not, ◌&&◌, ◌||◌, none, some, List, [], ◌∷◌, ◌++◌, map, any, arith,
  Text, codes, text_eq, is_empty, has_suffix, Bool-cases, inl, inr,
}
use trust_panel.Model.Policy.{
  RoutePolicy, CondKind, cond_domain, cond_cidr, cond_geoip, cond_geosite, other_kind, MatchNode,
  leaf, node, match_tree, policy_match,
}
use trust_panel.Model.Policy.Reading.{holds}
use trust_panel.Render.Netip.{
  Netip, normalize_cidr, clean_by, clean_suffixes, clean_geo, geoip_tag, geosite_tag,
}
use trust_panel.Render.Simulator.{
  GeoMatcher, SimResult, suffix_match_any, ip_in_cidr, ip_in_any_cidr, geoip_ips, geoip_values,
  geosite_values, note, match_condition, match_node, match_policy,
}
use trust_panel.Render.SingBox.{SingBox}
use trust_panel.Render.Agreement.Nodes.{kind_hit, hit}

-- The connection's destination is what the tester was asked about: the same domain, the same
-- resolved addresses, and a geo matcher that has every answer and answers as the node's rule-sets do.
pub record Sees (net : Netip) (g : GeoMatcher (net.Addr)) (domain : Text) (ips : List (net.Addr))
    (c : SingBox) : Type 0 where
  pub suffixes :
      (x : Text)
      → c.suffix_hit x
        ≡ (not (is_empty domain) && (text_eq domain x || has_suffix domain (codes "." ++ x)))
  pub cidrs :
      (x : Text)
      → c.cidr_hit x
        ≡ elim (net.parse_prefix x) [ none ↦ false | some r ↦ any (λ ip. net.contains r ip) ips ]
  pub ip_in : Text → net.Addr → Bool
  pub site_in : Text → Bool
  pub geoip_answers : (x : Text) (ip : net.Addr) → g.geo_ip x ip ≡ some (ip_in x ip)
  pub geosite_answers : (x : Text) → g.geo_site x domain ≡ some (site_in x)
  pub geoip_sets : (x : Text) → c.set_hit (geoip_tag x) ≡ any (ip_in x) ips
  pub geosite_sets : (x : Text) → c.set_hit (geosite_tag x) ≡ (not (is_empty domain) && site_in x)

module _ (net : Netip) (g : GeoMatcher (net.Addr)) (domain : Text) (ips : List (net.Addr))
    (c : SingBox) (sees : Sees net g domain ips c) where
  suffixes-hit :
      (ss : List Text) → (not (is_empty domain) && suffix_match_any domain ss) ≡ any c.suffix_hit ss
  unfolding suffix_match_any
  suffixes-hit [] = ground arith
  suffixes-hit (x ∷ ss) = ground (arith, sees.suffixes x, suffixes-hit ss)

  cidrs-hit :
      (vs : List Text)
      → ip_in_any_cidr net ips vs ≡ any c.cidr_hit (clean_by (normalize_cidr net) vs)
  unfolding ip_in_any_cidr ip_in_cidr clean_by
  cidrs-hit [] = refl
  cidrs-hit (v ∷ vs) = ground (arith, sees.cidrs (normalize_cidr net v), cidrs-hit vs)

  ips-hit :
      (x : Text) (is : List (net.Addr)) → (geoip_ips (g.geo_ip x) is).0 ≡ any (sees.ip_in x) is
  unfolding geoip_ips
  ips-hit x [] = refl
  ips-hit x (i ∷ is) = ground (arith, sees.geoip_answers x i, ips-hit x is)

  geoip-hit :
      (vs : List Text)
      → (geoip_values (some g) ips vs).0 ≡ any c.set_hit (map geoip_tag (clean_by clean_geo vs))
  unfolding geoip_values clean_by
  geoip-hit [] = refl
  geoip-hit (v ∷ vs) = elim (Bool-cases (is_empty (clean_geo v))) [
    | inl e ↦ rw e (geoip-hit vs)
    | inr e ↦
        rw e
          (ground (arith, geoip-hit vs, ips-hit (clean_geo v) ips, sees.geoip_sets (clean_geo v)))
  ]

  geosite-hit :
      (vs : List Text)
      → (geosite_values (some g) domain vs).0
        ≡ any c.set_hit (map geosite_tag (clean_by clean_geo vs))
  unfolding geosite_values clean_by
  geosite-hit [] = refl
  geosite-hit (v ∷ vs) = elim (Bool-cases (is_empty (clean_geo v))) [
    | inl e ↦ rw e (geosite-hit vs)
    | inr e ↦ rw e (
        ground (
          arith,
          geosite-hit vs,
          sees.geosite_answers (clean_geo v),
          sees.geosite_sets (clean_geo v),
        ))
  ]

  -- What the notes on lookups do to the answer: nothing.
  note-answer :
      (p : RoutePolicy) (look : Bool × Bool) (r : SimResult (net.Addr)) → (note p look r).0 ≡ look.0
  note-answer p look r = ground arith

  condition-hit :
      (p : RoutePolicy) (k : CondKind) (vs : List Text) (r : SimResult (net.Addr))
      → (match_condition net (some g) domain ips p k vs r).0 ≡ kind_hit c net k vs
  unfolding match_condition
  condition-hit p cond_domain vs r = suffixes-hit (clean_suffixes vs)
  condition-hit p cond_cidr vs r = cidrs-hit vs
  condition-hit p cond_geoip vs r = note-answer p (geoip_values (some g) ips vs) r ∙ geoip-hit vs
  condition-hit p cond_geosite vs r =
      note-answer p (geosite_values (some g) domain vs) r ∙ geosite-hit vs
  condition-hit p (other_kind _) vs r = refl

  node-hit :
      (t : MatchNode) (p : RoutePolicy) (r : SimResult (net.Addr))
      → (match_node net (some g) domain ips t p r).0 ≡ holds (hit c net) t
  unfolding match_node holds
  node-hit (leaf k) p r = condition-hit p k.kind k.values r
  node-hit (node op a b) p r =
      let (x, r1) = match_node net (some g) domain ips a p r in cc (node-hit a p r, node-hit b p r1)

  -- The tester finds that a rule matches exactly where the rule's match tree holds of the
  -- connection.
  pub match_policy-hit :
      (p : RoutePolicy) (t : MatchNode) (r : SimResult (net.Addr))
      → match_tree (policy_match p) ≡ some t
      → (match_policy net (some g) domain ips p r).0 ≡ holds (hit c net) t
  unfolding match_policy
  match_policy-hit p t r e = ground (arith, node-hit t p r)
