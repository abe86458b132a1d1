-- ===== src/Render/Agreement/Resolved.antt =====
-- What the compiler records of the clients whose destinations have to be resolved.
use mathlib.Core.List.{Memᴰ}
use trust_panel.Prelude.{
  ◌≡◌, refl, sym, ◌∙◌, ap, subst, ◌⊎◌, inl, inr, Bool, true, false, not, ◌&&◌, ◌||◌, Option, none,
  some, List, [], ◌∷◌, ◌++◌, map, any, filter, arith, Text, text_eq, Bool-cases, mem-perm,
  mem_of_filter,
}
use trust_panel.Model.Node.{User}
use trust_panel.Model.Policy.{
  RoutePolicy, RuleTier, CondKind, cond_domain, cond_cidr, cond_geoip, cond_geosite, other_kind,
  MatchNode, leaf, node, match_tree, policy_match, is_fleet_tier, is_exit_tier,
}
use trust_panel.Model.Order.Sorting.{sort_policies_correct}
use trust_panel.Model.State.{State}
use trust_panel.Render.Netip.{Netip}
use trust_panel.Render.Config.{FlatMatch, SbMatch, SbRule, non_empty}
use trust_panel.Render.Matching.{
  Emit, Effect, need_exit, use_rule_set, resolve_user, resolve_everyone, warn_once, resolve_effects,
  usable, condition_rule, node_rule, compile_match,
}
use trust_panel.Render.Compiler.{
  resolve_all, resolve_users, policies_by_tier, policy_users, compile_policy, compile_reservation,
  users_rule, action_rule, emit_policies, body_rules,
}
use trust_panel.Render.Simulator.{applies}
use trust_panel.Render.SingBox.{SingBox}
use trust_panel.Render.Agreement.Nodes.{IsUsable, cleaned, in_scope}
use trust_panel.Render.Agreement.Members.{IsOnly}
use trust_panel.Render.Agreement.Policies.{Fits, policy_users-test}

-- The log says that destinations have to be resolved for everyone, or for the user.
unfoldable pub notes : Text → List Effect → Bool
notes u log = resolve_all log || any (text_eq u) (resolve_users log)

-- The kinds of condition that look at an address.
abbrev pub is_of_address : CondKind → Bool
is_of_address cond_domain = false
is_of_address cond_cidr = true
is_of_address cond_geoip = true
is_of_address cond_geosite = false
is_of_address (other_kind _) = false

abbrev pub AsksAddress : MatchNode → Type 0
AsksAddress (leaf r) = is_of_address r.kind ≡ true
AsksAddress (node _ a b) = AsksAddress a ⊎ AsksAddress b

-- An enabled rule for the client looks at the address.
abbrev pub ReadAddresses : State → User → Type 0
ReadAddresses s u =
    (p : RoutePolicy) × (t : MatchNode) × Memᴰ p s.route_policies
    × (p.disabled ≡ false)
    × ((is_fleet_tier p.tier ≡ true) ⊎ (is_exit_tier p.tier ≡ true))
    × (applies p u.group_id u.owner_id ≡ true)
    × (match_tree (policy_match p) ≡ some t)
    × AsksAddress t

notes-append : (u : Text) (a b : List Effect) → notes u (a ++ b) ≡ (notes u a || notes u b)
unfolding notes resolve_all resolve_users
notes-append u [] b = refl
notes-append u (resolve_everyone ∷ a) b = refl
notes-append u (resolve_user v ∷ a) b = ground (arith, notes-append u a b)
notes-append u (need_exit _ ∷ a) b = notes-append u a b
notes-append u (use_rule_set _ ∷ a) b = notes-append u a b
notes-append u (warn_once _ _ ∷ a) b = notes-append u a b

notes_left : (u : Text) (a b : List Effect) → notes u a ≡ true → notes u (a ++ b) ≡ true
notes_left u a b h = ground (arith, notes-append u a b, h)

notes_right : (u : Text) (a b : List Effect) → notes u b ≡ true → notes u (a ++ b) ≡ true
notes_right u a b h = ground (arith, notes-append u a b, h)

notes-users :
    (u : Text) (us : List Text) → any (text_eq u) us ≡ true → notes u (map resolve_user us) ≡ true
unfolding notes resolve_all resolve_users
notes-users u [] h = cc h
notes-users u (v ∷ us) h = elim (Bool-cases (text_eq u v)) [
  | inl e ↦ ground (arith, e)
  | inr e ↦ ground (arith, e, notes-users u us (ground (arith, e, h)))
]

module _ (c : SingBox) (net : Netip) where
  resolve_effects-notes :
      (users : List Text) → in_scope c users ≡ true → notes c.user (resolve_effects users) ≡ true
  resolve_effects-notes [] i = unfold notes resolve_all in refl
  resolve_effects-notes (u ∷ us) i = notes-users c.user (u ∷ us) i

  usable-notes :
      (f : FlatMatch) (vs : List Text) (always found : List Effect)
      → non_empty vs ≡ true
      → notes c.user found ≡ true
      → notes c.user (usable f vs always found).1 ≡ true
  usable-notes f [] always found h n = cc h
  usable-notes f (v ∷ vs) always found h n = notes_right c.user always found n

  condition-notes :
      (k : CondKind) (vs users : List Text)
      → is_of_address k ≡ true
      → in_scope c users ≡ true
      → non_empty (cleaned c net k vs) ≡ true
      → notes c.user (condition_rule net k vs users).1 ≡ true
  unfolding condition_rule
  condition-notes cond_domain vs users a i h = cc a
  condition-notes cond_geosite vs users a i h = cc a
  condition-notes (other_kind _) vs users a i h = cc a
  condition-notes cond_cidr vs users a i h =
      usable-notes _ (cleaned c net cond_cidr vs) [] (resolve_effects users) h
        (resolve_effects-notes users i)
  condition-notes cond_geoip vs users a i h =
      let tags = cleaned c net cond_geoip vs in
      usable-notes _ tags (map use_rule_set tags) (resolve_effects users) h
        (resolve_effects-notes users i)

  node_rule-notes :
      (t : MatchNode) (users : List Text)
      → IsUsable c net t
      → AsksAddress t
      → in_scope c users ≡ true
      → notes c.user (node_rule net t users).1 ≡ true
  unfolding node_rule
  node_rule-notes (leaf r) users h a i = condition-notes r.kind r.values users a i h
  node_rule-notes (node op l r) users (hl, hr, _) (inl a) i =
      notes_left c.user (node_rule net l users).1 _ (node_rule-notes l users hl a i)
  node_rule-notes (node op l r) users (hl, hr, _) (inr a) i =
      notes_right c.user (node_rule net l users).1 _
        (notes_left c.user (node_rule net r users).1 _ (node_rule-notes r users hr a i))

  compile_match-notes :
      (p : RoutePolicy) (users : List Text) (t : MatchNode)
      → match_tree (policy_match p) ≡ some t
      → IsUsable c net t
      → AsksAddress t
      → in_scope c users ≡ true
      → notes c.user (compile_match net p users).1 ≡ true
  unfolding compile_match
  compile_match-notes p users t e h a i =
      rw e (notes_left c.user (node_rule net t users).1 _ (node_rule-notes t users h a i))

  users_rule-notes :
      (p : RoutePolicy) (o : Option (List Text)) (f : SbMatch → Emit SbRule) (t : MatchNode)
      → match_tree (policy_match p) ≡ some t
      → IsUsable c net t
      → AsksAddress t
      → (elim o [ none ↦ false | some users ↦ in_scope c users ]) ≡ true
      → notes c.user (users_rule net f p o).1 ≡ true
  users_rule-notes p none f t e h a i = cc i
  users_rule-notes p (some users) f t e h a i =
      notes_left c.user (compile_match net p users).1 _ (compile_match-notes p users t e h a i)

module _ (net : Netip) (s : State) (active : List User) (u : User) (only : IsOnly active u)
    (c : SingBox) (named : c.user ≡ u.username) where
  compile_policy-notes :
      (p : RoutePolicy) (t : MatchNode)
      → match_tree (policy_match p) ≡ some t
      → IsUsable c net t
      → AsksAddress t
      → applies p u.group_id u.owner_id ≡ true
      → notes c.user (compile_policy net s active p).1 ≡ true
  unfolding compile_policy
  compile_policy-notes p t e h a here =
      users_rule-notes c net p (policy_users net s active p) (λ m. action_rule s p m p.action) t e h
        a (policy_users-test net s active u only c named p ∙ here)

  emit_policies-notes :
      (ps : List RoutePolicy) (p : RoutePolicy) (t : MatchNode)
      → Memᴰ p ps
      → match_tree (policy_match p) ≡ some t
      → IsUsable c net t
      → AsksAddress t
      → applies p u.group_id u.owner_id ≡ true
      → notes c.user (emit_policies net s active ps).1 ≡ true
  unfolding emit_policies
  emit_policies-notes [] p t m e h a here = elim m [ ]
  emit_policies-notes (q ∷ ps) p t (Memᴰ.head f) e h a here =
      notes_left c.user (compile_policy net s active q).1 _ (
        ap (λ r. notes c.user (compile_policy net s active r).1) (sym f)
        ∙ compile_policy-notes p t e h a here)
  emit_policies-notes (q ∷ ps) p t (Memᴰ.tail m) e h a here =
      notes_right c.user (compile_policy net s active q).1 _ (
        notes_right c.user (compile_reservation net s active q).1 _ (
          notes_left c.user (emit_policies net s active ps).1 _
            (emit_policies-notes ps p t m e h a here)))

  -- A rule of a tier that is on is among those that are emitted.
  by_tier-holds :
      (tier : RuleTier → Bool) (p : RoutePolicy)
      → Memᴰ p s.route_policies
      → p.disabled ≡ false
      → tier p.tier ≡ true
      → Memᴰ p (policies_by_tier s.route_policies tier)
  unfolding policies_by_tier
  by_tier-holds tier p m on k =
      let kept = λ (q : RoutePolicy). not q.disabled && tier q.tier in
      mem-perm (sort_policies_correct (filter kept s.route_policies)).1
        (mem_of_filter kept s.route_policies m (ground (arith, on, k)))

  -- Where an enabled rule for the client looks at the address, that is recorded.
  pub body_rules-notes :
      ((p : RoutePolicy) → Memᴰ p s.route_policies → p.disabled ≡ false → Fits net c p)
      → ReadAddresses s u
      → notes c.user (body_rules net s active).1 ≡ true
  unfolding body_rules
  body_rules-notes fits (p, t, m, on, tier, here, e, a) =
      let (v, made, usable_v, _, _) = fits p m on in
      let h : IsUsable c net t = subst (IsUsable c net) (unique v t (sym made ∙ e)) usable_v in
      let fleet = policies_by_tier s.route_policies is_fleet_tier in
      let exits = policies_by_tier s.route_policies is_exit_tier in
      elim tier [
        | inl k ↦
            notes_left c.user (emit_policies net s active fleet).1 _
              (emit_policies-notes fleet p t (by_tier-holds is_fleet_tier p m on k) e h a here)
        | inr k ↦ notes_right c.user (emit_policies net s active fleet).1 _ (
            notes_left c.user (emit_policies net s active exits).1 _
              (emit_policies-notes exits p t (by_tier-holds is_exit_tier p m on k) e h a here))
      ]
    where
      unique : (x y : MatchNode) → some x ≡ some y → x ≡ y
      unique x y q = cc q
