-- ===== src/Render/Agreement/Whole.antt =====
-- The route tester and the compiled rules, end to end.
use mathlib.Core.List.{Memᴰ}
use mathlib.Core.List.Permᴰ as P
use trust_panel.Prelude.{
  ◌≡◌, refl, sym, ◌∙◌, ap, ◌≢◌, ◌⊎◌, Bool, true, false, not, ◌&&◌, ◌||◌, some, List, [], ◌∷◌, ◌++◌,
  map, any, filter, arith, All, Text, text_eq, text_eq_iff, is_empty, Bool-cases, inl, inr,
  if◌then◌else◌, mem-perm, mem-filter,
}
use trust_panel.Model.Node.{Instant, User, exit_direct}
use trust_panel.Model.Policy.{RoutePolicy, RuleTier, is_fleet_tier, is_exit_tier}
use trust_panel.Model.Order.Sorting.{sort_policies_correct}
use trust_panel.Model.State.{State, active_users}
use trust_panel.Render.Netip.{Netip}
use trust_panel.Render.Config.{FlatMatch, SbRule, no_matchers}
use trust_panel.Render.Compiler.{
  policies_by_tier, members, resolve_exit, emit_policies, default_rule, default_rules, body_rules,
  compile_rules, last_group, exit_of_group, sorted_keys,
}
use trust_panel.Render.Simulator.{
  GeoMatcher, SimResult, stage_fleet, stage_exit, first_group, owner_of_group, group_default,
  decide, eval, simulate, start, read_target,
}
use trust_panel.Render.SingBox.{SingBox, Verdict, via}
use trust_panel.Render.Agreement.Tester.{Sees}
use trust_panel.Render.Agreement.Members.{
  IsOnly, members-named, HasMembers, keys-HasMembers, group-keyed,
}
use trust_panel.Render.Agreement.Policies.{Fits, verdict_of, set_exit-verdict}
use trust_panel.Render.Agreement.Lists.{walk-agrees}
use trust_panel.Render.Agreement.Prepared.{ReadDomain, compile_rules-handled}
use trust_panel.Render.Agreement.Resolved.{ReadAddresses, body_rules-notes}
use trust_panel.Render.Agreement.Valid.{active-IsOnly, HasUsableRules, rules-Fit, validate-OneGroup}
use trust_panel.Model.State.{validate}
use trust_panel.Prelude.Result.{ok}

-- A rule of one tier that is on the sorted list is an enabled rule of the state.
pub by_tier-mem :
    (ps : List RoutePolicy) (tier : RuleTier → Bool) (p : RoutePolicy)
    → Memᴰ p (policies_by_tier ps tier)
    → Memᴰ p ps × (p.disabled ≡ false)
unfolding policies_by_tier
by_tier-mem ps tier p m =
    let kept = λ (q : RoutePolicy). not q.disabled && tier q.tier in
    let (at, k) =
      mem-filter kept ps (mem-perm (P.symm (sort_policies_correct (filter kept ps)).1) m) in
    (at, ground arith)

-- The way out of a group by default, as the node is told it.
default_verdict : State → Text → Verdict
default_verdict s gid =
    let e = exit_of_group (last_group s.groups gid) in
    if is_empty e || text_eq e exit_direct then via exit_direct else via (resolve_exit s e).0

-- The last group of an id is the first one.
abbrev pub OneGroup : State → Text → Type 0
OneGroup s gid = last_group s.groups gid ≡ first_group s.groups gid

module _ (s : State) (active : List User) (u : User) (only : IsOnly active u) (c : SingBox)
    (named : c.user ≡ u.username) where
  default_rule-verdict :
      (gid : Text) (rest : List SbRule)
      → HasMembers active gid
      → c.verdict ((default_rule s active gid).0 ∷ rest)
        ≡ (if text_eq u.group_id gid then default_verdict s gid else c.verdict rest)
  unfolding default_rule default_verdict
  default_rule-verdict gid rest present =
      let only_members : FlatMatch = record no_matchers { auth_user = members active gid } in
      ground (
        arith,
        c.flat_law only_members,
        c.verdict_cons (default_rule s active gid).0 rest,
        members-named active u only gid,
        named,
      )

  default_rules-verdict :
      (gids : List Text)
      → All (HasMembers active) gids
      → c.verdict (default_rules s active gids).0
        ≡ (if any (text_eq u.group_id) gids then default_verdict s u.group_id else via exit_direct)
  unfolding default_rules
  default_rules-verdict [] h = c.verdict_nil
  default_rules-verdict (gid ∷ gids) (h, hs) = elim (Bool-cases (text_eq u.group_id gid)) [
    | inl e ↦
        let same : gid ≡ u.group_id = sym ((text_eq_iff u.group_id gid).0 e) in
        default_rule-verdict gid (default_rules s active gids).0 h
        ∙ rw e (ap (default_verdict s) same)
    | inr e ↦
        default_rule-verdict gid (default_rules s active gids).0 h
        ∙ rw e (default_rules-verdict gids hs)
  ]

module _ (net : Netip) (s : State) (active : List User) (u : User) (only : IsOnly active u)
    (c : SingBox) (named : c.user ≡ u.username) (g : GeoMatcher (net.Addr)) (domain : Text)
    (ips : List (net.Addr)) (sees : Sees net g domain ips c)
    (owned : owner_of_group (first_group s.groups u.group_id) ≡ u.owner_id)
    (one : OneGroup s u.group_id)
    (away : exit_of_group (first_group s.groups u.group_id) ≢ exit_direct)
    (fits : (p : RoutePolicy) → Memᴰ p s.route_policies → p.disabled ≡ false → Fits net c p) where
  group_default-verdict :
      (r : SimResult (net.Addr))
      → verdict_of (group_default net s (some g) u.group_id domain ips r)
        ≡ default_verdict s u.group_id
  unfolding group_default default_verdict
  group_default-verdict r =
      let e = exit_of_group (first_group s.groups u.group_id) in
      ground (arith, one, set_exit-verdict s r e, text_eq_iff e exit_direct, away)

  tier-Fits :
      (tier : RuleTier → Bool) (p : RoutePolicy)
      → Memᴰ p (policies_by_tier s.route_policies tier)
      → Fits net c p
  tier-Fits tier p m = let (at, on) = by_tier-mem s.route_policies tier p m in fits p at on

  defaults-verdict :
      c.verdict (default_rules s active (sorted_keys (map (λ v. v.group_id) active))).0
      ≡ default_verdict s u.group_id
  defaults-verdict =
      default_rules-verdict s active u only c named (sorted_keys (map (λ v. v.group_id) active))
        (keys-HasMembers active)
      ∙ rw (group-keyed u active only.here) refl

  body-agrees :
      (r : SimResult (net.Addr))
      → c.verdict (body_rules net s active).0
        ≡ verdict_of (decide net s (some g) u.group_id domain ips r)
  unfolding body_rules decide
  body-agrees r =
      let walks = walk-agrees net s active u only c named g domain ips sees owned in
      let fleet = policies_by_tier s.route_policies is_fleet_tier in
      let exits = policies_by_tier s.route_policies is_exit_tier in
      let defaults = (default_rules s active (sorted_keys (map (λ v. v.group_id) active))).0 in
      let first = eval net s (some g) u.group_id domain ips stage_fleet fleet r in
      let second = eval net s (some g) u.group_id domain ips stage_exit exits first.1 in
      ground (
        arith,
        walks stage_fleet fleet (tier-Fits is_fleet_tier) r
            ((emit_policies net s active exits).0 ++ defaults),
        walks stage_exit exits (tier-Fits is_exit_tier) first.1 defaults,
        defaults-verdict,
        group_default-verdict second.1,
      )

-- In a state that Validate accepts, take an active client whose group is of the client's own
-- namespace and is not pinned to direct egress, and a connection of that client whose destination
-- is what the tester is asked about, with a geo matcher that answers as the node's rule-sets do. Let
-- every condition of every enabled rule have a value left when it is cleaned, and none of its "and"s
-- put addresses and rule-sets into one ordinary rule. Let the domain of the connection be known when
-- it arrives, or one of the compiled rules be an ordinary rule that reads the domain; and let its
-- addresses be known, or an enabled rule for the client look at them. Then what
-- sing-box does with the connection under the compiled rules is what the tester says: refused, out
-- directly, or out by the same exit.
pub simulate-agrees :
    (net : Netip) (parses : Text → Bool) (s : State) (at : Instant) (u : User) (c : SingBox)
    (g : GeoMatcher (net.Addr)) (target : Text) (ips : List (net.Addr))
    (knows_domain knows_addresses : Bool)
    → validate parses s ≡ ok tt
    → Memᴰ u (active_users s at)
    → c.user ≡ u.username
    → owner_of_group (first_group s.groups u.group_id) ≡ u.owner_id
    → exit_of_group (first_group s.groups u.group_id) ≢ exit_direct
    → HasUsableRules net c s
    → Sees net g (read_target net target ips).1 (read_target net target ips).2 c
    → (knows_domain ≡ true) ⊎ ReadDomain (body_rules net s (active_users s at)).0
    → (knows_addresses ≡ true) ⊎ ReadAddresses s u
    → c.handle knows_domain knows_addresses (compile_rules net s (active_users s at)).0
      ≡ verdict_of (simulate net s u.group_id target ips (some g))
simulate-agrees net parses s at u c g target ips knows_domain knows_addresses ok_state here named
      owned away usable sees reads resolves =
    let (is_ip, domain, seen) = read_target net target ips in
    let only = active-IsOnly parses s at u ok_state here in
    let fits = rules-Fit net c parses s ok_state usable in
    let resolved = body_rules-notes net s (active_users s at) u only c named fits in
    unfold simulate in
    (compile_rules-handled c net s (active_users s at) knows_domain knows_addresses reads
        (elim resolves [ inl e ↦ inl e | inr r ↦ inr (resolved r) ])
      ∙ body-agrees net s (active_users s at) u only c named g domain seen sees owned
          (validate-OneGroup parses s u.group_id ok_state) away fits (start net is_ip seen))
