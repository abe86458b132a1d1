-- ===== src/Scenarios/Routed.antt =====
-- The route tester and a node, on one connection of the sample state: a client of the namespace
-- "me" opens "w.c", which a rule sends by an exit that is out of rotation.
use mathlib.Core.List.{Memᴰ}
use trust_panel.Prelude.{
  ℕ, ◌≡◌, refl, sym, ap, ◌∙◌, ◌≢◌, ◌⊎◌, inl, inr, Bool, true, false, not, ◌&&◌, ◌||◌, Option, none,
  some, List, [], ◌∷◌, ◌++◌, any, leb, ◌==◌, differ, if◌then◌else◌, Text, codes, arith, text_eq,
  text_eq_iff, trim_space, drop_spaces, to_lower, trim_dot, is_empty, has_suffix,
}
use trust_panel.Model.Node.{User, exit_direct}
use trust_panel.Model.Policy.{RoutePolicy, MatchNode, match_tree, policy_match}
use trust_panel.Model.State.{active_users}
use trust_panel.Model.State.Users.{active_users_correct}
use trust_panel.Render.Netip.{Netip, clean_by}
use trust_panel.Render.Config.{
  FlatMatch, SbMatch, flat, logical, inverted, mode_and, mode_or, SbRule, SbAction, route, reject,
  resolve, sniff, non_empty, no_matchers,
}
use trust_panel.Render.Compiler.{body_rules, compile_rules, exit_of_group}
use trust_panel.Render.Simulator.{GeoMatcher, simulate, read_target, first_group, owner_of_group}
use trust_panel.Render.SingBox.{SingBox, Verdict, refused, via, is_final, outcome}
use trust_panel.Render.Agreement.Nodes.{IsUsable}
use trust_panel.Render.Agreement.Tester.{Sees}
use trust_panel.Render.Agreement.Policies.{verdict_of}
use trust_panel.Render.Agreement.Valid.{HasUsableRules}
use trust_panel.Render.Agreement.Prepared.{ReadDomain}
use trust_panel.Render.Agreement.Whole.{simulate-agrees}
use trust_panel.Render.Agreement.Isolation.{without_foreign, compile_rules-without_foreign}
use trust_panel.Scenarios.{bob, sample, alice, refuse_domain, by_the_exit}
use trust_panel.Scenarios.Modelled.{sample-valid}

-- Addresses and ranges are single digits here.
abbrev digit : Text → Option ℕ
digit [] = none
digit (c ∷ _) = if leb 48 c && leb c 57 then some c else none

abbrev digits_net : Netip
digits_net = record {
  Addr = ℕ;
  Prefix = ℕ;
  parse_addr = digit;
  parse_prefix = digit;
  is6 = λ _. false;
  prefix_from = λ a _. a;
  prefix_text = λ p. p ∷ [];
  contains = λ p a. p == a;
}

abbrev asked : Text
asked = (read_target digits_net (codes "w.c") (50 ∷ [])).1

abbrev suffix_of_asked : Text → Bool
suffix_of_asked x = not (is_empty asked) && (text_eq asked x || has_suffix asked (codes "." ++ x))

abbrev range_has : Text → Bool
range_has x = elim (digit x) [ none ↦ false | some r ↦ any (λ ip. r == ip) (50 ∷ []) ]

-- A node that reads rules as documented, for one connection of that client: it sees the domain and
-- the addresses of the destination where they are known.
flat_matches : Text → Bool → Bool → FlatMatch → Bool
flat_matches user domain addresses f = differ f.invert (
    (not (non_empty f.auth_user) || any (text_eq user) f.auth_user)
    && (not ((non_empty f.domain_suffix || non_empty f.ip_cidr) || non_empty f.rule_set)
        || ((any (λ x. domain && suffix_of_asked x) f.domain_suffix
              || any (λ x. addresses && range_has x) f.ip_cidr)
            || any (λ _. false) f.rule_set)))

node_matches : Text → Bool → Bool → SbMatch → Bool
node_matches user d a (flat f) = flat_matches user d a f
node_matches user d a (logical mode_and x y) = node_matches user d a x && node_matches user d a y
node_matches user d a (logical mode_or x y) = node_matches user d a x || node_matches user d a y
node_matches user d a (inverted x) = not (node_matches user d a x)

node_handle : Text → Bool → Bool → List SbRule → Verdict
node_handle user d a [] = via exit_direct
node_handle user d a (r ∷ rs) =
    let here = node_matches user d a r.matcher in
    let sniffed = node_handle user (d || here) a rs in
    let resolved = node_handle user d (a || here) rs in
    let later = node_handle user d a rs in
    elim r.action [
      | sniff ↦ sniffed
      | resolve ↦ resolved
      | route ↦ if here then via r.outbound else later
      | reject ↦ if here then refused else later
    ]

known_cons :
    (user : Text) (m : SbMatch) (action : SbAction) (out : Text) (rs : List SbRule)
    → let r : SbRule = record { matcher = m; action = action; outbound = out } in
      node_handle user true true (r ∷ rs) ≡ (
        if is_final action && node_matches user true true m
        then outcome r
        else node_handle user true true rs)
unfolding node_handle
known_cons user m route out rs = refl
known_cons user m reject out rs = refl
known_cons user m resolve out rs = refl
known_cons user m sniff out rs = refl

unmatched :
    (user : Text) (d a : Bool) (us : List Text)
    → node_matches user d a (flat (record no_matchers { auth_user = us }))
      ≡ (not (non_empty us) || any (text_eq user) us)
unfolding node_matches flat_matches
unmatched user d a us = ground arith

abbrev a_node : User → SingBox
unfolding flat_matches node_matches node_handle
a_node u = record {
  user = u.username;
  suffix_hit = suffix_of_asked;
  cidr_hit = range_has;
  set_hit = λ _. false;
  matches = node_matches u.username true true;
  flat_law = λ f. refl;
  and_law = λ a b. refl;
  or_law = λ a b. refl;
  inverted_law = λ a. refl;
  verdict = node_handle u.username true true;
  verdict_nil = refl;
  verdict_cons = λ r rs. known_cons u.username r.matcher r.action r.outbound rs;
  handle = node_handle u.username;
  handle_known = λ rs. refl;
  handle_sniff =
      λ d a us rs. ap (λ b. node_handle u.username (d || b) a rs) (unmatched u.username d a us);
  handle_resolve =
      λ d a us rs. ap (λ b. node_handle u.username d (a || b) rs) (unmatched u.username d a us);
}

abbrev no_geo : GeoMatcher ℕ
no_geo = record { geo_ip = λ _ _. some false; geo_site = λ _ _. some false }

asked-seen : Sees digits_net no_geo asked (50 ∷ []) (a_node alice)
unfolding a_node
asked-seen = record {
  suffixes = λ x. refl;
  cidrs = λ x. refl;
  ip_in = λ _ _. false;
  site_in = λ _. false;
  geoip_answers = λ x ip. refl;
  geosite_answers = λ x. refl;
  geoip_sets = λ x. refl;
  geosite_sets = λ x. ground arith;
}

-- A rule whose tree is known is usable if that tree is.
IsUsable-by :
    (u : User) (p : RoutePolicy) (t v : MatchNode)
    → match_tree (policy_match p) ≡ some t
    → IsUsable (a_node u) digits_net t
    → match_tree (policy_match p) ≡ some v
    → IsUsable (a_node u) digits_net v
IsUsable-by u p t v e h f = let same : t ≡ v = cc (e, f) in rw same at h

sample-HasUsableRules : (u : User) → HasUsableRules digits_net (a_node u) sample
unfolding match_tree policy_match clean_by to_lower trim_space drop_spaces trim_dot
sample-HasUsableRules u p (Memᴰ.head e) on t made =
    IsUsable-by u by_the_exit _ t refl refl (ap (λ q. match_tree (policy_match q)) (sym e) ∙ made)
sample-HasUsableRules u p (Memᴰ.tail (Memᴰ.head e)) on t made =
    IsUsable-by u refuse_domain _ t refl (refl, refl, tt)
      (ap (λ q. match_tree (policy_match q)) (sym e) ∙ made)
sample-HasUsableRules u p (Memᴰ.tail (Memᴰ.tail m)) on t made = elim m [ ]

alice-active : Memᴰ alice (active_users sample 7)
alice-active =
    ((active_users_correct sample 7).1 alice).1 (Memᴰ.tail (Memᴰ.head refl), refl, λ t e. cc)

bob-active : Memᴰ bob (active_users sample 7)
bob-active = ((active_users_correct sample 7).1 bob).1 (Memᴰ.head refl, refl, λ t e. cc)

alice-owned : owner_of_group (first_group sample.groups alice.group_id) ≡ alice.owner_id
unfolding first_group text_eq
alice-owned = refl

alice-away : exit_of_group (first_group sample.groups alice.group_id) ≢ exit_direct
unfolding first_group text_eq
alice-away h = cc (apart ((text_eq_iff (codes "on") exit_direct).1 h))
  where
    apart : text_eq (codes "on") exit_direct ≡ true → false ≡ true
    apart e = e

-- The second rule of the node is the one of the namespace "me", and reads the domain.
domain-read : ReadDomain (body_rules digits_net sample (active_users sample 7)).0
unfolding body_rules trust_panel.Render.Compiler.emit_policies
    trust_panel.Render.Compiler.policies_by_tier trust_panel.Model.Order.sort_policies
    trust_panel.Render.Compiler.compile_policy trust_panel.Render.Compiler.policy_users
    trust_panel.Render.Matching.compile_match match_tree policy_match
    trust_panel.Render.Matching.node_rule trust_panel.Render.Matching.condition_rule clean_by
    trim_dot trim_space to_lower trust_panel.Render.Compiler.compile_reservation
    trust_panel.Render.Compiler.owner_members trust_panel.Model.Order.compare_policies
    trust_panel.Model.Order.insert_policy drop_spaces text_eq trust_panel.Render.Compiler.drained
    trust_panel.Render.Compiler.policy_exit trust_panel.Render.Compiler.resolve_exit
    trust_panel.Render.Config.scope trust_panel.Render.Config.join_except_rule
    trust_panel.Model.State.find_node active_users trust_panel.Model.State.sort_users_by_username
    trust_panel.Prelude.text_lt
domain-read = (_, Memᴰ.tail (Memᴰ.head refl), inl (codes "c", Memᴰ.head refl))

-- The connection comes with an address and without a name, as that of a tunnel's client.
simulate-agrees_example :
    (a_node alice).handle false true (compile_rules digits_net sample (active_users sample 7)).0
    ≡ verdict_of (simulate digits_net sample alice.group_id (codes "w.c") (50 ∷ []) (some no_geo))
unfolding a_node trim_space drop_spaces
simulate-agrees_example =
    simulate-agrees digits_net (λ _. false) sample 7 alice (a_node alice) no_geo (codes "w.c")
      (50 ∷ []) false true (sample-valid (λ _. false)) alice-active refl alice-owned alice-away
      (sample-HasUsableRules alice) asked-seen (inr domain-read) (inl refl)

-- The rule of the namespace "me" is foreign to a client of "us".
compile_rules-without_foreign_example :
    (a_node bob).handle true true (compile_rules digits_net sample (active_users sample 7)).0
    ≡ (a_node bob).handle true true
        (compile_rules digits_net (without_foreign bob sample) (active_users sample 7)).0
unfolding a_node
compile_rules-without_foreign_example =
    compile_rules-without_foreign digits_net (λ _. false) sample 7 bob (a_node bob) true true
      (sample-valid (λ _. false)) bob-active refl (sample-HasUsableRules bob) (inl refl) (inl refl)
