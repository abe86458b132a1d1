-- ===== src/Render/SingBox.antt =====
-- sing-box, which is not part of the repository, as the compiler relies on it for one connection:
-- which matcher holds, and which rule of a list decides.
use trust_panel.Prelude.{
  ◌≡◌, Bool, true, false, not, ◌&&◌, ◌||◌, List, [], ◌∷◌, any, differ, if◌then◌else◌, Text, text_eq,
}
use trust_panel.Model.Node.{exit_direct}
use trust_panel.Render.Config.{
  FlatMatch, SbMatch, flat, logical, inverted, mode_and, mode_or, SbAction, route, reject, resolve,
  sniff, SbRule, non_empty, no_matchers,
}

pub data Verdict : Type 0 where
  refused : Verdict
  via : Text → Verdict

abbrev pub is_final : SbAction → Bool
is_final route = true
is_final reject = true
is_final resolve = false
is_final sniff = false

abbrev pub outcome : SbRule → Verdict
outcome r = elim r.action [ reject ↦ refused | _ ↦ via r.outbound ]

-- The rules that only find out more about a connection of some users (no users is everyone).
abbrev pub prepare : SbAction → List Text → SbRule
prepare action users = record {
  matcher = flat (record no_matchers { auth_user = users });
  action = action;
  outbound = [];
}

-- One connection of `user`. `suffix_hit`, `cidr_hit` and `set_hit` say which domain suffixes,
-- address ranges and rule-set tags its destination is in, once its domain and its addresses are
-- known. The laws are those that sing-box documents: the address matchers and the rule-sets of a flat
-- rule, which are merged into it, are alternatives, intersected with its users; a logical rule joins
-- two rules; the first final rule that matches decides, and where none does the connection leaves by
-- the route's final outbound. `verdict` is what is done with the connection once domain and addresses
-- are known; sniffing and resolving then find out nothing new. `handle` is what is done with it where
-- the domain is known or not, and the addresses are known or not: sniffing it brings up its domain,
-- and resolving it its addresses. How other rules match before that is left open.
pub record SingBox : Type 0 where
  pub user : Text
  pub suffix_hit : Text → Bool
  pub cidr_hit : Text → Bool
  pub set_hit : Text → Bool
  pub matches : SbMatch → Bool
  pub flat_law :
      (f : FlatMatch)
      → matches (flat f)
        ≡ differ f.invert (
            (not (non_empty f.auth_user) || any (text_eq user) f.auth_user)
            && (not ((non_empty f.domain_suffix || non_empty f.ip_cidr) || non_empty f.rule_set)
                || ((any suffix_hit f.domain_suffix || any cidr_hit f.ip_cidr)
                    || any set_hit f.rule_set)))
  pub and_law : (a b : SbMatch) → matches (logical mode_and a b) ≡ (matches a && matches b)
  pub or_law : (a b : SbMatch) → matches (logical mode_or a b) ≡ (matches a || matches b)
  pub inverted_law : (a : SbMatch) → matches (inverted a) ≡ not (matches a)
  pub verdict : List SbRule → Verdict
  pub verdict_nil : verdict [] ≡ via exit_direct
  pub verdict_cons :
      (r : SbRule) (rs : List SbRule)
      → verdict (r ∷ rs)
        ≡ (if is_final r.action && matches r.matcher then outcome r else verdict rs)
  pub handle : Bool → Bool → List SbRule → Verdict
  pub handle_known : (rs : List SbRule) → handle true true rs ≡ verdict rs
  pub handle_sniff :
      (domain addresses : Bool) (users : List Text) (rs : List SbRule)
      → handle domain addresses (prepare sniff users ∷ rs)
        ≡ handle (domain || (not (non_empty users) || any (text_eq user) users)) addresses rs
  pub handle_resolve :
      (domain addresses : Bool) (users : List Text) (rs : List SbRule)
      → handle domain addresses (prepare resolve users ∷ rs)
        ≡ handle domain (addresses || (not (non_empty users) || any (text_eq user) users)) rs
