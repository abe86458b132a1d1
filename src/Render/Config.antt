-- ===== src/Render/Config.antt =====
-- render/singbox.go: the part of a sing-box rule that the compiler builds, and the combinators on
-- it. A logical rule is one of the two forms that the compiler makes: two rules under a mode, or
-- one rule inverted.
use trust_panel.Prelude.{Bool, true, false, ◌||◌, List, [], ◌∷◌, ◌++◌, Text}

pub record FlatMatch : Type 0 where
  pub invert : Bool
  pub auth_user : List Text
  pub domain_suffix : List Text
  pub ip_cidr : List Text
  pub rule_set : List Text

pub data Mode : Type 0 where
  mode_and mode_or : Mode

-- The matchers of sbRule. `flat` has an empty `type`; `logical` is logical(mode, a, b);
-- `inverted` is the logical rule that invertRule wraps around one rule.
pub data SbMatch : Type 0 where
  flat : FlatMatch → SbMatch
  logical : Mode → SbMatch → SbMatch → SbMatch
  inverted : SbMatch → SbMatch

-- The `action` of a rule; `route` is the empty text.
pub data SbAction : Type 0 where
  route reject resolve sniff : SbAction

pub record SbRule : Type 0 where
  pub matcher : SbMatch
  pub action : SbAction
  pub outbound : Text

abbrev pub no_matchers : FlatMatch
no_matchers = record {
  invert = false;
  auth_user = [];
  domain_suffix = [];
  ip_cidr = [];
  rule_set = [];
}

-- mergeFlat, on the flat rules that it is called for.
abbrev pub merge_flat : FlatMatch → FlatMatch → FlatMatch
merge_flat a b = record a {
  domain_suffix = a.domain_suffix ++ b.domain_suffix;
  ip_cidr = a.ip_cidr ++ b.ip_cidr;
  rule_set = a.rule_set ++ b.rule_set;
}

-- invertRule
abbrev pub invert_rule : SbMatch → SbMatch
invert_rule (flat f) = flat (record f { invert = true })
invert_rule (logical m a b) = inverted (logical m a b)
invert_rule (inverted a) = inverted (inverted a)

pub data Half : Type 0 where
  no_half address_half rule_set_half : Half

abbrev pub non_empty {ℓ} : {A : Type ℓ} → List A → Bool
non_empty [] = false
non_empty (_ ∷ _) = true

-- The half that a flat rule occupies, from whether it has address matchers and rule-sets.
abbrev pub half_of : Bool → Bool → Half
half_of true false = address_half
half_of false true = rule_set_half
half_of true true = no_half
half_of false false = no_half

-- chainHalf
abbrev pub flat_chain_half : FlatMatch → Half
flat_chain_half f = elim f.invert [
  | true ↦ no_half
  | false ↦ half_of (non_empty f.domain_suffix || non_empty f.ip_cidr) (non_empty f.rule_set)
]

abbrev pub chain_half : SbMatch → Half
chain_half (flat f) = flat_chain_half f
chain_half (logical _ _ _) = no_half
chain_half (inverted _) = no_half

abbrev pub same_half : Half → Half → Bool
same_half address_half address_half = true
same_half rule_set_half rule_set_half = true
same_half _ _ = false

abbrev pub other_half : Half → Half → Bool
other_half address_half rule_set_half = true
other_half rule_set_half address_half = true
other_half _ _ = false

-- mergeFlat on two rules that chainHalf has shown to be flat.
abbrev pub merge : SbMatch → SbMatch → SbMatch
merge (flat a) (flat b) = flat (merge_flat a b)
merge a _ = a

-- The join of two compiled nodes: `or` and `and` of nodeRule.
unfoldable pub join_or_rule : SbMatch → SbMatch → SbMatch
join_or_rule l r = elim (same_half (chain_half l) (chain_half r)) [
  | true ↦ merge l r
  | false ↦ logical mode_or l r
]

unfoldable pub join_and_rule : SbMatch → SbMatch → SbMatch
join_and_rule l r = elim (other_half (chain_half l) (chain_half r)) [
  | true ↦ merge l r
  | false ↦ logical mode_and l r
]

unfoldable pub join_except_rule : SbMatch → SbMatch → SbMatch
join_except_rule l r = logical mode_and l (invert_rule r)

-- scope, for a list of users that is not empty.
abbrev scope_to : SbMatch → List Text → SbMatch
scope_to (flat f) users = flat (record f { auth_user = users })
scope_to m users = logical mode_and (flat (record no_matchers { auth_user = users })) m

-- entryCompiler.scope
unfoldable pub scope : SbMatch → List Text → SbMatch
scope m [] = m
scope m (u ∷ us) = scope_to m (u ∷ us)
