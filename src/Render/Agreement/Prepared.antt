-- ===== src/Render/Agreement/Prepared.antt =====
-- The sniff and the resolve rule of a compiled list, and what they bring up of a connection.
use mathlib.Core.List.{Memᴰ}
use trust_panel.Prelude.{
  ◌≡◌, refl, sym, ◌∙◌, ap, ◌⊎◌, inl, inr, Bool, true, false, List, [], ◌∷◌, any, arith, Text, codes,
  text_eq, has_prefix, Bool-cases,
}
use trust_panel.Model.Node.{User}
use trust_panel.Model.State.{State}
use trust_panel.Render.Netip.{Netip}
use trust_panel.Render.Config.{SbMatch, flat, logical, inverted, SbRule, non_empty}
use trust_panel.Render.Matching.{Effect}
use trust_panel.Render.Compiler.{
  body_rules, compile_rules, flat_needs_sniff, needs_sniff, sniff_first, resolve_first, resolve_all,
  resolve_users, resolve_rule, sorted_keys,
}
use trust_panel.Render.SingBox.{SingBox}
use trust_panel.Render.Agreement.Members.{any-sorted_keys}
use trust_panel.Render.Agreement.Resolved.{notes}

-- An ordinary rule reads the domain: by a suffix, or by a rule-set of domains.
abbrev pub ReadsDomain : SbMatch → Type 0
ReadsDomain (flat f) =
    ((d : Text) × Memᴰ d f.domain_suffix)
    ⊎ ((tag : Text) × Memᴰ tag f.rule_set × (has_prefix tag (codes "geosite-") ≡ true))
ReadsDomain (logical _ _ _) = ⊥
ReadsDomain (inverted _) = ⊥

-- One of the rules is an ordinary one that reads the domain.
abbrev pub ReadDomain : List SbRule → Type 0
ReadDomain rules = (r : SbRule) × Memᴰ r rules × ReadsDomain r.matcher

any-here : (p : Text → Bool) (xs : List Text) (x : Text) → Memᴰ x xs → p x ≡ true → any p xs ≡ true
any-here p [] x m h = elim m [ ]
any-here p (y ∷ ys) x (Memᴰ.head e) h =
    let same : p y ≡ true = ap p (sym e) ∙ h in ground (arith, same)
any-here p (y ∷ ys) x (Memᴰ.tail m) h = ground (arith, any-here p ys x m h)

non_empty-Mem : (x : Text) (xs : List Text) → Memᴰ x xs → non_empty xs ≡ true
non_empty-Mem x [] m = elim m [ ]
non_empty-Mem x (y ∷ ys) m = refl

reads-flat_needs_sniff : (m : SbMatch) → ReadsDomain m → flat_needs_sniff m ≡ true
reads-flat_needs_sniff (flat f) (inl (d, m)) = ground (arith, non_empty-Mem d f.domain_suffix m)
reads-flat_needs_sniff (flat f) (inr (tag, m, h)) =
    ground (arith, any-here (λ t. has_prefix t (codes "geosite-")) f.rule_set tag m h)
reads-flat_needs_sniff (logical _ _ _) h = absurd h
reads-flat_needs_sniff (inverted _) h = absurd h

ReadDomain-needs_sniff : (rules : List SbRule) → ReadDomain rules → needs_sniff rules ≡ true
unfolding needs_sniff
ReadDomain-needs_sniff [] (r, m, h) = elim m [ ]
ReadDomain-needs_sniff (r ∷ rules) (q, Memᴰ.head e, h) =
    let same : flat_needs_sniff r.matcher ≡ true =
      ap (λ (x : SbRule). flat_needs_sniff x.matcher) (sym e)
      ∙ reads-flat_needs_sniff q.matcher h in
    ground (arith, same)
ReadDomain-needs_sniff (r ∷ rules) (q, Memᴰ.tail m, h) =
    ground (arith, ReadDomain-needs_sniff rules (q, m, h))

noted-resolve_users :
    (u : Text) (log : List Effect)
    → resolve_all log ≡ false
    → notes u log ≡ true
    → any (text_eq u) (resolve_users log) ≡ true
unfolding notes
noted-resolve_users u log e n = ground (arith, e, n)

some-non_empty : (p : Text → Bool) (xs : List Text) → any p xs ≡ true → non_empty xs ≡ true
some-non_empty p [] h = cc h
some-non_empty p (x ∷ xs) h = refl

module _ (c : SingBox) where
  sniff_first-handled :
      (domain addresses needed : Bool) (rules : List SbRule)
      → (domain ≡ true) ⊎ (needed ≡ true)
      → c.handle domain addresses (sniff_first needed rules) ≡ c.handle true addresses rules
  unfolding sniff_first
  sniff_first-handled true addresses true rules h = c.handle_sniff true addresses [] rules
  sniff_first-handled false addresses true rules h = c.handle_sniff false addresses [] rules
  sniff_first-handled true addresses false rules h = refl
  sniff_first-handled false addresses false rules (inl e) = cc e
  sniff_first-handled false addresses false rules (inr e) = cc e

  resolve_users-handled :
      (addresses : Bool) (log : List Effect) (rules : List SbRule)
      → (addresses ≡ true) ⊎ (any (text_eq c.user) (resolve_users log) ≡ true)
      → c.handle true addresses (resolve_rule (sorted_keys (resolve_users log)) ∷ rules)
        ≡ c.handle true true rules
  resolve_users-handled true log rules h =
      c.handle_resolve true true (sorted_keys (resolve_users log)) rules
  resolve_users-handled false log rules (inl e) = cc e
  resolve_users-handled false log rules (inr e) = ground (
    arith,
    e,
    any-sorted_keys c.user (resolve_users log),
    c.handle_resolve true false (sorted_keys (resolve_users log)) rules,
  )

  resolve_first-handled :
      (addresses : Bool) (log : List Effect) (rules : List SbRule)
      → (addresses ≡ true) ⊎ (notes c.user log ≡ true)
      → c.handle true addresses (resolve_first log rules) ≡ c.handle true true rules
  unfolding resolve_first
  resolve_first-handled addresses log rules h = elim (Bool-cases (resolve_all log)) [
    | inl e ↦ rw e (everyone addresses)
    | inr e ↦ elim (Bool-cases (non_empty (resolve_users log))) [
      | inl k ↦ rw (e, k) (resolve_users-handled addresses log rules (noted e h))
      | inr k ↦ rw (e, k) (known k (noted e h))
    ]
  ]
    where
      everyone : (b : Bool) → c.handle true b (resolve_rule [] ∷ rules) ≡ c.handle true true rules
      everyone true = c.handle_resolve true true [] rules
      everyone false = c.handle_resolve true false [] rules

      noted :
          resolve_all log ≡ false
          → (addresses ≡ true) ⊎ (notes c.user log ≡ true)
          → (addresses ≡ true) ⊎ (any (text_eq c.user) (resolve_users log) ≡ true)
      noted e (inl a) = inl a
      noted e (inr n) = inr (noted-resolve_users c.user log e n)

      known :
          non_empty (resolve_users log) ≡ false
          → (addresses ≡ true) ⊎ (any (text_eq c.user) (resolve_users log) ≡ true)
          → c.handle true addresses rules ≡ c.handle true true rules
      known k (inl a) = rw a refl
      known k (inr e) = cc (k, some-non_empty (text_eq c.user) (resolve_users log) e)

  -- By the time that the first final rule is read, the domain and the addresses of the connection
  -- are known, if they were before, or are recorded as read and so are sniffed and resolved.
  pub compile_rules-handled :
      (net : Netip) (s : State) (active : List User) (domain addresses : Bool)
      → (domain ≡ true) ⊎ ReadDomain (body_rules net s active).0
      → (addresses ≡ true) ⊎ (notes c.user (body_rules net s active).1 ≡ true)
      → c.handle domain addresses (compile_rules net s active).0
        ≡ c.verdict (body_rules net s active).0
  compile_rules-handled net s active domain addresses reads resolves =
      let (rules, log) = body_rules net s active in
      unfold compile_rules in
      (sniff_first-handled domain addresses (needs_sniff rules) (resolve_first log rules)
          (elim reads [ inl e ↦ inl e | inr r ↦ inr (ReadDomain-needs_sniff rules r) ])
        ∙ resolve_first-handled addresses log rules resolves
        ∙ c.handle_known rules)
