-- ===== src/Control/Units.antt =====
-- controller/build.go: the units that a node is told to run and to stop are its agent's.
use trust_panel.Prelude.{
  ◌≡◌, true, not, Bool-cases, Option, none, some, List, [], ◌∷◌, All, All-append, All-filter, any,
  filter, map, inl, inr, Text, text_eq, text_lt, arith,
}
use trust_panel.Prelude.Result.{ok}
use trust_panel.Model.Node.{Node, PublicRole}
use trust_panel.Agent.Payload.{Config, service_ok}
use trust_panel.Agent.Reconcile.{insert_text, sort_texts}
use trust_panel.Control.{running_set, services_for_node, unit_up, unit_down}

module _ (P : Text → Type 0) where
  All-insert_text : (t : Text) (ts : List Text) → P t → All P ts → All P (insert_text t ts)
  unfolding insert_text
  All-insert_text t [] h a = (h, a)
  All-insert_text t (u ∷ us) h (k, a) = elim (Bool-cases (text_lt u t)) [
    | inl e ↦ rw e (k, All-insert_text t us h a)
    | inr e ↦ rw e (h, (k, a))
  ]

  All-sort_texts : (ts : List Text) → All P ts → All P (sort_texts ts)
  unfolding sort_texts
  All-sort_texts [] a = tt
  All-sort_texts (t ∷ ts) (h, a) = All-insert_text t (sort_texts ts) h (All-sort_texts ts a)

-- The agent may manage the unit.
abbrev pub IsAllowed : Config → Text → Type 0
IsAllowed c name = any (text_eq name) c.service_allowlist ≡ true

module _ (c : Config) where
  started :
      (names : List Text)
      → All (IsAllowed c) names
      → All (λ s. service_ok c s ≡ ok tt) (map unit_up names)
  started [] a = tt
  started (n ∷ names) (h, a) = (ground (arith, h), started names a)

  stopped :
      (names : List Text)
      → All (IsAllowed c) names
      → All (λ s. service_ok c s ≡ ok tt) (map unit_down names)
  stopped [] a = tt
  stopped (n ∷ names) (h, a) = (ground (arith, h), stopped names a)

  abbrev pub managed : Option Node → List Text
  managed none = []
  managed (some n) = n.managed_services

  pub services-accepted :
      (o : Option Node) (role : PublicRole)
      → All (IsAllowed c) (running_set role)
      → All (IsAllowed c) (managed o)
      → All (λ s. service_ok c s ≡ ok tt) (services_for_node o role)
  unfolding services_for_node
  services-accepted none role r a = started (running_set role) r
  services-accepted (some n) role r a =
      let kept = λ (s : Text). not (any (text_eq s) (running_set role)) in
      All-append (λ s. service_ok c s ≡ ok tt)
        (map unit_down (sort_texts (filter kept n.managed_services)))
        (map unit_up (running_set role))
        (stopped (sort_texts (filter kept n.managed_services)) (
          All-sort_texts (IsAllowed c) (filter kept n.managed_services)
            (All-filter (IsAllowed c) kept n.managed_services a)))
        (started (running_set role) r)
