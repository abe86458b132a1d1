-- ===== src/Render/Agreement/Foreign.antt =====
-- The rules of other namespaces, on an entry node that carries the clients of all of them.
use mathlib.Core.List.{Memᴰ}
use trust_panel.Prelude.{
  ◌≡◌, refl, sym, ◌∙◌, ap, Bool, true, false, not, ◌&&◌, List, [], ◌∷◌, ◌++◌, filter, arith,
  text_eq, is_empty, Bool-cases, inl, inr,
}
use trust_panel.Model.Node.{User}
use trust_panel.Model.Policy.{RoutePolicy}
use trust_panel.Model.State.{State}
use trust_panel.Render.Netip.{Netip}
use trust_panel.Render.Config.{SbRule}
use trust_panel.Render.Compiler.{compile_policy, compile_reservation, one_rule, emit_policies}
use trust_panel.Render.Simulator.{applies}
use trust_panel.Render.SingBox.{SingBox}
use trust_panel.Render.Agreement.Members.{IsOnly}
use trust_panel.Render.Agreement.Policies.{
  Fits, reserved_for, compile_policy-verdict, compile_reservation-verdict,
}
use trust_panel.Render.Agreement.Lists.{emit_policies-cons}

-- A rule of another namespace than the user's, which is not written for the user's group.
abbrev pub is_foreign : User → RoutePolicy → Bool
is_foreign u p =
    not (is_empty p.owner_id)
    && (not (text_eq p.owner_id u.owner_id) && not (text_eq p.applies_to_group_id u.group_id))

pub foreign_applies :
    (u : User) (p : RoutePolicy) → is_foreign u p ≡ true → applies p u.group_id u.owner_id ≡ false
unfolding applies
foreign_applies u p h = ground arith

foreign_reserves :
    (u : User) (p : RoutePolicy) → is_foreign u p ≡ true → reserved_for p u.owner_id ≡ false
foreign_reserves u p h = ground arith

module _ (net : Netip) (s : State) (active : List User) (u : User) (only : IsOnly active u)
    (c : SingBox) (named : c.user ≡ u.username) where
  abbrev both : RoutePolicy → List SbRule → List SbRule
  both p rest =
      one_rule (compile_policy net s active p).0
        (one_rule (compile_reservation net s active p).0 rest)

  foreign-passes :
      (p : RoutePolicy) (rest : List SbRule)
      → Fits net c p
      → is_foreign u p ≡ true
      → c.verdict (both p rest) ≡ c.verdict rest
  foreign-passes p rest fits h =
      compile_policy-verdict net s active u only c named p _ fits
      ∙ rw (foreign_applies u p h) (
          compile_reservation-verdict net s active u only c named p rest fits
          ∙ rw (foreign_reserves u p h) refl)

  -- What a rule does depends on the rules behind it by their verdict only.
  both-verdict :
      (p : RoutePolicy) (rest more : List SbRule)
      → Fits net c p
      → c.verdict rest ≡ c.verdict more
      → c.verdict (both p rest) ≡ c.verdict (both p more)
  both-verdict p rest more fits e =
      let own = compile_policy-verdict net s active u only c named p in
      let others = compile_reservation-verdict net s active u only c named p in
      own _ fits ∙ rw (others rest fits, e) (sym (own _ fits ∙ rw (others more fits) refl))

  -- Leaving out the rules of other namespaces changes nothing in what the node does with a connection
  -- of the user, if the rules behind do the same with it.
  pub emit_policies-is_foreign :
      (ps : List RoutePolicy) (rest more : List SbRule)
      → ((p : RoutePolicy) → Memᴰ p ps → Fits net c p)
      → c.verdict rest ≡ c.verdict more
      → c.verdict ((emit_policies net s active ps).0 ++ rest)
        ≡ c.verdict ((emit_policies net s active (filter (λ p. not (is_foreign u p)) ps)).0 ++ more)
  emit_policies-is_foreign [] rest more fits h = unfold emit_policies in h
  emit_policies-is_foreign (p ∷ ps) rest more fits h =
      let here = fits p (Memᴰ.head refl) in
      let kept = filter (λ q. not (is_foreign u q)) ps in
      let later = emit_policies-is_foreign ps rest more (λ q m. fits q (Memᴰ.tail m)) h in
      ap c.verdict (emit_policies-cons net s active p ps rest)
      ∙ elim (Bool-cases (is_foreign u p)) [
        | inl e ↦ rw e (foreign-passes p _ here e ∙ later)
        | inr e ↦ rw e (
            both-verdict p _ ((emit_policies net s active kept).0 ++ more) here later
            ∙ ap c.verdict (sym (emit_policies-cons net s active p kept more)))
      ]
