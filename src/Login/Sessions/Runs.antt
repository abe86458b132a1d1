-- ===== src/Login/Sessions/Runs.antt =====
-- auth.go: what any sequence of operations on the sessions comes to.
use trust_panel.Prelude.{
  ℕ, ◌≡◌, refl, ◌∙◌, ap, Bool, true, false, not, ◌||◌, Bool-cases, Option, none, some, Option-cases,
  List, [], ◌∷◌, if◌then◌else◌, inl, inr, Text, text_eq, text_eq_iff, arith,
}
use trust_panel.Prelude.Int.{ℤ, is_positive}
use trust_panel.Login.Sessions.{
  Session, Manager, lookup, expiry_at, is_past, create, unexpired, live, validate_token,
  set_expand_view, revoke, swept, revoke_user, set_ttl, revoke_all_except, revoke_user_except,
}
use trust_panel.Login.Sessions.Table.{
  IsDistinct, keep_if, lookup-delete, lookup-put, lookup-sweep, put-IsDistinct, delete-IsDistinct,
  sweep-IsDistinct,
}

-- The operations that can change a session.
pub data SessionOp : Type 0 where
  opened : ℕ → Text → Text → Text → SessionOp
  checked : ℕ → Text → SessionOp
  viewed : ℕ → Text → Bool → SessionOp
  closed user_closed all_closed : Text → SessionOp
  others_closed : Text → Text → SessionOp
  timed : ℤ → SessionOp

abbrev pub step : Manager → SessionOp → Manager
step m (opened now u t c) = (create m now u (some t) (some c)).0
step m (checked now t) = (validate_token m now t).0
step m (viewed now t on) = (set_expand_view m now t on).0
step m (closed t) = revoke m t
step m (user_closed u) = (revoke_user m u).0
step m (all_closed t) = (revoke_all_except m t).0
step m (others_closed u t) = (revoke_user_except m u t).0
step m (timed d) = set_ttl m d

abbrev pub run : Manager → List SessionOp → Manager
run m [] = m
run m (o ∷ ops) = run (step m o) ops

-- The abstract view: at most one session for each token, and the lifetime of the next one.
pub record View : Type 0 where
  pub at : Text → Option Session
  pub ttl : ℤ

abbrev pub set_view : Bool → Option Session → Option Session → Option Session
set_view on none o = o
set_view on (some s) o = some (record s { expand_view = on })

abbrev pub see : View → SessionOp → View
see v (opened now u t c) = record v {
  at = λ q.
      if text_eq q t
      then some
          (record { username = u; csrf = c; expires_at = expiry_at now v.ttl; expand_view = false })
      else v.at q;
}
see v (checked now t) = record v {
  at = λ q. if text_eq q t then unexpired now (v.at q) else v.at q;
}
see v (viewed now t on) = record v {
  at = λ q. if text_eq q t then set_view on (unexpired now (v.at q)) (v.at q) else v.at q;
}
see v (closed t) = record v { at = λ q. if text_eq q t then none else v.at q }
see v (user_closed u) = record v {
  at = λ q. keep_if (λ e. not (text_eq e.1.username u)) q (v.at q);
}
see v (all_closed t) = record v { at = λ q. keep_if (λ e. text_eq e.0 t) q (v.at q) }
see v (others_closed u t) = record v {
  at = λ q. keep_if (λ e. text_eq e.0 t || not (text_eq e.1.username u)) q (v.at q);
}
see v (timed d) = if is_positive d then record v { ttl = d } else v

abbrev pub see_all : View → List SessionOp → View
see_all v [] = v
see_all v (o ∷ ops) = see_all (see v o) ops

-- The manager has the sessions of the view.
pub record Refines (m : Manager) (v : View) : Type 0 where
  pub distinct : IsDistinct m.sessions
  pub same : (q : Text) → lookup q m.sessions ≡ v.at q
  pub lifetime : m.ttl ≡ v.ttl

module _ (m : Manager) where
  validate_token-lookup :
      (now : ℕ) (t q : Text)
      → lookup q (validate_token m now t).0.sessions
        ≡ (if text_eq q t then unexpired now (lookup q m.sessions) else lookup q m.sessions)
  unfolding validate_token
  validate_token-lookup now t q =
      let whole = lookup-delete q t m.sessions in
      elim (Option-cases (lookup t m.sessions)) [
        | inl e ↦ elim (Bool-cases (text_eq q t)) [
          | inl a ↦ ground (arith, e, a, ap (λ x. lookup x m.sessions) ((text_eq_iff q t).0 a))
          | inr a ↦ ground (arith, e, a)
        ]
        | inr (s, e) ↦ elim (Bool-cases (text_eq q t)) [
          | inl a ↦
              ground (arith, e, a, whole, ap (λ x. lookup x m.sessions) ((text_eq_iff q t).0 a))
          | inr a ↦ ground (arith, e, a, whole)
        ]
      ]

  set_expand_view-lookup :
      (now : ℕ) (t : Text) (on : Bool) (q : Text)
      → lookup q (set_expand_view m now t on).0.sessions ≡ (
          if text_eq q t
          then set_view on (unexpired now (lookup q m.sessions)) (lookup q m.sessions)
          else lookup q m.sessions)
  unfolding set_expand_view live
  set_expand_view-lookup now t on q = elim (Option-cases (live m now t)) [
    | inl e ↦ elim (Bool-cases (text_eq q t)) [
      | inl a ↦ ground (arith, e, a, ap (λ x. lookup x m.sessions) ((text_eq_iff q t).0 a))
      | inr a ↦ ground (arith, e, a)
    ]
    | inr (s, e) ↦
        let whole = lookup-put q t (record s { expand_view = on }) m.sessions in
        elim (Bool-cases (text_eq q t)) [
          | inl a ↦
              ground (arith, e, a, whole, ap (λ x. lookup x m.sessions) ((text_eq_iff q t).0 a))
          | inr a ↦ ground (arith, e, a, whole)
        ]
  ]

  validate_token-IsDistinct :
      (now : ℕ) (t : Text) → IsDistinct m.sessions → IsDistinct (validate_token m now t).0.sessions
  unfolding validate_token
  validate_token-IsDistinct now t d = elim (Option-cases (lookup t m.sessions)) [
    | inl e ↦ rw e d
    | inr (s, e) ↦ elim (Bool-cases (is_past now s.expires_at)) [
      | inl a ↦ rw (e, a) (delete-IsDistinct t m.sessions d)
      | inr a ↦ rw (e, a) d
    ]
  ]

  set_expand_view-IsDistinct :
      (now : ℕ) (t : Text) (on : Bool)
      → IsDistinct m.sessions
      → IsDistinct (set_expand_view m now t on).0.sessions
  unfolding set_expand_view
  set_expand_view-IsDistinct now t on d = elim (Option-cases (live m now t)) [
    | inl e ↦ rw e d
    | inr (s, e) ↦ rw e (put-IsDistinct t (record s { expand_view = on }) m.sessions d)
  ]

  kept_ttl :
      (now : ℕ) (t : Text) (on : Bool)
      → ((validate_token m now t).0.ttl ≡ m.ttl) × ((set_expand_view m now t on).0.ttl ≡ m.ttl)
  unfolding validate_token set_expand_view
  kept_ttl now t on = (
    elim (Option-cases (lookup t m.sessions)) [
      | inl e ↦ ground (arith, e)
      | inr (s, e) ↦ ground (arith, e)
    ],
    elim (Option-cases (live m now t)) [
      | inl e ↦ ground (arith, e)
      | inr (s, e) ↦ ground (arith, e)
    ],
  )

  sweep-Refines :
      (v : View) (kept : Text × Session → Bool)
      → Refines m v
      → Refines (swept m kept).0 (record v { at = λ q. keep_if kept q (v.at q) })
  sweep-Refines v kept r = record {
    distinct = sweep-IsDistinct kept m.sessions r.distinct;
    same = λ q. lookup-sweep kept q m.sessions r.distinct ∙ ap (keep_if kept q) (r.same q);
    lifetime = r.lifetime;
  }

pub step-Refines :
    (m : Manager) (v : View) (o : SessionOp) → Refines m v → Refines (step m o) (see v o)
unfolding create revoke revoke_user revoke_all_except revoke_user_except set_ttl
step-Refines m v (opened now u t c) r = record {
  distinct = put-IsDistinct t _ m.sessions r.distinct;
  same = λ q. rw (lookup-put q t _ m.sessions, r.same q, r.lifetime) refl;
  lifetime = r.lifetime;
}
step-Refines m v (checked now t) r = record {
  distinct = validate_token-IsDistinct m now t r.distinct;
  same = λ q.
      validate_token-lookup m now t q
      ∙ ap (λ o. if text_eq q t then unexpired now o else o) (r.same q);
  lifetime = (kept_ttl m now t true).0 ∙ r.lifetime;
}
step-Refines m v (viewed now t on) r = record {
  distinct = set_expand_view-IsDistinct m now t on r.distinct;
  same = λ q.
      set_expand_view-lookup m now t on q
      ∙ ap (λ o. if text_eq q t then set_view on (unexpired now o) o else o) (r.same q);
  lifetime = (kept_ttl m now t on).1 ∙ r.lifetime;
}
step-Refines m v (closed t) r = record {
  distinct = delete-IsDistinct t m.sessions r.distinct;
  same = λ q. rw (lookup-delete q t m.sessions, r.same q) refl;
  lifetime = r.lifetime;
}
step-Refines m v (user_closed u) r = sweep-Refines m v (λ e. not (text_eq e.1.username u)) r
step-Refines m v (all_closed t) r = sweep-Refines m v (λ e. text_eq e.0 t) r
step-Refines m v (others_closed u t) r =
    sweep-Refines m v (λ e. text_eq e.0 t || not (text_eq e.1.username u)) r
step-Refines m v (timed d) r = elim (Bool-cases (is_positive d)) [
  | inl e ↦ rw e (record { distinct = r.distinct; same = r.same; lifetime = refl })
  | inr e ↦ rw e r
]

pub run-Refines :
    (ops : List SessionOp) (m : Manager) (v : View)
    → Refines m v
    → Refines (run m ops) (see_all v ops)
run-Refines [] m v r = r
run-Refines (o ∷ ops) m v r = run-Refines ops (step m o) (see v o) (step-Refines m v o r)

abbrev pub no_sessions : ℤ → View
no_sessions ttl = record { at = λ _. none; ttl = ttl }
