-- ===== src/Login/Sessions/Revocation.antt =====
-- auth.go: sessions that are ended stay ended, and sessions that are opened hold.
use trust_panel.Prelude.{
  ℕ, ◌+◌, ltb, ◌≡◌, ◌≢◌, refl, sym, ◌∙◌, ap, Bool, false, not, ◌||◌, ◌&&◌, Bool-cases, Option, none,
  some, Option-cases, List, [], ◌∷◌, any, if◌then◌else◌, inl, inr, Text, text_eq, text_eq_refl,
  is_empty, arith,
}
use trust_panel.Prelude.Int.{ℤ, pos, negsuc}
use trust_panel.Login.Sessions.{
  Session, Manager, new_manager, lookup, expiry_at, is_past, create, live, csrf_token, valid_csrf,
  validate_token, expand_view, revoke_user, revoke_user_except,
}
use trust_panel.Login.Sessions.Table.{keep_if, lookup-put}
use trust_panel.Login.Sessions.Runs.{
  SessionOp, opened, checked, viewed, closed, user_closed, all_closed, others_closed, timed, step,
  run, View, see, see_all, Refines, run-Refines, no_sessions, step-Refines,
}

abbrev owner_is : Text → Option Session → Bool
owner_is u none = false
owner_is u (some s) = text_eq s.username u

-- The operation opens a session of the user.
abbrev pub opens : Text → SessionOp → Bool
opens u (opened now v t c) = text_eq v u
opens u _ = false

-- A session that is not the user's does not become one, unless the user opens it.
see_keeps :
    (u : Text) (v : View) (o : SessionOp) (q : Text)
    → opens u o ≡ false
    → owner_is u (v.at q) ≡ false
    → owner_is u ((see v o).at q) ≡ false
see_keeps u v (opened now w t c) q e n = ground (arith, e, n)
see_keeps u v (checked now t) q e n = ground (arith, n)
see_keeps u v (viewed now t on) q e n = ground (arith, n)
see_keeps u v (closed t) q e n = ground (arith, n)
see_keeps u v (user_closed w) q e n = ground (arith, n)
see_keeps u v (all_closed t) q e n = ground (arith, n)
see_keeps u v (others_closed w t) q e n = ground (arith, n)
see_keeps u v (timed d) q e n = ground (arith, n)

see_all_keeps :
    (u : Text) (v : View) (ops : List SessionOp) (q : Text)
    → any (opens u) ops ≡ false
    → owner_is u (v.at q) ≡ false
    → owner_is u ((see_all v ops).at q) ≡ false
see_all_keeps u v [] q e n = n
see_all_keeps u v (o ∷ ops) q e n =
    see_all_keeps u (see v o) ops q (ground (arith, e)) (see_keeps u v o q (ground (arith, e)) n)

swept_owner_all :
    (u q : Text) (o : Option Session)
    → owner_is u (keep_if (λ e. not (text_eq e.1.username u)) q o) ≡ false
swept_owner_all u q none = refl
swept_owner_all u q (some s) = ground arith

swept_owner_but :
    (u kept q : Text) (o : Option Session)
    → text_eq q kept ≡ false
    → owner_is u (keep_if (λ e. text_eq e.0 kept || not (text_eq e.1.username u)) q o) ≡ false
swept_owner_but u kept q none k = refl
swept_owner_but u kept q (some s) k = ground (arith, k)

not_validated :
    (m : Manager) (u : Text) (now : ℕ) (token : Text)
    → owner_is u (lookup token m.sessions) ≡ false
    → (validate_token m now token).1 ≢ some u
unfolding validate_token
not_validated m u now token n = elim (Option-cases (lookup token m.sessions)) [
  | inl e ↦ ground (arith, e)
  | inr (s, e) ↦ ground (arith, e, n, text_eq_refl u)
]

module _ (ttl : ℤ) (before : List SessionOp) (o : SessionOp) (later : List SessionOp)
    (u token : Text) (now : ℕ) where
  ended :
      any (opens u) later ≡ false
      → owner_is u ((see (see_all (no_sessions ttl) before) o).at token) ≡ false
      → (validate_token (run (step (run (new_manager ttl) before) o) later) now token).1 ≢ some u
  unfolding lookup
  ended e n =
      let start : Refines (new_manager ttl) (no_sessions ttl) = record {
        distinct = tt;
        same = λ q. refl;
        lifetime = refl;
      } in
      let v = see_all (no_sessions ttl) before in
      let r =
        step-Refines (run (new_manager ttl) before) v o
          (run-Refines before (new_manager ttl) (no_sessions ttl) start) in
      let same =
        (run-Refines later (step (run (new_manager ttl) before) o) (see v o) r).same token in
      not_validated (run (step (run (new_manager ttl) before) o) later) u now token
        (ap (owner_is u) same ∙ see_all_keeps u (see v o) later token e n)

-- Once the sessions of a user are revoked, no token is accepted as that user's, at any time and after
-- any operations, until one of them opens a session of the user.
pub revoke_user-ends :
    (ttl : ℤ) (before later : List SessionOp) (u token : Text) (now : ℕ)
    → any (opens u) later ≡ false
    → (validate_token (run (revoke_user (run (new_manager ttl) before) u).0 later) now token).1
      ≢ some u
revoke_user-ends ttl before later u token now e =
    let o = (see_all (no_sessions ttl) before).at token in
    ended ttl before (user_closed u) later u token now e (swept_owner_all u token o)

-- Once the other sessions of a user are revoked, no token but the one that is kept is accepted as that
-- user's, at any time and after any operations, until one of them opens a session of the user.
pub revoke_user_except-ends :
    (ttl : ℤ) (before later : List SessionOp) (u kept token : Text) (now : ℕ)
    → any (opens u) later ≡ false
    → text_eq token kept ≡ false
    → (validate_token
        (run (revoke_user_except (run (new_manager ttl) before) u kept).0 later)
        now
        token).1
      ≢ some u
revoke_user_except-ends ttl before later u kept token now e k =
    let o = (see_all (no_sessions ttl) before).at token in
    ended ttl before (others_closed u kept) later u token now e (swept_owner_but u kept token o k)

csrf_lem :
    (c d : Text)
    → (not (is_empty c || is_empty d) && text_eq c d) ≡ (not (is_empty c) && text_eq c d)
unfolding text_eq
csrf_lem [] d = refl
csrf_lem (x ∷ c) [] = refl
csrf_lem (x ∷ c) (y ∷ d) = refl

-- Whether more than the lifetime has gone by since a session was opened; a negative lifetime is
-- over before it starts.
abbrev pub ran_out : ℤ → ℕ → ℕ → Bool
ran_out (pos d) opened_at later = ltb (opened_at + d) later
ran_out (negsuc d) opened_at later = ltb opened_at (later + d + 1)

is_past-expiry_at :
    (ttl : ℤ) (now later : ℕ) → is_past later (expiry_at now ttl) ≡ ran_out ttl now later
is_past-expiry_at (pos d) now later = refl
is_past-expiry_at (negsuc d) now later = ground arith

-- A session that is opened is accepted as its user's until its lifetime has gone by, and not after, takes exactly
-- its own CSRF token where that is not empty, and does not show other namespaces.
pub create-holds :
    (m : Manager) (now : ℕ) (u t c d : Text) (later : ℕ)
    → let m1 = (create m now u (some t) (some c)).0 in
      let past = ran_out m.ttl now later in
      ((validate_token m1 later t).1 ≡ (if past then none else some u))
      × (valid_csrf m1 later t d ≡ (not past && (not (is_empty c) && text_eq c d)))
      × (expand_view m1 later t ≡ false)
unfolding create validate_token valid_csrf csrf_token expand_view live
create-holds m now u t c d later =
    let s : Session = record {
      username = u;
      csrf = c;
      expires_at = expiry_at now m.ttl;
      expand_view = false;
    } in
    let found = lookup-put t t s m.sessions in
    rw (sym (is_past-expiry_at m.ttl now later))
      (elim (Bool-cases (is_past later (expiry_at now m.ttl))) [
        | inl e ↦ (
          ground (arith, e, found, text_eq_refl t),
          ground (arith, e, found, text_eq_refl t),
          ground (arith, e, found, text_eq_refl t),
        )
        | inr e ↦ (
          ground (arith, e, found, text_eq_refl t),
          ground (arith, e, found, text_eq_refl t, csrf_lem c d),
          ground (arith, e, found, text_eq_refl t),
        )
      ])
