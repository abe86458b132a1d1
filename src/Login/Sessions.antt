-- ===== src/Login/Sessions.antt =====
-- auth.go: SessionManager, the sessions of the panel's users, in memory. The clock and the random
-- tokens are arguments; an instant is a number of nanoseconds.
pub mod Table
pub mod Runs
pub mod Revocation
use trust_panel.Prelude.{
  ℕ, ◌+◌, ◌-◌, ltb, Bool, true, false, not, ◌&&◌, ◌||◌, Option, none, some, List, [], ◌∷◌,
  if◌then◌else◌, filter, length, Text, text_eq, is_empty,
}
use trust_panel.Prelude.Int.{ℤ, pos, negsuc, is_positive}

-- session
pub record Session : Type 0 where
  pub username : Text
  pub csrf : Text
  pub expires_at : ℤ
  pub expand_view : Bool

-- The map of the manager, as a list of its entries with no token twice.
abbrev pub Table : Type 0
Table = List (Text × Session)

-- SessionManager
pub record Manager : Type 0 where
  pub sessions : Table
  pub ttl : ℤ

-- NewSessionManager
abbrev pub new_manager : ℤ → Manager
new_manager ttl = record { sessions = []; ttl = ttl }

-- `m.sessions[token]`
unfoldable pub lookup : Text → Table → Option Session
lookup token [] = none
lookup token ((t, s) ∷ rest) =
    let later = lookup token rest in if text_eq token t then some s else later

abbrev pub is_other : Text → Text × Session → Bool
is_other token e = not (text_eq token e.0)

-- `delete(m.sessions, token)`
unfoldable pub delete : Text → Table → Table
delete token table = filter (is_other token) table

-- `m.sessions[token] = s`
unfoldable pub put : Text → Session → Table → Table
put token s table = (token, s) ∷ delete token table

-- `t.Add(d)`
abbrev pub expiry_at : ℕ → ℤ → ℤ
expiry_at now (pos d) = pos (now + d)
expiry_at now (negsuc d) = if ltb d now then pos (now - (d + 1)) else negsuc (d - now)

-- `now.After(expires)`
abbrev pub is_past : ℕ → ℤ → Bool
is_past now (pos t) = ltb t now
is_past now (negsuc t) = true

-- Create, with the two random texts that it draws; `none` is an error of the source of randomness.
unfoldable pub create :
    Manager → ℕ → Text → Option Text → Option Text → Manager × Option (Text × Text)
create m now username none c = (m, none)
create m now username (some t) none = (m, none)
create m now username (some t) (some c) =
    let s : Session = record {
      username = username;
      csrf = c;
      expires_at = expiry_at now m.ttl;
      expand_view = false;
    } in
    (record m { sessions = put t s m.sessions }, some (t, c))

-- A session that is there and has not expired.
abbrev pub unexpired : ℕ → Option Session → Option Session
unexpired now none = none
unexpired now (some s) = if is_past now s.expires_at then none else some s

unfoldable pub live : Manager → ℕ → Text → Option Session
live m now token = unexpired now (lookup token m.sessions)

abbrev pub csrf_of : Option Session → Option Text
csrf_of none = none
csrf_of (some s) = some s.csrf

-- CSRF
unfoldable pub csrf_token : Manager → ℕ → Text → Option Text
csrf_token m now token = csrf_of (live m now token)

abbrev pub csrf_matches : Option Text → Text → Bool
csrf_matches none csrf = false
csrf_matches (some want) csrf = not (is_empty want || is_empty csrf) && text_eq want csrf

-- ValidCSRF
unfoldable pub valid_csrf : Manager → ℕ → Text → Text → Bool
valid_csrf m now token csrf = csrf_matches (csrf_token m now token) csrf

abbrev pub validated : Manager → ℕ → Text → Option Session → Manager × Option Text
validated m now token none = (m, none)
validated m now token (some s) =
    if is_past now s.expires_at
    then (record m { sessions = delete token m.sessions }, none)
    else (m, some s.username)

-- Validate
unfoldable pub validate_token : Manager → ℕ → Text → Manager × Option Text
validate_token m now token = validated m now token (lookup token m.sessions)

abbrev pub expanded : Manager → Text → Bool → Option Session → Manager × Bool
expanded m token on none = (m, false)
expanded m token on (some s) =
    (record m { sessions = put token (record s { expand_view = on }) m.sessions }, true)

-- SetExpandView
unfoldable pub set_expand_view : Manager → ℕ → Text → Bool → Manager × Bool
set_expand_view m now token on = expanded m token on (live m now token)

abbrev pub expands : Option Session → Bool
expands none = false
expands (some s) = s.expand_view

-- ExpandView
unfoldable pub expand_view : Manager → ℕ → Text → Bool
expand_view m now token = expands (live m now token)

-- Revoke
unfoldable pub revoke : Manager → Text → Manager
revoke m token = record m { sessions = delete token m.sessions }

-- The loop of the three revocations: what is not to be kept is deleted and counted.
unfoldable pub sweep : (Text × Session → Bool) → Table → Table × ℕ
sweep kept [] = ([], 0)
sweep kept (e ∷ table) =
    let rest = sweep kept table in if kept e then (e ∷ rest.0, rest.1) else (rest.0, rest.1 + 1)

abbrev pub swept : Manager → (Text × Session → Bool) → Manager × ℕ
swept m kept = (record m { sessions = (sweep kept m.sessions).0 }, (sweep kept m.sessions).1)

-- RevokeUser
unfoldable pub revoke_user : Manager → Text → Manager × ℕ
revoke_user m username = swept m (λ e. not (text_eq e.1.username username))

-- SetTTL
unfoldable pub set_ttl : Manager → ℤ → Manager
set_ttl m ttl = if is_positive ttl then record m { ttl = ttl } else m

-- RevokeAllExcept
unfoldable pub revoke_all_except : Manager → Text → Manager × ℕ
revoke_all_except m kept = swept m (λ e. text_eq e.0 kept)

-- RevokeUserExcept
unfoldable pub revoke_user_except : Manager → Text → Text → Manager × ℕ
revoke_user_except m username kept =
    swept m (λ e. text_eq e.0 kept || not (text_eq e.1.username username))
