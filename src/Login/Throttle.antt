-- ===== src/Login/Throttle.antt =====
-- auth.go: the lockout after failed logins.
pub mod Lock
pub mod Streaks
use trust_panel.Prelude.{
  ℕ, zero, suc, ◌+◌, ◌-◌, ◌*◌, ◌%◌, ltb, leb, ◌==◌, Bool, true, false, ◌&&◌, Option, none, some,
  List, [], ◌∷◌, if◌then◌else◌, Text, text_eq,
}

-- throttleEntry. The zero time is 0; an instant is a number of nanoseconds.
pub record Entry : Type 0 where
  pub fails : ℕ
  pub locked_until : ℕ

abbrev pub free_attempts : ℕ
free_attempts = 5

abbrev pub base_lock : ℕ
base_lock = 2000000000

abbrev pub max_lock : ℕ
max_lock = 900000000000

-- The map of loginThrottle.
abbrev pub Throttle : Type 0
Throttle = Text → Option Entry

abbrev pub no_entries : Throttle
no_entries = λ _. none

-- `x << n` on int64, as its pattern of 64 bits: `n` shifts by one.
unfoldable pub shift_left : ℕ → ℕ → ℕ
shift_left x zero = x
shift_left x (suc n) = (shift_left x n * 2) % 18446744073709551616

-- `lock > loginMaxLock || lock <= 0` gives the cap: what is left is the pattern of a positive number
-- that is not above it.
abbrev pub cap_lock : ℕ → ℕ
cap_lock lock = if ltb 0 lock && leb lock max_lock then lock else max_lock

unfoldable pub lock_for : ℕ → ℕ
lock_for n = cap_lock (shift_left base_lock n)

-- retryAfter
abbrev pub retry_of : Option Entry → ℕ → ℕ
retry_of none now = 0
retry_of (some e) now = e.locked_until - now

unfoldable pub retry_after : Throttle → Text → ℕ → ℕ
retry_after l username now = retry_of (l username) now

abbrev pub entry_or_new : Option Entry → Entry
entry_or_new none = record { fails = 0; locked_until = 0 }
entry_or_new (some e) = e

abbrev pub count_failure : Entry → ℕ → Entry
count_failure e now =
    if ltb free_attempts (e.fails + 1)
    then record {
      fails = e.fails + 1;
      locked_until = now + lock_for ((e.fails + 1) - free_attempts - 1);
    }
    else record e { fails = e.fails + 1 }

-- fail
unfoldable pub fail : Throttle → Text → ℕ → Throttle
fail l username now v =
    if text_eq v username then some (count_failure (entry_or_new (l username)) now) else l v

-- success
unfoldable pub success : Throttle → Text → Throttle
success l username v = if text_eq v username then none else l v
