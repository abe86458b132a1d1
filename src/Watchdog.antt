-- ===== src/Watchdog.antt =====
-- internal/core/watchdog: the monitor (monitor.go) that turns health samples of many targets into
-- alerts, and the single-target watcher (watchdog.go) that it generalises. The maps of the source
-- are functions that give a missing key its zero value; the severity and the text of an alert, and
-- its delivery, are not modelled. Both readings of the clock in one call are one instant.
pub mod Alerts
use trust_panel.Prelude.{
  ℕ, ◌+◌, ◌-◌, Bool, true, false, not, ◌&&◌, ◌||◌, Option, none, some, List, [], ◌∷◌, ltb, leb,
  ◌==◌, if◌then◌else◌, Text, text_eq, filter,
}
use trust_panel.Prelude.Int.{ℤ, pos, negsuc}
use trust_panel.Model.Node.{Instant}

pub data Notice : Type 0 where
  down up : Notice

-- What a monitor keeps of one key.
pub record Cell : Type 0 where
  pub fails : ℕ
  pub since : Option Instant
  pub alerted : Bool

-- `min_down` is the floor in nanoseconds; a floor that is not positive is 0.
pub record Monitor : Type 0 where
  pub threshold : ℕ
  pub min_down : ℕ
  pub fails : Text → ℕ
  pub since : Text → Option Instant
  pub alerted : Text → Bool

abbrev pub at_least_one : ℤ → ℕ
at_least_one (pos n) = if ltb n 1 then 1 else n
at_least_one (negsuc _) = 1

-- NewMonitor
unfoldable pub new_monitor : ℤ → Monitor
new_monitor threshold = record {
  threshold = at_least_one threshold;
  min_down = 0;
  fails = λ _. 0;
  since = λ _. none;
  alerted = λ _. false;
}

-- Monitor.RequireDownFor
unfoldable pub require_down_for : Monitor → ℕ → Monitor
require_down_for m d = record m { min_down = d }

-- `m[key] = a`, and `delete(m, key)` with the zero value.
abbrev pub set {ℓ} : {A : Type ℓ} → (Text → A) → Text → A → Text → A
set f key a j = if text_eq j key then a else f j

abbrev pub since_or : Option Instant → Instant → Instant
since_or none at = at
since_or (some t) at = t

-- The test for a DOWN alert: enough samples, for long enough, and not yet said. Subtraction stops
-- at 0, where a clock that went back is below any positive floor too.
abbrev pub due : ℕ → ℕ → ℕ → Instant → Instant → Bool → Bool
due threshold min_down fails since at alerted =
    leb threshold fails && ((min_down == 0 || leb min_down (at - since)) && not alerted)

-- Monitor.Observe: the new state, and the notice that is sent if any.
unfoldable pub observe : Monitor → Instant → Text → Bool → Monitor × Option Notice
observe m at key true = (
  record m {
    alerted = set m.alerted key false;
    fails = set m.fails key 0;
    since = set m.since key none;
  },
  (if m.alerted key then some up else none),
)
observe m at key false =
    let fails = m.fails key + 1 in
    let since = since_or (m.since key) at in
    let counted = record m {
      fails = set m.fails key fails;
      since = set m.since key (some since);
    } in
    if due m.threshold m.min_down fails since at (m.alerted key)
    then (record counted { alerted = set m.alerted key true }, some down)
    else (counted, none)

-- Monitor.Reset
unfoldable pub reset : Monitor → Text → Monitor
reset m key = record m {
  fails = set m.fails key 0;
  since = set m.since key none;
  alerted = set m.alerted key false;
}

-- Monitor.Forget
unfoldable pub forget : Monitor → (Text → Bool) → Monitor
forget m keep = record m {
  fails = λ k. if keep k then m.fails k else 0;
  since = λ k. if keep k then m.since k else none;
  alerted = λ k. if keep k then m.alerted k else false;
}

pub record Sample : Type 0 where
  pub at : Instant
  pub key : Text
  pub is_healthy : Bool

abbrev pub noted : Text → Option Notice → List (Text × Notice) → List (Text × Notice)
noted key none rest = rest
noted key (some n) rest = (key, n) ∷ rest

-- The notices that a monitor sends over a sequence of samples, each with its key.
unfoldable pub run : Monitor → List Sample → List (Text × Notice)
run m [] = []
run m (x ∷ xs) =
    let (after, said) = observe m x.at x.key x.is_healthy in noted x.key said (run after xs)

-- The two fields of Watcher that Tick changes, and its threshold.
pub record Watcher : Type 0 where
  pub threshold : ℤ
  pub consec_fails : ℕ
  pub alerted : Bool

abbrev pub reaches : ℤ → ℕ → Bool
reaches (pos t) n = leb t n
reaches (negsuc _) n = true

-- Watcher.Tick, given whether the probe succeeded.
unfoldable pub tick : Watcher → Bool → Watcher × Option Notice
tick w true =
    (record w { alerted = false; consec_fails = 0 }, (if w.alerted then some up else none))
tick w false =
    let failed = record w { consec_fails = w.consec_fails + 1 } in
    if reaches w.threshold failed.consec_fails && not w.alerted
    then (record failed { alerted = true }, some down)
    else (failed, none)

abbrev pub said_first : Option Notice → List Notice → List Notice
said_first none rest = rest
said_first (some n) rest = n ∷ rest

-- The notices of a watcher over a sequence of probes.
unfoldable pub watch : Watcher → List Bool → List Notice
watch w [] = []
watch w (b ∷ bs) = let (after, said) = tick w b in said_first said (watch after bs)
