-- ===== src/Scenarios/Watched.antt =====
-- The theorems on the monitor and on the backup's sender, at concrete samples and settings.
use trust_panel.Prelude.{
  ◌≡◌, if◌then◌else◌, leb, length, text_eq, refl, Bool, true, false, none, List, [], ◌∷◌, codes,
  is_empty, map,
}
use trust_panel.Prelude.Int.{pos}
use trust_panel.Model.Node.{Instant}
use trust_panel.Model.Settings.{
  Settings, sender_unset, is_unset_sender, backup_sender_name, backup_sender_token, token_of,
  backup_sender_name-names_token,
}
use trust_panel.Watchdog.{at_least_one, new_monitor, Sample, run, watch, tick, down, up}
use trust_panel.Watchdog.Alerts.{
  notices_of, samples_of, run-samples_of, alternates, run-alternates, AllUnhealthy,
  run-AllUnhealthy, probes_of, fresh_watcher, watch-is_run,
}

abbrev of_edge : Bool → Sample
of_edge ok = record { at = 3; key = codes "edge"; is_healthy = ok }

abbrev of_bot : Bool → Sample
of_bot ok = record { at = 4; key = codes "bot"; is_healthy = ok }

abbrev mixed : List Sample
mixed = of_edge false ∷ of_bot false ∷ of_edge false ∷ of_bot true ∷ of_edge true ∷ []

run-samples_of_example :
    notices_of (codes "edge") (run (new_monitor (pos 2)) mixed)
    ≡ notices_of (codes "edge") (run (new_monitor (pos 2)) (samples_of (codes "edge") mixed))
run-samples_of_example = run-samples_of (codes "edge") (new_monitor (pos 2)) mixed

run-alternates_example :
    alternates
      ((new_monitor (pos 2)).alerted (codes "edge"))
      (notices_of (codes "edge") (run (new_monitor (pos 2)) mixed))
    ≡ true
run-alternates_example = run-alternates (codes "edge") (new_monitor (pos 2)) mixed

abbrev probes : List (Instant × Bool)
probes = (1, false) ∷ (2, false) ∷ (3, true) ∷ []

watch-is_run_example :
    watch (fresh_watcher (pos 2)) (map (λ p. p.1) probes)
    ≡ notices_of (codes "edge") (run (new_monitor (pos 2)) (probes_of (codes "edge") probes))
watch-is_run_example = watch-is_run (pos 2) (codes "edge") probes

-- Two failures and a recovery are one notice each way.
two_failures : watch (fresh_watcher (pos 2)) (false ∷ false ∷ true ∷ []) ≡ down ∷ up ∷ []
unfolding watch tick
two_failures = refl

abbrev by_the_bot : Settings
by_the_bot = record {
  bot = record { enabled = true; token = codes "b" };
  alert = record { enabled = false; token = []; chat_id = [] };
  backup = record {
    enabled = true;
    chat_id = codes "c";
    age_recipient = codes "age1";
    chunk_bytes = pos 0;
    sender = sender_unset;
    local_enabled = none;
    interval_hours = pos 0;
    keep = pos 0;
    verify_enabled = none;
    verify_interval_days = pos 0;
  };
  panel = record {
    reconcile_seconds = pos 0;
    stats_seconds = pos 0;
    billing_alert_hours = pos 0;
    billing_alert_days = pos 0;
    expiry_alert_days = pos 0;
    session_hours = pos 0;
    egress_failover_seconds = pos 0;
    activity_kb_per_min = pos 0;
    geo_check_hours = pos 0;
  };
}

backup_sender_name-names_token_example :
    (token_of by_the_bot (backup_sender_name by_the_bot) ≡ backup_sender_token by_the_bot)
    × (is_unset_sender (backup_sender_name by_the_bot) ≡ is_empty (backup_sender_token by_the_bot))
backup_sender_name-names_token_example = backup_sender_name-names_token by_the_bot refl

abbrev failing : List Sample
failing = of_edge false ∷ of_bot true ∷ of_edge false ∷ []

failing-AllUnhealthy : AllUnhealthy (samples_of (codes "edge") failing)
unfolding text_eq
failing-AllUnhealthy = (refl, (refl, tt))

run-AllUnhealthy_example : notices_of (codes "edge") (run (new_monitor (pos 2)) failing) ≡ (
    if leb (at_least_one (pos 2)) (length (samples_of (codes "edge") failing))
    then down ∷ []
    else [])
run-AllUnhealthy_example = run-AllUnhealthy (pos 2) (codes "edge") failing failing-AllUnhealthy
