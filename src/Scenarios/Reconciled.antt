-- ===== src/Scenarios/Reconciled.antt =====
-- The theorems on the agent, at a host without faults and three payloads.
use trust_panel.Prelude.{
  ℕ, ◌≡◌, ◌≢◌, refl, sym, ap, ◌∙◌, ◌⊎◌, inl, inr, false, none, some, [], ◌∷◌, Text, codes, text_eq,
  has_prefix,
}
use mathlib.Core.List.{Memᴰ}
use trust_panel.Prelude.Int.{pos}
use trust_panel.Prelude.Result.{err, for_each}
use trust_panel.Agent.Api.{
  File, DesiredState, want_running, Outcome, applied, stale_leader, rejected, rolled_back,
}
use trust_panel.Agent.Host.{body_of, unreadable}
use trust_panel.Agent.Files.{
  fill_temp, atomic_write, file_sha256, resolve_within_roots, capture, restore_entry, restore,
}
use trust_panel.Agent.Store.{
  LocalState, Codec, empty_state, open_store, save_locked, bump_epoch, commit_applied,
}
use trust_panel.Agent.Payload.{Config, wrong_node, file_ok, validate, changed_file, changed_files}
use trust_panel.Agent.Reconcile.{
  insert_text, sort_texts, capture_all, write_files, service_loop, apply_services, roll_back,
  run_checks, install, recache, reconcile, apply, result, reapply_cached, Agent,
}
use trust_panel.Agent.Fence.{Push, serve, apply-is_fenced}
use trust_panel.Agent.Rollback.{RestoreFailed, apply-unchanged, apply-rolled_back}
use trust_panel.Agent.Sums.{HasSum}
use trust_panel.Agent.Converged.{apply-HasSum}
use trust_panel.Agent.Replay.{replay_outcome, open_store-apply, replay-accepted, replay-is_fenced}
use trust_panel.Scenarios.Hosted.{Desk, blank_file, host, host-IsLawful}

abbrev config : Config
config = record {
  node_id = codes "n";
  roots = codes "/etc" ∷ [];
  service_allowlist = codes "box" ∷ [];
  max_clock_skew = pos 60;
}

abbrev pub one_file : File
one_file = record {
  path = codes "/etc/a";
  mode = 0;
  sha256 = codes "sx";
  body = codes "x";
  encoding = [];
}

abbrev pub payload_of : ℕ → Text → DesiredState
payload_of n kind = record {
  epoch = pos n;
  node_id = codes "n";
  revision_id = pos n;
  revision_hash = codes "r";
  issued_at = some 100;
  files = one_file ∷ [];
  services = record { name = codes "box"; want = want_running } ∷ [];
  checks = record { kind = kind; path = codes "/etc/a" } ∷ [];
}

abbrev pub good : DesiredState
good = payload_of 5 (codes "singbox-check")

abbrev uncheckable : DesiredState
uncheckable = payload_of 6 (codes "no such check")

abbrev misdirected : DesiredState
misdirected = record (payload_of 7 (codes "singbox-check")) { node_id = codes "m" }

abbrev pub remembered : LocalState
remembered = record {
  last_accepted_epoch = pos 5;
  applied_revision = pos 5;
  applied_hash = codes "r";
  cached = some good;
}

abbrev pub codec : Codec
codec = record { encode = λ _. some (codes "json"); decode = λ _. some remembered }

abbrev bare : Desk
bare = (λ _. none, blank_file)

abbrev pub store_path : Text
store_path = codes "/var/agent"

absurd_outcome : ¬ (◌≡◌ {A = Outcome} rejected rolled_back)
absurd_outcome e = cc

abbrev served : ℕ → Desk → LocalState → DesiredState → Agent host
served now w st ds = apply host codec store_path config now w st ds false

first_applied : (served 120 bare empty_state good).2.outcome ≡ applied
unfolding fill_temp atomic_write file_sha256 resolve_within_roots capture restore_entry restore
    save_locked bump_epoch commit_applied file_ok validate changed_file changed_files insert_text
    sort_texts capture_all write_files service_loop apply_services roll_back run_checks install
    recache reconcile apply text_eq has_prefix for_each
first_applied = refl

first_kept : (served 120 bare empty_state good).1 ≡ remembered
unfolding fill_temp atomic_write file_sha256 resolve_within_roots capture restore_entry restore
    save_locked bump_epoch commit_applied file_ok validate changed_file changed_files insert_text
    sort_texts capture_all write_files service_loop apply_services roll_back run_checks install
    recache reconcile apply text_eq has_prefix for_each
first_kept = refl

too_old_unchanged : (served 900 bare empty_state good).2.changed ≡ false
unfolding fill_temp atomic_write file_sha256 resolve_within_roots capture restore_entry restore
    save_locked bump_epoch commit_applied file_ok validate changed_file changed_files insert_text
    sort_texts capture_all write_files service_loop apply_services roll_back run_checks install
    recache reconcile apply text_eq has_prefix for_each
too_old_unchanged = refl

too_old_rejected : (served 900 bare empty_state good).2.outcome ≡ rejected
unfolding fill_temp atomic_write file_sha256 resolve_within_roots capture restore_entry restore
    save_locked bump_epoch commit_applied file_ok validate changed_file changed_files insert_text
    sort_texts capture_all write_files service_loop apply_services roll_back run_checks install
    recache reconcile apply text_eq has_prefix for_each
too_old_rejected = refl

uncheckable_rolled_back : (served 120 bare remembered uncheckable).2.outcome ≡ rolled_back
unfolding fill_temp atomic_write file_sha256 resolve_within_roots capture restore_entry restore
    save_locked bump_epoch commit_applied file_ok validate changed_file changed_files insert_text
    sort_texts capture_all write_files service_loop apply_services roll_back run_checks install
    recache reconcile apply text_eq has_prefix for_each
uncheckable_rolled_back = refl

a_resolves : resolve_within_roots host config.roots (codes "/etc/a") ≡ some (codes "/etc/a")
unfolding resolve_within_roots text_eq has_prefix
a_resolves = refl

not_the_store : text_eq (codes "/etc/a") store_path ≡ false
unfolding text_eq
not_the_store = refl

misdirected_refused : validate host config 120 misdirected false ≡ err wrong_node
unfolding validate text_eq
misdirected_refused = refl

abbrev push : Push host host-IsLawful codec store_path config
push = record { now = 120; before = λ w. w; payload = misdirected }

apply-is_fenced_example :
    apply host codec store_path config 120
      (serve host host-IsLawful codec store_path config (push ∷ []) bare empty_state).0
      (serve host host-IsLawful codec store_path config (push ∷ []) bare empty_state).1
      good
      false
    ≡ (
      (serve host host-IsLawful codec store_path config (push ∷ []) bare empty_state).0,
      (serve host host-IsLawful codec store_path config (push ∷ []) bare empty_state).1,
      result
          (serve host host-IsLawful codec store_path config (push ∷ []) bare empty_state).1
          stale_leader
          false
          [],
    )
apply-is_fenced_example =
    apply-is_fenced host host-IsLawful codec store_path config (push ∷ []) push bare empty_state 120
      good false (Memᴰ.head refl) refl

apply-unchanged_example : (served 900 bare empty_state good).0.0 (codes "/etc/a") ≡ none
apply-unchanged_example =
    apply-unchanged host host-IsLawful codec store_path config 900 bare empty_state good false
      (codes "/etc/a") not_the_store too_old_unchanged
      (λ e. absurd_outcome (sym too_old_rejected ∙ e))

apply-rolled_back_example :
    (body_of ((served 120 bare remembered uncheckable).0.0 (codes "/etc/a")) ≡ none)
    ⊎ RestoreFailed host host-IsLawful codec store_path config
        (bump_epoch host codec store_path bare remembered (pos 6)).0
        (served 120 bare remembered uncheckable).0
        uncheckable
apply-rolled_back_example =
    apply-rolled_back host host-IsLawful codec store_path config 120 bare remembered uncheckable
      false (codes "/etc/a") not_the_store uncheckable_rolled_back

apply-HasSum_example :
    HasSum host host-IsLawful config
      (served 120 bare empty_state good).0
      (codes "/etc/a")
      (codes "sx")
apply-HasSum_example =
    apply-HasSum host host-IsLawful config codec store_path 120 bare empty_state good false one_file
      (codes "/etc/a") (inl first_applied) (Memᴰ.head refl) (inr refl, tt) a_resolves not_the_store

open_store-apply_example :
    (open_store host codec store_path (served 120 bare empty_state good).0
      ≡ some (served 120 bare empty_state good).1)
    ⊎ (host.read_file (served 120 bare empty_state good).0 store_path ≡ unreadable)
open_store-apply_example =
    open_store-apply host host-IsLawful codec store_path config 120 bare empty_state good false
      (λ t e. ap some (sym first_kept)) (inl first_applied)

replay-accepted_example :
    (o : Outcome) × (replay_outcome
        (reapply_cached host codec store_path config 900 bare
          (served 120 bare empty_state good).1).2
      ≡ some o)
    × (o ≢ stale_leader)
replay-accepted_example =
    replay-accepted host host-IsLawful codec store_path config 120 bare empty_state good false 900
      bare (inl first_applied)

replay-is_fenced_example :
    replay_outcome
      (reapply_cached host codec store_path config 900 bare
        (served 120 bare remembered misdirected).1).2
    ≡ some stale_leader
replay-is_fenced_example =
    replay-is_fenced host host-IsLawful codec store_path config 120 bare remembered misdirected good
      wrong_node 900 bare refl refl refl misdirected_refused
