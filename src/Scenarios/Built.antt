-- ===== src/Scenarios/Built.antt =====
-- The entry node of the sample state: what is built for it, and its agent.
use trust_panel.Prelude.{
  ◌≡◌, refl, true, false, none, some, List, [], ◌∷◌, ◌++◌, All, if◌then◌else◌, Text, codes, text_eq,
  has_prefix, trim_space, drop_spaces, arith,
}
use trust_panel.Prelude.Int.{pos}
use trust_panel.Prelude.Result.{ok}
use trust_panel.Model.Node.{entry_role}
use trust_panel.Model.State.{State, node_by_id, find_node}
use trust_panel.Agent.Api.{File, DesiredState, no_change}
use trust_panel.Agent.Files.{fill_temp, atomic_write, file_sha256, resolve_within_roots}
use trust_panel.Agent.Store.{LocalState, save_locked, bump_epoch, commit_applied}
use trust_panel.Agent.Payload.{Config, validate, changed_file}
use trust_panel.Agent.Reconcile.{apply, insert_text, sort_texts, dedupe_sorted}
use trust_panel.Control.{
  Panel, Layout, CompiledNode, roots, running_set, path_for, checks_for, place,
  firewall_allow_artifact, control_plane_allow_ips, candidate_ips, one_per_line, draft, hashed,
  build_desired_state,
}
use trust_panel.Control.Units.{IsAllowed, managed}
use trust_panel.Control.Placed.{IsAgreed, IsRoot}
use trust_panel.Control.Accepted.{validate-build_desired_state}
use trust_panel.Control.Promoted.{promote, is_manager}
use trust_panel.Control.Repushed.{apply-repushed}
use trust_panel.Scenarios.{sample}
use trust_panel.Scenarios.Hosted.{Desk, host}
use trust_panel.Scenarios.Reconciled.{codec, store_path}

abbrev panel : Panel
panel = record {
  base_of = λ p. p;
  join = λ d b. d ++ (codes "/" ++ b);
  sha256_hex = λ b. b's' ∷ b;
  decimal = λ n. n ∷ [];
}

abs_joined :
    (d b : Text)
    → has_prefix d (codes "/") ≡ true
    → has_prefix (d ++ (codes "/" ++ b)) (codes "/") ≡ true
unfolding has_prefix
abs_joined [] b e = cc
abs_joined (c ∷ d) b e = ground (arith, e)

panel-IsAgreed : IsAgreed panel host
panel-IsAgreed = record {
  same_sum = λ b. refl;
  joined = λ d b k a n e. (refl, refl, abs_joined d b a);
}

abbrev layout : Layout
layout = record { trust_tunnel_dir = codes "/t"; sing_box_dir = codes "/b" }

abbrev compiled : CompiledNode
compiled = record {
  node_id = codes "e";
  role = entry_role;
  files =
      record {
        path = codes "sing-box.json";
        content = codes "x";
        mode = 0o600;
        sha256 = codes "sx";
      }
      ∷ [];
}

abbrev config : Config
config = record {
  node_id = codes "e";
  roots = roots layout;
  service_allowlist = running_set entry_role;
  max_clock_skew = pos 60;
}

abbrev files : List File
files =
    record {
      path = codes "/b/sing-box.json";
      mode = 0o600;
      sha256 = codes "sx";
      body = codes "x";
      encoding = [];
    }
    ∷ []

abbrev first : DesiredState
first = hashed panel (
    draft panel sample compiled layout [] (pos 1) (some 100) files
      (checks_for panel (codes "/b/sing-box.json")))

-- The state after an exit node was promoted.
abbrev promoted : State
promoted = promote sample (codes "on") 150

abbrev second : DesiredState
second = hashed panel (
    draft panel promoted compiled layout [] (pos 2) (some 200) files
      (checks_for panel (codes "/b/sing-box.json")))

first_built : build_desired_state panel sample compiled layout [] (pos 1) (some 100) ≡ some first
unfolding build_desired_state place path_for text_eq checks_for
first_built = refl

both-managers :
    (is_manager sample sample.control_plane.active_node_id ≡ true)
    × (is_manager sample (codes "on") ≡ true)
unfolding text_eq
both-managers = (refl, refl)

second_built :
    build_desired_state panel promoted compiled layout [] (pos 2) (some 200) ≡ some second
unfolding build_desired_state place path_for text_eq checks_for
second_built = refl

roots_apart : IsRoot host (codes "/t") × IsRoot host (codes "/b")
unfolding text_eq has_prefix
roots_apart = ((refl, refl, refl), (refl, refl, refl))

units-IsAllowed : All (IsAllowed config) (running_set entry_role)
unfolding text_eq
units-IsAllowed = (refl, (refl, tt))

managed-IsAllowed : All (IsAllowed config) (managed config (node_by_id sample (codes "e")))
unfolding find_node text_eq
managed-IsAllowed = tt

validate-build_desired_state_example : validate host config 120 first false ≡ ok tt
validate-build_desired_state_example =
    validate-build_desired_state panel host panel-IsAgreed layout config roots_apart.0 roots_apart.1
      refl sample compiled [] (pos 1) (some 100) first 120 first_built refl refl (refl, tt) tt
      units-IsAllowed managed-IsAllowed

abbrev disk_after : Desk
disk_after = (
  λ q. some (record {
    body = if text_eq q (codes "/b/sing-box.json") then codes "x" else [];
    mode = 0o600;
  }),
  record { body = []; mode = 0o600 },
)

abbrev applied_first : LocalState
applied_first = record {
  last_accepted_epoch = pos 1;
  applied_revision = pos 1;
  applied_hash = first.revision_hash;
  cached = some first;
}

second_valid : validate host config 220 second false ≡ ok tt
unfolding promote text_eq find_node
second_valid =
    validate-build_desired_state panel host panel-IsAgreed layout config roots_apart.0 roots_apart.1
      refl promoted compiled [] (pos 2) (some 200) second 220 second_built refl refl (refl, tt) tt
      units-IsAllowed managed-IsAllowed

epoch_saved : (bump_epoch host codec store_path disk_after applied_first (pos 2)).2 ≡ true
unfolding bump_epoch save_locked atomic_write fill_temp
epoch_saved = refl

files_in_place :
    All
      (λ f.
        changed_file host config
          (bump_epoch host codec store_path disk_after applied_first (pos 2)).0
          f
        ≡ some none)
      second.files
unfolding bump_epoch save_locked atomic_write fill_temp changed_file resolve_within_roots
    file_sha256 text_eq has_prefix firewall_allow_artifact control_plane_allow_ips candidate_ips
    one_per_line sort_texts insert_text dedupe_sorted trim_space drop_spaces promote
files_in_place = (refl, (refl, tt))

second_saved :
    (commit_applied host codec store_path
      (bump_epoch host codec store_path disk_after applied_first (pos 2)).0
      (bump_epoch host codec store_path disk_after applied_first (pos 2)).1
      second).2
    ≡ true
unfolding bump_epoch save_locked atomic_write fill_temp commit_applied
second_saved = refl

apply-repushed_example :
    ((apply host codec store_path config 220 disk_after applied_first second false).2.outcome
      ≡ no_change)
    × ((apply host codec store_path config 220 disk_after applied_first second false).2.changed
        ≡ false)
unfolding promote
apply-repushed_example =
    apply-repushed sample (codes "on") 150 both-managers.0 both-managers.1 panel compiled layout []
      host codec store_path config (pos 1) (pos 2) (some 100) (some 200) first second 220 disk_after
      applied_first first_built second_built refl refl epoch_saved second_valid files_in_place
      second_saved
