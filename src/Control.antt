-- ===== src/Control.antt =====
-- internal/core/controller: build.go and firewall.go, the desired state that is sent to a node.
pub mod Units
pub mod Placed
pub mod Accepted
pub mod Promoted
pub mod Repushed
use trust_panel.Prelude.{
  ℕ, ◌==◌, Bool, true, false, not, ◌&&◌, ◌||◌, Option, none, some, List, [], ◌∷◌, ◌++◌, any, filter,
  map, if◌then◌else◌, Text, codes, text_eq, text_lt, is_empty, trim_space,
}
use trust_panel.Prelude.Int.{ℤ, pos}
use trust_panel.Model.Node.{Node, PublicRole, entry_role, exit_role, other_role}
use trust_panel.Model.State.{State, node_by_id}
use trust_panel.Agent.Api.{
  File, Service, Check, DesiredState, Want, want_running, want_stopped, other_want,
}
use trust_panel.Agent.Reconcile.{insert_text, sort_texts, dedupe_sorted}

-- Artifact, and CompiledNode without the rule-sets and the warnings.
pub record Artifact : Type 0 where
  pub path : Text
  pub content : Text
  pub mode : ℕ
  pub sha256 : Text

pub record CompiledNode : Type 0 where
  pub node_id : Text
  pub role : PublicRole
  pub files : List Artifact

abbrev pub service_trust_tunnel : Text
service_trust_tunnel = codes "trusttunnel.service"

abbrev pub service_sing_box : Text
service_sing_box = codes "trustpanel-singbox.service"

-- runningSet, as the list of its keys in ascending order.
abbrev pub running_set : PublicRole → List Text
running_set entry_role = service_sing_box ∷ (service_trust_tunnel ∷ [])
running_set exit_role = service_sing_box ∷ []
running_set (other_role _) = []

-- Layout
pub record Layout : Type 0 where
  pub trust_tunnel_dir : Text
  pub sing_box_dir : Text

-- Layout.Roots
abbrev pub roots : Layout → List Text
roots l = l.trust_tunnel_dir ∷ (l.sing_box_dir ∷ [])

abbrev pub unit_up : Text → Service
unit_up name = record { name = name; want = want_running }

abbrev pub unit_down : Text → Service
unit_down name = record { name = name; want = want_stopped }

-- servicesForNode: sorting the services by name is sorting their names, as they all have one want.
unfoldable pub services_for_node : Option Node → PublicRole → List Service
services_for_node none role = map unit_up (running_set role)
services_for_node (some n) role =
    map unit_down
      (sort_texts (filter (λ s. not (any (text_eq s) (running_set role))) n.managed_services))
    ++ map unit_up (running_set role)

-- The nodes that may become the controller.
abbrev pub is_candidate : State → Node → Bool
is_candidate s n =
    (not (is_empty s.control_plane.active_node_id) && text_eq n.id s.control_plane.active_node_id)
    || (any (text_eq n.id) s.control_plane.standby_node_ids
        || any (λ m. m.mgmt_capable && text_eq n.id m.id) s.nodes)

abbrev pub trimmed_ips : List Text → List Text
trimmed_ips ips = filter (λ ip. not (is_empty ip)) (map trim_space ips)

unfoldable pub candidate_ips : State → List Node → List Text
candidate_ips s [] = []
candidate_ips s (n ∷ ns) =
    let rest = candidate_ips s ns in
    if is_candidate s n then trimmed_ips n.public_ips ++ rest else rest

-- ControlPlaneAllowIPs: the keys of a map in ascending order are the sorted list without repetitions.
unfoldable pub control_plane_allow_ips : State → List Text
control_plane_allow_ips s = dedupe_sorted (sort_texts (candidate_ips s s.nodes))

unfoldable pub one_per_line : List Text → Text
one_per_line [] = []
one_per_line (ip ∷ ips) = ip ++ (codes "\n" ++ one_per_line ips)

-- Packages path/filepath and crypto/sha256.
pub record Panel : Type 0 where
  pub base_of : Text → Text
  pub join : Text → Text → Text
  pub sha256_hex : Text → Text
  pub decimal : ℕ → Text

-- sort.Slice by a text: the order of items with the same text is not specified; here the first comes
-- first.
unfoldable pub insert_by {ℓ} : {A : Type ℓ} → (A → Text) → A → List A → List A
insert_by key a [] = a ∷ []
insert_by key a (b ∷ bs) =
    let rest = insert_by key a bs in if text_lt (key b) (key a) then b ∷ rest else a ∷ (b ∷ bs)

unfoldable pub sort_by {ℓ} : {A : Type ℓ} → (A → Text) → List A → List A
sort_by key [] = []
sort_by key (a ∷ more) = insert_by key a (sort_by key more)

abbrev pub want_text : Want → Text
want_text want_running = codes "running"
want_text want_stopped = codes "stopped"
want_text (other_want t) = t

-- The texts of a list, one after the other.
unfoldable pub joined_by {ℓ} : {A : Type ℓ} → (A → Text) → List A → Text
joined_by f [] = []
joined_by f (a ∷ more) = f a ++ joined_by f more

module _ (p : Panel) where
  -- Layout.pathFor
  unfoldable pub path_for : Layout → Text → Option Text
  path_for l artifact =
      let base = p.base_of artifact in
      if any (text_eq base) (
        codes "credentials.toml"
        ∷ (codes "vpn.toml" ∷ (codes "hosts.toml" ∷ (codes "rules.toml" ∷ []))))
      then some (p.join l.trust_tunnel_dir base)
      else if text_eq base (codes "sing-box.json")
      then some (p.join l.sing_box_dir (codes "sing-box.json"))
      else none

  -- The check for one artifact.
  unfoldable pub checks_for : Text → List Check
  checks_for abs =
      if text_eq (p.base_of abs) (codes "sing-box.json")
      then record { kind = codes "singbox-check"; path = abs } ∷ []
      else if text_eq (p.base_of abs) (codes "vpn.toml")
      then record { kind = codes "trusttunnel-export"; path = abs } ∷ []
      else []

  abbrev pub file_of : Text → Artifact → File
  file_of abs a = record {
    path = abs;
    mode = a.mode;
    sha256 = a.sha256;
    body = a.content;
    encoding = [];
  }

  -- The loop of BuildDesiredState over the artifacts; `none` is the error.
  unfoldable pub place : Layout → List Artifact → Option (List File × List Check)
  place l [] = some ([], [])
  place l (a ∷ as_) =
      let rest = place l as_ in
      elim (path_for l a.path) [
        | none ↦ none
        | some abs ↦ elim rest [
          | none ↦ none
          | some (fs, cs) ↦ some (file_of abs a ∷ fs, checks_for abs ++ cs)
        ]
      ]

  -- firewallAllowArtifact
  unfoldable pub firewall_allow_artifact : Text → List Text → File
  firewall_allow_artifact dir ips = record {
    path = p.join dir (codes "control-allow.conf");
    mode = 0o644;
    sha256 = p.sha256_hex (one_per_line ips);
    body = one_per_line ips;
    encoding = [];
  }

  abbrev pub file_line : File → Text
  file_line f =
      codes "f|"
      ++ (f.path ++ (codes "|" ++ (p.decimal f.mode ++ (codes "|" ++ (f.sha256 ++ codes "\n")))))

  abbrev pub service_line : Service → Text
  service_line s = codes "s|" ++ (s.name ++ (codes "|" ++ (want_text s.want ++ codes "\n")))

  abbrev pub check_line : Check → Text
  check_line k = codes "c|" ++ (k.kind ++ (codes "|" ++ (k.path ++ codes "\n")))

  -- revisionHash
  unfoldable pub revision_hash : DesiredState → Text
  revision_hash ds = p.sha256_hex (
      codes "node="
      ++ (ds.node_id
          ++ (codes "\n"
              ++ (joined_by file_line (sort_by (λ f. f.path) ds.files)
                  ++ (joined_by service_line (sort_by (λ s. s.name) ds.services)
                      ++ joined_by check_line (sort_by (λ k. k.path) ds.checks))))))

  -- What BuildDesiredState puts together, before it is hashed.
  abbrev pub draft :
      State
      → CompiledNode
      → Layout
      → List File
      → ℤ
      → Option ℕ
      → List File
      → List Check
      → DesiredState
  draft s compiled l extra revision_id issued_at fs cs = record {
    epoch = pos s.control_plane.epoch;
    node_id = compiled.node_id;
    revision_id = revision_id;
    revision_hash = [];
    issued_at = issued_at;
    files =
        fs ++ (extra ++ firewall_allow_artifact l.sing_box_dir (control_plane_allow_ips s) ∷ []);
    services = services_for_node (node_by_id s compiled.node_id) compiled.role;
    checks = cs;
  }

  abbrev pub hashed : DesiredState → DesiredState
  hashed ds = record ds { revision_hash = revision_hash ds }

  -- BuildDesiredState
  unfoldable pub build_desired_state :
      State → CompiledNode → Layout → List File → ℤ → Option ℕ → Option DesiredState
  build_desired_state s compiled l extra revision_id issued_at = elim (place l compiled.files) [
    | none ↦ none
    | some (fs, cs) ↦ some (hashed (draft s compiled l extra revision_id issued_at fs cs))
  ]
