-- ===== src/Control/Accepted.antt =====
-- controller/build.go and agent/reconcile.go: the agent of the node accepts what is built for it.
use trust_panel.Prelude.{
  ℕ, ◌≡◌, sym, ◌∙◌, ap, true, false, Option, some, Option-cases, List, [], ◌∷◌, ◌++◌, All,
  All-append, inl, inr, text_eq, text_eq_iff, arith,
}
use trust_panel.Prelude.Int.{ℤ}
use trust_panel.Prelude.Result.{ok, for_each, for_each_of-All}
use trust_panel.Model.State.{State, node_by_id}
use trust_panel.Agent.Api.{File, DesiredState}
use trust_panel.Agent.Host.{Host}
use trust_panel.Agent.Payload.{Config, file_ok, service_ok, is_too_old, validate}
use trust_panel.Control.{
  CompiledNode, Layout, roots, running_set, services_for_node, Panel, place,
  firewall_allow_artifact, control_plane_allow_ips, build_desired_state,
}
use trust_panel.Control.Units.{IsAllowed, managed, services-accepted}
use trust_panel.Control.Placed.{IsAgreed, IsRoot, place-accepted, firewall-accepted}

module _ (p : Panel) (h : Host) (law : IsAgreed p h) (l : Layout) (c : Config) where
  module _ (tt_root : IsRoot h l.trust_tunnel_dir) (sb_root : IsRoot h l.sing_box_dir)
      (told : c.roots ≡ roots l) where
    -- The agent of a node finds nothing to refuse in what the control plane builds for it, if it is
    -- configured for that node with the layout's directories, the artifacts have the sums of their
    -- contents, the extra files are in order, the agent may manage the units of the node's role and
    -- those that the node lists, and the payload is not too old.
    pub validate-build_desired_state :
        (s : State) (compiled : CompiledNode) (extra : List File) (revision_id : ℤ)
        (issued_at : Option ℕ) (ds : DesiredState) (now : ℕ)
        → build_desired_state p s compiled l extra revision_id issued_at ≡ some ds
        → c.node_id ≡ compiled.node_id
        → is_too_old now c.max_clock_skew issued_at ≡ false
        → All (λ a. h.sha256_hex a.content ≡ a.sha256) compiled.files
        → All (λ f. file_ok h c f ≡ ok tt) extra
        → All (IsAllowed c) (running_set compiled.role)
        → All (IsAllowed c) (managed c (node_by_id s compiled.node_id))
        → validate h c now ds false ≡ ok tt
    unfolding build_desired_state validate
    validate-build_desired_state s compiled extra revision_id issued_at ds now e id old sums ex run_
          man =
        let accepted = λ (f : File). file_ok h c f ≡ ok tt in
        elim (Option-cases (place p l compiled.files)) [
          | inl k ↦ ground (arith, e, k)
          | inr ((fs, cs), k) ↦
              let fire = firewall_allow_artifact p l.sing_box_dir (control_plane_allow_ips s) in
              let files : ds.files ≡ fs ++ (extra ++ fire ∷ []) = ground (arith, e, k) in
              let services : ds.services
                  ≡ services_for_node (node_by_id s compiled.node_id) compiled.role =
                ground (arith, e, k) in
              let node : ds.node_id ≡ compiled.node_id = ground (arith, e, k) in
              let issued : ds.issued_at ≡ issued_at = ground (arith, e, k) in
              let all_files : All accepted (fs ++ (extra ++ fire ∷ [])) =
                All-append accepted fs (extra ++ fire ∷ [])
                  (place-accepted p h law l c tt_root sb_root told compiled.files fs cs sums k)
                  (All-append accepted extra (fire ∷ []) ex (
                    firewall-accepted p h law l c tt_root sb_root told (control_plane_allow_ips s),
                    tt,
                  )) in
              let f = for_each_of-All (file_ok h c) (fs ++ (extra ++ fire ∷ [])) all_files in
              let g =
                for_each_of-All (service_ok c)
                  (services_for_node (node_by_id s compiled.node_id) compiled.role)
                  (services-accepted c (node_by_id s compiled.node_id) compiled.role run_ man) in
              let here : text_eq ds.node_id c.node_id ≡ true =
                (text_eq_iff ds.node_id c.node_id).1 (node ∙ sym id) in
              ground (
                arith,
                here,
                ap (is_too_old now c.max_clock_skew) issued,
                old,
                ap (for_each (file_ok h c)) files,
                f,
                ap (for_each (service_ok c)) services,
                g,
              )
        ]
