-- ===== src/Control/Promoted.antt =====
-- store/store.go: Promote, another controller for the fleet, and what it leaves as it was of what a
-- node is sent.
use trust_panel.Prelude.{
  ◌+◌, ◌≡◌, refl, sym, ◌∙◌, ap, Bool, true, false, not, ◌&&◌, Bool-cases, List, [], ◌∷◌, any,
  filter, map, if◌then◌else◌, inl, inr, Text, text_eq, text_eq_iff, arith,
}
use trust_panel.Model.Node.{
  Node, Instant, PublicRole, PgRole, pg_unset, pg_none, pg_primary, pg_replica, pg_other,
}
use trust_panel.Model.State.{State, node_by_id, find_node}
use trust_panel.Agent.Reconcile.{sort_texts, dedupe_sorted}
use trust_panel.Control.{control_plane_allow_ips, candidate_ips, is_candidate, services_for_node}

abbrev pub is_primary : PgRole → Bool
is_primary pg_primary = true
is_primary pg_unset = false
is_primary pg_none = false
is_primary pg_replica = false
is_primary (pg_other _) = false

-- Promote of the store: what it writes of a node.
abbrev pub promoted_node : Text → Instant → Node → Node
promoted_node id at n =
    if text_eq n.id id
    then record n { pg_role = pg_primary; updated_at = at }
    else if is_primary n.pg_role
    then record n { pg_role = pg_none; updated_at = at }
    else n

-- Promote: the state after it, where it goes through. The epoch is an int64 in the source.
unfoldable pub promote : State → Text → Instant → State
promote s id at = record s {
  control_plane = record {
    active_node_id = id;
    epoch = s.control_plane.epoch + 1;
    standby_node_ids = filter (λ i. not (text_eq i id)) s.control_plane.standby_node_ids;
    updated_at = at;
  };
  nodes = map (promoted_node id at) s.nodes;
}

-- The node may become the controller by itself, whoever is active now.
abbrev pub is_manager : State → Text → Bool
is_manager s id = any (λ n. n.mgmt_capable && text_eq id n.id) s.nodes

module _ (id : Text) (at : Instant) where
  promoted-id : (n : Node) → (promoted_node id at n).id ≡ n.id
  promoted-id n = ground arith

  promoted-ips : (n : Node) → (promoted_node id at n).public_ips ≡ n.public_ips
  promoted-ips n = ground arith

  promoted-mgmt : (n : Node) → (promoted_node id at n).mgmt_capable ≡ n.mgmt_capable
  promoted-mgmt n = ground arith

  promoted-managed : (n : Node) → (promoted_node id at n).managed_services ≡ n.managed_services
  promoted-managed n = ground arith

  managers-promoted :
      (x : Text) (ns : List Node)
      → any (λ m. m.mgmt_capable && text_eq x m.id) (map (promoted_node id at) ns)
        ≡ any (λ m. m.mgmt_capable && text_eq x m.id) ns
  managers-promoted x [] = refl
  managers-promoted x (n ∷ ns) = rw (promoted-mgmt n, promoted-id n, managers-promoted x ns) refl

  find-promoted :
      (x : Text) (ns : List Node) (role : PublicRole)
      → services_for_node (find_node (map (promoted_node id at) ns) x) role
        ≡ services_for_node (find_node ns x) role
  unfolding find_node services_for_node
  find-promoted x [] role = refl
  find-promoted x (n ∷ ns) role = elim (Bool-cases (text_eq n.id x)) [
    | inl e ↦ rw (promoted-id n, e, promoted-managed n) refl
    | inr e ↦ rw (promoted-id n, e) (find-promoted x ns role)
  ]

  standby-promoted :
      (x : Text) (ids : List Text)
      → text_eq x id ≡ false
      → any (text_eq x) (filter (λ i. not (text_eq i id)) ids) ≡ any (text_eq x) ids
  standby-promoted x [] e = refl
  standby-promoted x (i ∷ ids) e = elim (Bool-cases (text_eq x i)) [
    | inl k ↦
        let other : text_eq i id ≡ false =
          ap (λ j. text_eq j id) (sym ((text_eq_iff x i).0 k)) ∙ e in
        ground (arith, k, other)
    | inr k ↦ ground (arith, k, standby-promoted x ids e)
  ]

module _ (s : State) (id : Text) (at : Instant)
    (old : is_manager s s.control_plane.active_node_id ≡ true) (new : is_manager s id ≡ true) where
  candidate-promoted :
      (n : Node) → is_candidate (promote s id at) (promoted_node id at n) ≡ is_candidate s n
  unfolding promote
  candidate-promoted n = elim (Bool-cases (text_eq n.id id)) [
    | inl e ↦
        let here : is_manager s n.id ≡ true = ap (is_manager s) ((text_eq_iff n.id id).0 e) ∙ new in
        rw (promoted-id id at n, managers-promoted id at n.id s.nodes) (ground (arith, here))
    | inr e ↦ elim (Bool-cases (text_eq n.id s.control_plane.active_node_id)) [
      | inl k ↦
          let here : is_manager s n.id ≡ true =
            ap (is_manager s) ((text_eq_iff n.id s.control_plane.active_node_id).0 k) ∙ old in
          rw (promoted-id id at n, managers-promoted id at n.id s.nodes) (ground (arith, here))
      | inr k ↦
          rw
            (
              promoted-id id at n,
              managers-promoted id at n.id s.nodes,
              standby-promoted id at n.id s.control_plane.standby_node_ids e,
            )
            (ground (arith, e, k))
    ]
  ]

  same_ips :
      (ns : List Node)
      → candidate_ips (promote s id at) (map (promoted_node id at) ns) ≡ candidate_ips s ns
  unfolding candidate_ips
  same_ips [] = refl
  same_ips (n ∷ ns) = rw (candidate-promoted n, promoted-ips id at n, same_ips ns) refl

  pub allowed-promoted : control_plane_allow_ips (promote s id at) ≡ control_plane_allow_ips s
  unfolding control_plane_allow_ips promote
  allowed-promoted = ap (λ ips. dedupe_sorted (sort_texts ips)) (same_ips s.nodes)

  pub services-promoted :
      (x : Text) (role : PublicRole)
      → services_for_node (node_by_id (promote s id at) x) role
        ≡ services_for_node (node_by_id s x) role
  unfolding promote
  services-promoted x role = find-promoted id at x s.nodes role
