-- ===== src/Control/Repushed.antt =====
-- store/store.go (Promote), controller/build.go and agent/reconcile.go: the same content after a
-- promotion, under a new epoch.
use trust_panel.Prelude.{
  ℕ, ◌≡◌, refl, sym, ◌∙◌, ap, true, false, Option, none, some, Option-cases, List, [], ◌∷◌, All,
  inl, inr, Text, text_eq_iff, arith,
}
use trust_panel.Prelude.Int.{ℤ, int_lt}
use trust_panel.Prelude.Result.{ok}
use trust_panel.Model.Node.{Instant}
use trust_panel.Model.State.{State}
use trust_panel.Agent.Api.{File, Check, DesiredState, no_change}
use trust_panel.Agent.Host.{Host}
use trust_panel.Agent.Store.{LocalState, Codec, bump_epoch, commit_applied}
use trust_panel.Agent.Payload.{Config, validate, changed_file, changed_files}
use trust_panel.Agent.Reconcile.{apply, reconcile, recache}
use trust_panel.Control.{
  CompiledNode, Layout, Panel, place, revision_hash, draft, hashed, build_desired_state,
}
use trust_panel.Control.Promoted.{promote, is_manager, allowed-promoted, services-promoted}

module _ (h : Host) (c : Config) where
  open h use {World}

  changed_files-none :
      (w : World) (files : List File)
      → All (λ f. changed_file h c w f ≡ some none) files
      → changed_files h c w files ≡ some []
  unfolding changed_files
  changed_files-none w [] a = refl
  changed_files-none w (f ∷ files) (e, a) = ground (arith, e, changed_files-none w files a)

  module _ (codec : Codec) (store_path : Text) where
    bump_keeps :
        (w : World) (st : LocalState) (e : ℤ)
        → (bump_epoch h codec store_path w st e).1.applied_hash ≡ st.applied_hash
    unfolding bump_epoch
    bump_keeps w st e = ground arith

    pub apply_again :
        (now : ℕ) (w : World) (st : LocalState) (ds : DesiredState)
        → let w0 = (bump_epoch h codec store_path w st ds.epoch).0 in
          let st0 = (bump_epoch h codec store_path w st ds.epoch).1 in
          int_lt ds.epoch st.last_accepted_epoch ≡ false
          → (bump_epoch h codec store_path w st ds.epoch).2 ≡ true
          → validate h c now ds false ≡ ok tt
          → ds.revision_hash ≡ st.applied_hash
          → All (λ f. changed_file h c w0 f ≡ some none) ds.files
          → (commit_applied h codec store_path w0 st0 ds).2 ≡ true
          → ((apply h codec store_path c now w st ds false).2.outcome ≡ no_change)
            × ((apply h codec store_path c now w st ds false).2.changed ≡ false)
    unfolding apply reconcile recache
    apply_again now w st ds f b v hash a k =
        let w0 = (bump_epoch h codec store_path w st ds.epoch).0 in
        let st0 = (bump_epoch h codec store_path w st ds.epoch).1 in
        let here =
          (text_eq_iff ds.revision_hash st0.applied_hash).1
            (hash ∙ sym (bump_keeps w st ds.epoch)) in
        let none_left = changed_files-none w0 ds.files a in
        (ground (arith, f, b, v, here, none_left, k), ground (arith, f, b, v, here, none_left, k))

module _ (s : State) (id : Text) (at : Instant)
    (old : is_manager s s.control_plane.active_node_id ≡ true) (new : is_manager s id ≡ true) where
  module _ (p : Panel) (compiled : CompiledNode) (l : Layout) (extra : List File) where
    draft-hash :
        (r1 r2 : ℤ) (t1 t2 : Option ℕ) (fs : List File) (cs : List Check)
        → revision_hash p (draft p (promote s id at) compiled l extra r2 t2 fs cs)
          ≡ revision_hash p (draft p s compiled l extra r1 t1 fs cs)
    unfolding revision_hash
    draft-hash r1 r2 t1 t2 fs cs =
        rw
          (
            allowed-promoted s id at old new,
            services-promoted s id at old new compiled.node_id compiled.role,
          )
          refl

    -- What is built for a node has the same hash after the promotion, at any revision and time.
    same_hash :
        (r1 r2 : ℤ) (t1 t2 : Option ℕ) (d1 d2 : DesiredState)
        → build_desired_state p s compiled l extra r1 t1 ≡ some d1
        → build_desired_state p (promote s id at) compiled l extra r2 t2 ≡ some d2
        → d2.revision_hash ≡ d1.revision_hash
    unfolding build_desired_state
    same_hash r1 r2 t1 t2 d1 d2 e f = elim (Option-cases (place p l compiled.files)) [
      | inl k ↦ ground (arith, e, k)
      | inr ((fs, cs), k) ↦
          let a : d1 ≡ hashed p (draft p s compiled l extra r1 t1 fs cs) = ground (arith, e, k) in
          let b : d2 ≡ hashed p (draft p (promote s id at) compiled l extra r2 t2 fs cs) =
            ground (arith, f, k) in
          ap (λ (d : DesiredState). d.revision_hash) b
          ∙ (draft-hash r1 r2 t1 t2 fs cs ∙ sym (ap (λ (d : DesiredState). d.revision_hash) a))
    ]

    -- Let the node that is active before a promotion, and the node that is promoted, be able to
    -- manage the fleet. Where the state that was applied last was built before the promotion, the
    -- state that is built from the same artifacts after it, at another revision and another time, is
    -- answered with no_change, if the agent has seen no higher epoch, validates it, its files stand
    -- as they should and its own state is saved.
    pub apply-repushed :
        (h : Host) (codec : Codec) (store_path : Text) (c : Config) (r1 r2 : ℤ) (t1 t2 : Option ℕ)
        (d1 d2 : DesiredState) (now : ℕ) (w : h.World) (st : LocalState)
        → build_desired_state p s compiled l extra r1 t1 ≡ some d1
        → build_desired_state p (promote s id at) compiled l extra r2 t2 ≡ some d2
        → st.applied_hash ≡ d1.revision_hash
        → let bump = bump_epoch h codec store_path w st d2.epoch in
          int_lt d2.epoch st.last_accepted_epoch ≡ false
          → bump.2 ≡ true
          → validate h c now d2 false ≡ ok tt
          → All (λ f. changed_file h c bump.0 f ≡ some none) d2.files
          → (commit_applied h codec store_path bump.0 bump.1 d2).2 ≡ true
          → ((apply h codec store_path c now w st d2 false).2.outcome ≡ no_change)
            × ((apply h codec store_path c now w st d2 false).2.changed ≡ false)
    apply-repushed h codec store_path c r1 r2 t1 t2 d1 d2 now w st e f last fence saved v files
          kept =
        apply_again h c codec store_path now w st d2 fence saved v
          (same_hash r1 r2 t1 t2 d1 d2 e f ∙ sym last) files kept
