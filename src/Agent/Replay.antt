-- ===== src/Agent/Replay.antt =====
-- agent/store.go and ReapplyCached of agent/reconcile.go: what survives a restart of the agent.
use trust_panel.Prelude.{
  ℕ, ◌≡◌, ◌≢◌, refl, ◌∙◌, ap, Bool, true, false, Option, none, some, List, [], ◌∷◌, Bool-cases,
  Option-cases, ◌⊎◌, inl, inr, Text, text_eq_refl, if◌then◌else◌, arith,
}
use trust_panel.Prelude.Int.{ℤ, pos, negsuc, int_lt}
use trust_panel.Prelude.Result.{err}
use trust_panel.Agent.Api.{DesiredState, ReconcileResult, Outcome, applied, no_change, stale_leader}
use trust_panel.Agent.Host.{Host, IsLawful, Disk, body_of, unreadable}
use trust_panel.Agent.Files.{atomic_write}
use trust_panel.Agent.Store.{
  LocalState, Codec, open_store, save_locked, raise_epoch, bump_epoch, commit_applied,
}
use trust_panel.Agent.Payload.{Config, Refusal, validate}
use trust_panel.Agent.Reconcile.{
  Agent, apply, reconcile, roll_back, reapply_cached, ensure_services_running, with_started,
}
use trust_panel.Agent.Course.{
  Course, fenced, turned_away, recached, installed, finished, undone, Commits, apply-Course,
  bump_epoch-state,
}
use trust_panel.Agent.Fence.{apply-last_accepted_epoch, apply_stale, below_max}
use trust_panel.Agent.Effects.{atomic_write-here}
use trust_panel.Agent.Backup.{Reading-cases}

abbrev pub replay_outcome : Option ReconcileResult → Option Outcome
replay_outcome none = none
replay_outcome (some r) = some r.outcome

module _ (h : Host) (law : IsLawful h) (codec : Codec) (store_path : Text) (c : Config) where
  open h use {World, disk, read_file, mkdir_all, dir_of}
  open law use {read_found, read_missing}

  -- A state that was saved is what the file holds.
  save_locked-body :
      (w : World) (st : LocalState)
      → (save_locked h codec store_path w st).1 ≡ true
      → (t : Text) × (codec.encode st ≡ some t)
        × (body_of (disk (save_locked h codec store_path w st).0 store_path) ≡ some t)
  unfolding save_locked
  save_locked-body w st e =
      let w1 = (mkdir_all w (dir_of store_path)).0 in
      let made : (mkdir_all w (dir_of store_path)).1 ≡ true =
        elim (Bool-cases (mkdir_all w (dir_of store_path)).1) [
          | inl k ↦ k
          | inr k ↦ ground (arith, e, k)
        ] in
      elim (Option-cases (codec.encode st)) [
        | inl n ↦ ground (arith, e, n, made)
        | inr (t, n) ↦
            let went : (atomic_write h w1 store_path t 0o600).1 ≡ true =
              ground (arith, e, n, made) in
            let eq : save_locked h codec store_path w st ≡ atomic_write h w1 store_path t 0o600 =
              ground (arith, n, made) in
            (
              t,
              n,
              ap (λ (x : World × Bool). body_of (disk x.0 store_path)) eq
                  ∙ ap (λ (d : Disk). body_of (d store_path))
                      (atomic_write-here h law w1 store_path t 0o600 went)
                  ∙ ground (arith, text_eq_refl store_path),
            )
      ]

  open_saved :
      (w : World) (st : LocalState) (t : Text)
      → codec.decode t ≡ some st
      → body_of (disk w store_path) ≡ some t
      → (open_store h codec store_path w ≡ some st) ⊎ (read_file w store_path ≡ unreadable)
  unfolding open_store
  open_saved w st t d e = elim (Reading-cases (read_file w store_path)) [
    | inl (b, r) ↦ inl (ground (arith, r, read_found w store_path b r, e, d))
    | inr (inl r) ↦ ground (arith, read_missing w store_path r, e)
    | inr (inr r) ↦ inr r
  ]

  abbrev Kept : Agent h → Type 0
  Kept r = (t : Text) × (codec.encode r.1 ≡ some t) × (body_of (disk r.0 store_path) ≡ some t)

  Commits-Kept :
      (ds : DesiredState) (w : World) (st : LocalState) (r : Agent h)
      → Commits h law codec store_path c ds w st r
      → Kept r
  unfolding commit_applied
  Commits-Kept ds w st r m =
      let st1 = (commit_applied h codec store_path w st ds).1 in
      let (t, e, b) = save_locked-body w st1 m.saved in
      (t, ap codec.encode m.state ∙ e, ap (λ (x : World). body_of (disk x store_path)) m.world ∙ b)

  kept_in :
      (now : ℕ) (w : World) (st : LocalState) (ds : DesiredState) (skip : Bool) (w0 : World)
      (r : Agent h)
      → Course h law codec store_path c ds now w st skip [] w0 (raise_epoch ds.epoch st) r
      → (r.2.outcome ≡ applied) ⊎ (r.2.outcome ≡ no_change)
      → (int_lt ds.epoch st.last_accepted_epoch ≡ false)
        × ((w1 : World) × Commits h law codec store_path c ds w1 (raise_epoch ds.epoch st) r)
  unfolding roll_back
  kept_in now w st ds skip w0 r (fenced t g) o =
      let x = ap (λ (x : Agent h). x.2.outcome) g in elim o [ inl y ↦ cc | inr y ↦ cc ]
  kept_in now w st ds skip w0 r (turned_away w1 st1 t u v g) o =
      let x = ap (λ (x : Agent h). x.2.outcome) g in elim o [ inl y ↦ cc | inr y ↦ cc ]
  kept_in now w st ds skip w0 r (recached t v k y n z) o = (t, (w0, y))
  kept_in now w st ds skip w0 r (installed t v fs k b g (finished w1 d q y n z)) o = (t, (w1, y))
  kept_in now w st ds skip w0 r (installed t v fs k b g (undone w1 st1 q y z)) o =
      let x = ap (λ (x : Agent h). x.2.outcome) z in elim o [ inl y ↦ cc | inr y ↦ cc ]

  -- After a request that is answered with applied or no_change, an agent that starts again reads back
  -- all that this one remembers, or cannot read its file, if json gives back the
  -- state it is given.
  pub open_store-apply :
      (now : ℕ) (w : World) (st : LocalState) (ds : DesiredState) (skip : Bool)
      → ((t : Text)
          → codec.encode (apply h codec store_path c now w st ds skip).1 ≡ some t
          → codec.decode t ≡ some (apply h codec store_path c now w st ds skip).1)
      → (((apply h codec store_path c now w st ds skip).2.outcome ≡ applied)
          ⊎ ((apply h codec store_path c now w st ds skip).2.outcome ≡ no_change))
      → (open_store h codec store_path (apply h codec store_path c now w st ds skip).0
          ≡ some (apply h codec store_path c now w st ds skip).1)
        ⊎ (read_file (apply h codec store_path c now w st ds skip).0 store_path ≡ unreadable)
  open_store-apply now w st ds skip json o =
      let r = apply h codec store_path c now w st ds skip in
      let (f, (w1, m)) =
        kept_in now w st ds skip _ r (apply-Course h law codec store_path c ds now w st skip [])
          o in
      let (t, e, b) = Commits-Kept ds w1 (raise_epoch ds.epoch st) r m in
      open_saved r.0 r.1 t (json t e) b

  with_started-outcome :
      (r : ReconcileResult) (ts : List Text) → (with_started r ts).outcome ≡ r.outcome
  with_started-outcome r [] = refl
  with_started-outcome r (t ∷ ts) = refl

  -- A replay answers what `apply` does.
  reapply_cached-outcome :
      (now : ℕ) (w : World) (st : LocalState) (ds : DesiredState)
      → st.cached ≡ some ds
      → replay_outcome (reapply_cached h codec store_path c now w st).2
        ≡ some (apply h codec store_path c now w st ds true).2.outcome
  unfolding reapply_cached
  reapply_cached-outcome now w st ds e =
      let r = apply h codec store_path c now w st ds true in
      ground (arith, e, with_started-outcome r.2 (ensure_services_running h r.0 ds.services).1)

  is_current : (e l : ℤ) → int_lt e l ≡ false → int_lt e (if int_lt l e then e else l) ≡ false
  is_current (pos e) (pos l) t = ground arith
  is_current (pos e) (negsuc l) t = ground arith
  is_current (negsuc e) (pos l) t = ground arith
  is_current (negsuc e) (negsuc l) t = ground arith

  not_stale_in :
      (now : ℕ) (w : World) (st : LocalState) (ds : DesiredState) (skip : Bool) (w0 : World)
      (r : Agent h)
      → Course h law codec store_path c ds now w st skip [] w0 (raise_epoch ds.epoch st) r
      → int_lt ds.epoch st.last_accepted_epoch ≡ false
      → r.2.outcome ≢ stale_leader
  unfolding roll_back
  not_stale_in now w st ds skip w0 r (fenced t g) e = λ x. cc
  not_stale_in now w st ds skip w0 r (turned_away w1 st1 t u v g) e =
      let o = ap (λ (x : Agent h). x.2.outcome) g in λ x. cc
  not_stale_in now w st ds skip w0 r (recached t v k y n (inl z)) e = λ x. cc
  not_stale_in now w st ds skip w0 r (recached t v k y n (inr z)) e = λ x. cc
  not_stale_in now w st ds skip w0 r (installed t v fs k b g (finished w1 d q y n z)) e = λ x. cc
  not_stale_in now w st ds skip w0 r (installed t v fs k b g (undone w1 st1 q y z)) e =
      let o = ap (λ (x : Agent h). x.2.outcome) z in λ x. cc

  -- What a request that is answered with applied or no_change leaves in the cache, the agent accepts
  -- when it starts again: whenever and wherever the replay runs, it is not turned away as stale.
  pub replay-accepted :
      (now : ℕ) (w : World) (st : LocalState) (ds : DesiredState) (skip : Bool) (later : ℕ)
      (w2 : World)
      → (((apply h codec store_path c now w st ds skip).2.outcome ≡ applied)
          ⊎ ((apply h codec store_path c now w st ds skip).2.outcome ≡ no_change))
      → let st1 = (apply h codec store_path c now w st ds skip).1 in
        (o : Outcome) × (replay_outcome (reapply_cached h codec store_path c later w2 st1).2
          ≡ some o)
        × (o ≢ stale_leader)
  unfolding commit_applied
  replay-accepted now w st ds skip later w2 o =
      let r = apply h codec store_path c now w st ds skip in
      let (f, (w1, m)) =
        kept_in now w st ds skip _ r (apply-Course h law codec store_path c ds now w st skip [])
          o in
      let kept : r.1.cached ≡ some ds = ap (λ (x : LocalState). x.cached) m.state in
      let epoch = apply-last_accepted_epoch h law codec store_path c now w st ds skip in
      (
        (apply h codec store_path c later w2 r.1 ds true).2.outcome,
        reapply_cached-outcome later w2 r.1 ds kept,
        not_stale_in later w2 r.1 ds true _ _
            (apply-Course h law codec store_path c ds later w2 r.1 true [])
            (rw epoch (is_current ds.epoch st.last_accepted_epoch f)),
      )

  -- A request of a higher epoch that validation refuses leaves the cache behind: from then on its
  -- replay is turned away as stale.
  pub replay-is_fenced :
      (now : ℕ) (w : World) (st : LocalState) (ds old : DesiredState) (why : Refusal) (later : ℕ)
      (w2 : World)
      → st.cached ≡ some old
      → int_lt old.epoch ds.epoch ≡ true
      → int_lt ds.epoch st.last_accepted_epoch ≡ false
      → validate h c now ds false ≡ err why
      → replay_outcome
          (reapply_cached h codec store_path c later w2
            (apply h codec store_path c now w st ds false).1).2
        ≡ some stale_leader
  unfolding apply reconcile
  replay-is_fenced now w st ds old why later w2 k e f v =
      let r = apply h codec store_path c now w st ds false in
      let bump = bump_epoch h codec store_path w st ds.epoch in
      let memory : r.1 ≡ raise_epoch ds.epoch st =
        ground (arith, f, v, bump_epoch-state h law codec store_path c ds w st ds.epoch) in
      let kept : r.1.cached ≡ some old =
        ap (λ (x : LocalState). x.cached) memory ∙ ground (arith, k) in
      let epoch = apply-last_accepted_epoch h law codec store_path c now w st ds false in
      reapply_cached-outcome later w2 r.1 old kept
      ∙ ap (λ (x : Agent h). some x.2.outcome)
          (apply_stale h law codec store_path c later w2 r.1 old true
            (rw epoch (below_max old.epoch ds.epoch st.last_accepted_epoch (inl e))))
