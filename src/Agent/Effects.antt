-- ===== src/Agent/Effects.antt =====
-- agent/reconcile.go, step by step: which files each part of `apply` can touch.
use trust_panel.Prelude.{
  ℕ, ◌≡◌, refl, ap, ◌∙◌, Bool, true, false, some, List, [], ◌∷◌, ◌++◌, any, Bool-cases,
  Option-cases, Text, text_eq, inl, inr, arith,
}
use trust_panel.Prelude.Int.{ℤ}
use trust_panel.Agent.Api.{Service, Check, DesiredState}
use trust_panel.Agent.Host.{Host, IsLawful, Disk, put_file}
use trust_panel.Agent.Files.{atomic_write, resolve_within_roots}
use trust_panel.Agent.Files.Atomic.{atomic_write-Put}
use trust_panel.Agent.Store.{
  LocalState, Codec, save_locked, bump_epoch, commit_applied, record_applied,
}
use trust_panel.Agent.Payload.{Config, ResolvedFile}
use trust_panel.Agent.Reconcile.{write_files, run_checks, service_loop, apply_services}

-- Whether one of the files stands at the path.
abbrev pub writes : List ResolvedFile → Text → Bool
writes fs q = any (λ f. text_eq q f.abs) fs

module _ (h : Host) (law : IsLawful h) where
  open h use {World, disk, mkdir_all, restart, stop, check, dir_of}
  open law use {bystanders, mkdir_disk}
  open bystanders use {restart_disk, stop_disk, check_disk}

  -- A write leaves the other paths alone.
  pub atomic_write-elsewhere :
      (w : World) (path body : Text) (mode : ℕ) (q : Text)
      → text_eq q path ≡ false
      → disk (atomic_write h w path body mode).0 q ≡ disk w q
  atomic_write-elsewhere w path body mode q e =
      elim (Bool-cases (atomic_write h w path body mode).1) [
        | inl d ↦
            ap (λ (f : Disk). f q) (rw d at (atomic_write-Put h law w path body mode))
            ∙ ground (arith, e)
        | inr d ↦ ap (λ (f : Disk). f q) (rw d at (atomic_write-Put h law w path body mode))
      ]

  pub atomic_write-here :
      (w : World) (path body : Text) (mode : ℕ)
      → (atomic_write h w path body mode).1 ≡ true
      → disk (atomic_write h w path body mode).0
        ≡ put_file path (some (record { body = body; mode = mode })) (disk w)
  atomic_write-here w path body mode d = rw d at (atomic_write-Put h law w path body mode)

  pub write_files-elsewhere :
      (w : World) (fs : List ResolvedFile) (q : Text)
      → writes fs q ≡ false
      → disk (write_files h w fs).0 q ≡ disk w q
  unfolding write_files
  write_files-elsewhere w [] q e = refl
  write_files-elsewhere w (f ∷ fs) q e =
      let w1 = (atomic_write h w f.abs f.body f.mode).0 in
      ground (
        arith,
        e,
        λ (d : text_eq q f.abs ≡ false). atomic_write-elsewhere w f.abs f.body f.mode q d,
        λ (d : writes fs q ≡ false). write_files-elsewhere w1 fs q d,
      )

  module _ (codec : Codec) (store_path : Text) where
    pub save_locked-elsewhere :
        (w : World) (st : LocalState) (q : Text)
        → text_eq q store_path ≡ false
        → disk (save_locked h codec store_path w st).0 q ≡ disk w q
    unfolding save_locked
    save_locked-elsewhere w st q e =
        let w1 = (mkdir_all w (dir_of store_path)).0 in
        let m = mkdir_disk w (dir_of store_path) in
        elim (Option-cases (codec.encode st)) [
          | inl n ↦ ground (arith, m, n)
          | inr (t, n) ↦ ground (arith, m, n, atomic_write-elsewhere w1 store_path t 0o600 q e)
        ]

    pub bump_epoch-elsewhere :
        (w : World) (st : LocalState) (e : ℤ) (q : Text)
        → text_eq q store_path ≡ false
        → disk (bump_epoch h codec store_path w st e).0 q ≡ disk w q
    unfolding bump_epoch
    bump_epoch-elsewhere w st e q d =
        ground (arith, save_locked-elsewhere w (record st { last_accepted_epoch = e }) q d)

    pub commit_applied-elsewhere :
        (w : World) (st : LocalState) (ds : DesiredState) (q : Text)
        → text_eq q store_path ≡ false
        → disk (commit_applied h codec store_path w st ds).0 q ≡ disk w q
    unfolding commit_applied
    commit_applied-elsewhere w st ds q d = save_locked-elsewhere w (record_applied ds st) q d

  pub service_loop-disk :
      (w : World) (out : List Text) (ss : List Service) → disk (service_loop h w out ss).0 ≡ disk w
  unfolding service_loop
  service_loop-disk w out [] = refl
  service_loop-disk w out (s ∷ ss) = ground (
    arith,
    restart_disk w s.name,
    stop_disk w s.name,
    service_loop-disk (restart w s.name).0 (out ++ s.name ∷ []) ss,
    service_loop-disk (stop w s.name).0 out ss,
    service_loop-disk w out ss,
  )

  pub apply_services-disk :
      (w : World) (ss : List Service) → disk (apply_services h w ss).0 ≡ disk w
  unfolding apply_services
  apply_services-disk w ss = service_loop-disk w [] ss

  pub run_checks-disk :
      (c : Config) (w : World) (ks : List Check) → disk (run_checks h c w ks).0 ≡ disk w
  unfolding run_checks
  run_checks-disk c w [] = refl
  run_checks-disk c w (k ∷ ks) = elim (Option-cases (resolve_within_roots h c.roots k.path)) [
    | inl e ↦ ground (arith, e)
    | inr (abs, e) ↦
        ground (arith, e, check_disk w k.kind abs, run_checks-disk c (check w k.kind abs).0 ks)
  ]
