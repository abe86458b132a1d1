-- ===== src/Agent/Reconcile.antt =====
-- agent/reconcile.go: the agent applies a desired state, rolls back what fails, and applies its
-- cached one again at boot.
use trust_panel.Prelude.{
  ℕ, Bool, true, false, not, ◌&&◌, Option, none, some, List, [], ◌∷◌, ◌++◌, if◌then◌else◌, Text,
  codes, text_eq, text_lt,
}
use trust_panel.Prelude.Int.{int_lt}
use trust_panel.Prelude.Result.{ok, err}
use trust_panel.Agent.Api.{
  Service, want_running, want_stopped, other_want, Check, DesiredState, Outcome, applied, no_change,
  stale_leader, rejected, rolled_back, ReconcileResult,
}
use trust_panel.Agent.Host.{Host}
use trust_panel.Agent.Files.{atomic_write, resolve_within_roots, BackupSet, capture, restore}
use trust_panel.Agent.Store.{LocalState, Codec, bump_epoch, commit_applied}
use trust_panel.Agent.Payload.{Config, ResolvedFile, validate, changed_files}

-- sort.Strings: texts that compare equal are the same, so that any sort gives this list.
unfoldable pub insert_text : Text → List Text → List Text
unfolding text_lt
insert_text t [] = t ∷ []
insert_text t (u ∷ us) =
    let rest = insert_text t us in if text_lt u t then u ∷ rest else t ∷ (u ∷ us)

unfoldable pub sort_texts : List Text → List Text
unfolding insert_text
sort_texts [] = []
sort_texts (t ∷ ts) = insert_text t (sort_texts ts)

-- dedupeSorted
unfoldable pub dedupe_sorted : List Text → List Text
unfolding text_eq
dedupe_sorted [] = []
dedupe_sorted (t ∷ []) = t ∷ []
dedupe_sorted (t ∷ (u ∷ us)) =
    let rest = dedupe_sorted (u ∷ us) in if text_eq u t then rest else t ∷ rest

abbrev pub Agent : Host → Type 0
Agent h = h.World × LocalState × ReconcileResult

-- Reconciler.result
abbrev pub result : LocalState → Outcome → Bool → List Text → ReconcileResult
result st outcome changed restarted = record {
  outcome = outcome;
  changed = changed;
  restarted = restarted;
  applied_revision = st.applied_revision;
  last_accepted_epoch = st.last_accepted_epoch;
}

module _ (h : Host) where
  open h use {World, restart, stop, status}

  -- The capture of every file that will be written.
  unfoldable pub capture_all : World → BackupSet → List ResolvedFile → Option BackupSet
  unfolding capture
  capture_all w b [] = some b
  capture_all w b (f ∷ fs) = elim (capture h w b f.abs) [
    | none ↦ none
    | some b1 ↦ capture_all w b1 fs
  ]

  -- The writes, up to the first that fails.
  unfoldable pub write_files : World → List ResolvedFile → World × Bool
  unfolding atomic_write
  write_files w [] = (w, true)
  write_files w (f ∷ fs) =
      let (w1, wrote) = atomic_write h w f.abs f.body f.mode in
      let rest = write_files w1 fs in if wrote then rest else (w1, false)

  -- The loop of applyServices, before the names are sorted.
  unfoldable pub service_loop : World → List Text → List Service → World × Bool × List Text
  service_loop w restarted [] = (w, true, restarted)
  service_loop w restarted (s ∷ ss) = elim s.want [
    | want_running ↦
        let (w1, done) = restart w s.name in
        let rest = service_loop w1 (restarted ++ s.name ∷ []) ss in
        if done then rest else (w1, false, restarted)
    | want_stopped ↦
        let (w1, done) = stop w s.name in
        let rest = service_loop w1 restarted ss in if done then rest else (w1, false, restarted)
    | other_want _ ↦ service_loop w restarted ss
  ]

  -- applyServices
  unfoldable pub apply_services : World → List Service → World × Bool × List Text
  unfolding service_loop sort_texts
  apply_services w services =
      let (w1, done, restarted) = service_loop w [] services in
      (w1, done, if done then sort_texts restarted else restarted)

  -- `_ = backup.restore()` and the result that follows it.
  unfoldable pub roll_back : World → LocalState → BackupSet → Agent h
  unfolding restore
  roll_back w st b = ((restore h w b).0, st, result st rolled_back false [])

  abbrev pub refused : World → LocalState → Agent h
  refused w st = (w, st, result st rejected false [])

  abbrev is_active : Option Text → Bool
  is_active none = false
  is_active (some state) = text_eq state (codes "active")

  -- The loop of ensureServicesRunning.
  unfoldable pub ensure_loop : World → List Text → List Service → World × List Text
  ensure_loop w started [] = (w, started)
  ensure_loop w started (s ∷ ss) = elim s.want [
    | want_running ↦
        let (w1, state) = status w s.name in
        let (w2, done) = restart w1 s.name in
        let next : World × List Text =
          if is_active state
          then (w1, started)
          else (w2, if done then started ++ s.name ∷ [] else started) in
        ensure_loop next.0 next.1 ss
    | want_stopped ↦ ensure_loop w started ss
    | other_want _ ↦ ensure_loop w started ss
  ]

  -- ensureServicesRunning
  unfoldable pub ensure_services_running : World → List Service → World × List Text
  unfolding ensure_loop sort_texts
  ensure_services_running w services =
      let (w1, started) = ensure_loop w [] services in (w1, sort_texts started)

abbrev pub with_started : ReconcileResult → List Text → ReconcileResult
with_started r [] = r
with_started r (t ∷ ts) = record r {
  restarted = dedupe_sorted (sort_texts (r.restarted ++ t ∷ ts));
  changed = true;
}

module _ (h : Host) (c : Config) where
  open h use {World, check}

  -- The checks, up to the first that fails.
  unfoldable pub run_checks : World → List Check → World × Bool
  unfolding resolve_within_roots
  run_checks w [] = (w, true)
  run_checks w (k ∷ ks) = elim (resolve_within_roots h c.roots k.path) [
    | none ↦ (w, false)
    | some abs ↦
        let (w1, passed) = check w k.kind abs in
        let rest = run_checks w1 ks in if passed then rest else (w1, false)
  ]

module _ (h : Host) (codec : Codec) (store_path : Text) (c : Config) where
  open h use {World}

  -- The part of `apply` from the first write on.
  unfoldable pub install :
      World → LocalState → DesiredState → BackupSet → List ResolvedFile → Agent h
  unfolding write_files run_checks apply_services commit_applied roll_back
  install w st ds b changed =
      let (w1, wrote) = write_files h w changed in
      if not wrote
      then roll_back h w1 st b
      else let (w2, passed) = run_checks h c w1 ds.checks in
        if not passed
        then roll_back h w2 st b
        else let (w3, served, restarted) = apply_services h w2 ds.services in
          if not served
          then roll_back h w3 st b
          else let (w4, st1, saved) = commit_applied h codec store_path w3 st ds in
            if not saved then roll_back h w4 st1 b else (w4, st1, result st1 applied true restarted)

  -- The part of `apply` that finds no file to write.
  unfoldable pub recache : World → LocalState → DesiredState → Agent h
  unfolding commit_applied
  recache w st ds =
      let (w1, st1, saved) = commit_applied h codec store_path w st ds in
      if not saved then refused h w1 st1 else (
        w1,
        st1,
        result st1 (if text_eq ds.revision_hash st.applied_hash then no_change else applied) false
            [],
      )

  -- The part of `apply` after the epoch is recorded.
  unfoldable pub reconcile : ℕ → World → LocalState → DesiredState → Bool → Agent h
  reconcile now w st ds skip_clock_skew = elim (validate h c now ds skip_clock_skew) [
    | err _ ↦ refused h w st
    | ok _ ↦
        if not (text_eq ds.revision_hash st.applied_hash)
          && not (int_lt st.applied_revision ds.revision_id)
        then refused h w st
        else elim (changed_files h c w ds.files) [
          | none ↦ refused h w st
          | some [] ↦ recache w st ds
          | some (f ∷ fs) ↦ elim (capture_all h w [] (f ∷ fs)) [
            | none ↦ refused h w st
            | some b ↦ install w st ds b (f ∷ fs)
          ]
        ]
  ]

  -- Reconciler.apply
  unfoldable pub apply : ℕ → World → LocalState → DesiredState → Bool → Agent h
  apply now w st ds skip_clock_skew =
      if int_lt ds.epoch st.last_accepted_epoch
      then (w, st, result st stale_leader false [])
      else let (w1, st1, saved) = bump_epoch h codec store_path w st ds.epoch in
        if not saved then refused h w1 st1 else reconcile now w1 st1 ds skip_clock_skew

  -- ReapplyCached: `none` where nothing is cached.
  unfoldable pub reapply_cached :
      ℕ → World → LocalState → World × LocalState × Option ReconcileResult
  unfolding apply ensure_services_running dedupe_sorted sort_texts
  reapply_cached now w st = elim st.cached [
    | none ↦ (w, st, none)
    | some ds ↦
        let (w1, st1, r) = apply now w st ds true in
        let (w2, started) = ensure_services_running h w1 ds.services in
        (w2, st1, some (with_started r started))
  ]
