-- ===== src/Agent/Course.antt =====
-- agent/reconcile.go: the ways in which `apply` can go, each with the tests that lead to it.
use trust_panel.Prelude.{
  ℕ, ◌≡◌, refl, sym, subst, ◌∙◌, Bool, true, false, not, ◌&&◌, some, List, [], ◌∷◌, Bool-cases,
  Option-cases, ◌⊎◌, Text, text_eq, inl, inr, arith,
}
use trust_panel.Prelude.Int.{ℤ, int_lt}
use trust_panel.Prelude.Result.{ok, Result-cases}
use trust_panel.Agent.Api.{DesiredState, applied, no_change, stale_leader}
use trust_panel.Agent.Host.{Host, IsLawful}
use trust_panel.Agent.Files.{BackupSet}
use trust_panel.Agent.Store.{
  LocalState, Codec, raise_epoch, record_applied, bump_epoch, commit_applied,
}
use trust_panel.Agent.Payload.{Config, ResolvedFile, validate, changed_files}
use trust_panel.Agent.Reconcile.{
  Agent, result, write_files, run_checks, apply_services, roll_back, install, refused, recache,
  reconcile, capture_all, apply,
}
use trust_panel.Agent.Effects.{
  writes, write_files-elsewhere, bump_epoch-elsewhere, run_checks-disk, apply_services-disk,
  commit_applied-elsewhere,
}

module _ (h : Host) (law : IsLawful h) (codec : Codec) (store_path : Text) (c : Config)
    (ds : DesiredState) where
  open h use {World, disk}

  abbrev commit : World → LocalState → World × LocalState × Bool
  commit w st = commit_applied h codec store_path w st ds

  -- How a commit that went well ends.
  pub record Commits (w : World) (st : LocalState) (r : Agent h) : Type 0 where
    pub saved : (commit w st).2 ≡ true
    pub world : r.0 ≡ (commit w st).0
    pub state : r.1 ≡ (commit w st).1

  -- The path is the store's, or one of the files', or as it was.
  abbrev pub Touched : World → World → List ResolvedFile → Text → Type 0
  Touched w w1 fs q = (text_eq q store_path ≡ true) ⊎ (writes fs q ≡ true) ⊎ (disk w1 q ≡ disk w q)

  -- What is remembered of a request that is not applied: nothing, or, where the save failed, all.
  abbrev pub Recalls : LocalState → LocalState → Type 0
  Recalls st st1 = (st1 ≡ st) ⊎ (st1 ≡ record_applied ds st)

  -- The ends of `install`, seen at the path `q`.
  pub data Ending (w : World) (st : LocalState) (b : BackupSet) (fs : List ResolvedFile) (q : Text)
      (r : Agent h) : Type 0 where
    finished :
        (w1 : World)
        → (write_files h w fs).1 ≡ true
        → disk w1 ≡ disk (write_files h w fs).0
        → Commits w1 st r
        → r.2.changed ≡ true
        → r.2.outcome ≡ applied
        → Ending w st b fs q r
    undone :
        (w1 : World) (st1 : LocalState)
        → Touched w w1 fs q
        → Recalls st st1
        → r ≡ roll_back h w1 st1 b
        → Ending w st b fs q r

  touched :
      (w w1 : World) (fs : List ResolvedFile) (q : Text)
      → disk w1 ≡ disk (write_files h w fs).0
      → Touched w w1 fs q
  touched w w1 fs q e = elim (Bool-cases (writes fs q)) [
    | inl t ↦ inr (inl t)
    | inr f ↦ inr (inr (rw e (write_files-elsewhere h law w fs q f)))
  ]

  commit-Touched :
      (w w1 : World) (st : LocalState) (fs : List ResolvedFile) (q : Text)
      → disk w1 ≡ disk (write_files h w fs).0
      → Touched w (commit w1 st).0 fs q
  commit-Touched w w1 st fs q e = elim (Bool-cases (text_eq q store_path)) [
    | inl t ↦ inl t
    | inr f ↦
        rw (commit_applied-elsewhere h law codec store_path w1 st ds q f) (touched w w1 fs q e)
  ]

  pub install-Ending :
      (w : World) (st : LocalState) (b : BackupSet) (fs : List ResolvedFile) (q : Text)
      → Ending w st b fs q (install h codec store_path c w st ds b fs)
  unfolding install commit_applied
  install-Ending w st b fs q =
      let w1 = (write_files h w fs).0 in
      let w2 = (run_checks h c w1 ds.checks).0 in
      let w3 = (apply_services h w2 ds.services).0 in
      let d2 = run_checks-disk h law c w1 ds.checks in
      let d3 = apply_services-disk h law w2 ds.services in
      elim (Bool-cases (write_files h w fs).1) [
        | inr e1 ↦ undone w1 st (touched w w1 fs q refl) (inl refl) (ground (arith, e1))
        | inl e1 ↦ elim (Bool-cases (run_checks h c w1 ds.checks).1) [
          | inr e2 ↦ undone w2 st (touched w w2 fs q d2) (inl refl) (ground (arith, e1, e2))
          | inl e2 ↦ elim (Bool-cases (apply_services h w2 ds.services).1) [
            | inr e3 ↦ undone w3 st (touched w w3 fs q (cc)) (inl refl) (ground (arith, e1, e2, e3))
            | inl e3 ↦ elim (Bool-cases (commit w3 st).2) [
              | inr e4 ↦
                  undone (commit w3 st).0 (commit w3 st).1 (commit-Touched w w3 st fs q (cc))
                    (inr refl) (ground (arith, e1, e2, e3, e4))
              | inl e4 ↦
                  finished w3 e1 (cc)
                    (record {
                      saved = e4;
                      world = ground (arith, e1, e2, e3, e4);
                      state = ground (arith, e1, e2, e3, e4);
                    })
                    (ground (arith, e1, e2, e3, e4)) (ground (arith, e1, e2, e3, e4))
            ]
          ]
        ]
      ]

  pub bump_epoch-state :
      (w : World) (st : LocalState) (e : ℤ)
      → (bump_epoch h codec store_path w st e).1 ≡ raise_epoch e st
  unfolding bump_epoch
  bump_epoch-state w st e = ground arith

  pub recache-refused :
      (w : World) (st : LocalState)
      → (commit w st).2 ≡ false
      → recache h codec store_path c w st ds ≡ refused h (commit w st).0 (commit w st).1
  unfolding recache
  recache-refused w st e = ground (arith, e)

  -- The ends of `apply`, seen at the path `q`; `w0` and `st0` are the world and the state after the
  -- epoch is recorded.
  pub data Course (now : ℕ) (w : World) (st : LocalState) (skip : Bool) (q : Text) (w0 : World)
      (st0 : LocalState) (r : Agent h) : Type 0 where
    fenced :
        int_lt ds.epoch st.last_accepted_epoch ≡ true
        → r ≡ (w, st, result st stale_leader false [])
        → Course now w st skip q w0 st0 r
    turned_away :
        (w1 : World) (st1 : LocalState)
        → int_lt ds.epoch st.last_accepted_epoch ≡ false
        → Touched w w1 [] q
        → Recalls st0 st1
        → r ≡ refused h w1 st1
        → Course now w st skip q w0 st0 r
    recached :
        int_lt ds.epoch st.last_accepted_epoch ≡ false
        → validate h c now ds skip ≡ ok tt
        → changed_files h c w0 ds.files ≡ some []
        → Commits w0 st0 r
        → r.2.changed ≡ false
        → (r.2.outcome ≡ applied) ⊎ (r.2.outcome ≡ no_change)
        → Course now w st skip q w0 st0 r
    installed :
        int_lt ds.epoch st.last_accepted_epoch ≡ false
        → validate h c now ds skip ≡ ok tt
        → (fs : List ResolvedFile) → changed_files h c w0 ds.files ≡ some fs
        → (b : BackupSet) → capture_all h w0 [] fs ≡ some b
        → Ending w0 st0 b fs q r
        → Course now w st skip q w0 st0 r

  commit_elsewhere :
      (w w0 : World) (st : LocalState) (q : Text)
      → Touched w w0 [] q
      → Touched w (commit w0 st).0 [] q
  commit_elsewhere w w0 st q (inl t) = inl t
  commit_elsewhere w w0 st q (inr (inl t)) = inr (inl t)
  commit_elsewhere w w0 st q (inr (inr t)) = elim (Bool-cases (text_eq q store_path)) [
    | inl e ↦ inl e
    | inr e ↦ inr (inr (commit_applied-elsewhere h law codec store_path w0 st ds q e ∙ t))
  ]

  bump_elsewhere :
      (w : World) (st : LocalState) (q : Text)
      → Touched w (bump_epoch h codec store_path w st ds.epoch).0 [] q
  bump_elsewhere w st q = elim (Bool-cases (text_eq q store_path)) [
    | inl e ↦ inl e
    | inr e ↦ inr (inr (bump_epoch-elsewhere h law codec store_path w st ds.epoch q e))
  ]

  recache-Course :
      (now : ℕ) (w w0 : World) (st st0 : LocalState) (skip : Bool) (q : Text)
      → int_lt ds.epoch st.last_accepted_epoch ≡ false
      → Touched w w0 [] q
      → validate h c now ds skip ≡ ok tt
      → changed_files h c w0 ds.files ≡ some []
      → Course now w st skip q w0 st0 (recache h codec store_path c w0 st0 ds)
  unfolding recache commit_applied
  recache-Course now w w0 st st0 skip q f t v k = elim (Bool-cases (commit w0 st0).2) [
    | inr e ↦
        turned_away (commit w0 st0).0 (commit w0 st0).1 f (commit_elsewhere w w0 st0 q t) (inr refl)
          (recache-refused w0 st0 e)
    | inl e ↦
        recached f v k (record { saved = e; world = ground (arith, e); state = ground (arith, e) })
          (ground (arith, e))
          (elim (Bool-cases (text_eq ds.revision_hash st0.applied_hash)) [
            | inl g ↦ inr (ground (arith, e, g))
            | inr g ↦ inl (ground (arith, e, g))
          ])
  ]

  reconcile-Course :
      (now : ℕ) (w w0 : World) (st st0 : LocalState) (skip : Bool) (q : Text)
      → int_lt ds.epoch st.last_accepted_epoch ≡ false
      → Touched w w0 [] q
      → Course now w st skip q w0 st0 (reconcile h codec store_path c now w0 st0 ds skip)
  unfolding reconcile
  reconcile-Course now w w0 st st0 skip q f t =
      let r = reconcile h codec store_path c now w0 st0 ds skip in
      let away : r ≡ refused h w0 st0 → Course now w st skip q w0 st0 r =
        λ e. turned_away w0 st0 f t (inl refl) e in
      let old =
        not (text_eq ds.revision_hash st0.applied_hash)
        && not (int_lt st0.applied_revision ds.revision_id) in
      elim (Result-cases (validate h c now ds skip)) [
        | inr (r, e1) ↦ away (ground (arith, e1))
        | inl (_, e1) ↦ elim (Bool-cases old) [
          | inl e2 ↦ away (ground (arith, e1, e2))
          | inr e2 ↦ elim (Option-cases (changed_files h c w0 ds.files)) [
            | inl e3 ↦ away (ground (arith, e1, e2, e3))
            | inr ([], e3) ↦
                let eq : r ≡ recache h codec store_path c w0 st0 ds = ground (arith, e1, e2, e3) in
                subst (Course now w st skip q w0 st0) (sym eq)
                  (recache-Course now w w0 st st0 skip q f t e1 e3)
            | inr (g ∷ gs, e3) ↦ elim (Option-cases (capture_all h w0 [] (g ∷ gs))) [
              | inl e4 ↦ away (ground (arith, e1, e2, e3, e4))
              | inr (b, e4) ↦
                  let eq : r ≡ install h codec store_path c w0 st0 ds b (g ∷ gs) =
                    ground (arith, e1, e2, e3, e4) in
                  subst (Course now w st skip q w0 st0) (sym eq)
                    (installed f e1 (g ∷ gs) e3 b e4 (install-Ending w0 st0 b (g ∷ gs) q))
            ]
          ]
        ]
      ]

  pub apply-Course :
      (now : ℕ) (w : World) (st : LocalState) (skip : Bool) (q : Text)
      → Course now w st skip q
          (bump_epoch h codec store_path w st ds.epoch).0
          (raise_epoch ds.epoch st)
          (apply h codec store_path c now w st ds skip)
  unfolding apply
  apply-Course now w st skip q =
      let bump = bump_epoch h codec store_path w st ds.epoch in
      let st0 = bump_epoch-state w st ds.epoch in
      elim (Bool-cases (int_lt ds.epoch st.last_accepted_epoch)) [
        | inl e ↦ fenced e (ground (arith, e))
        | inr e ↦ elim (Bool-cases bump.2) [
          | inr s ↦
              turned_away bump.0 bump.1 e (bump_elsewhere w st q) (inl st0) (ground (arith, e, s))
          | inl s ↦
              rw (e, s, st0)
                (reconcile-Course now w bump.0 st (raise_epoch ds.epoch st) skip q e
                  (bump_elsewhere w st q))
        ]
      ]
