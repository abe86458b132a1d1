-- ===== src/Agent/Backup.antt =====
-- agent/fileio.go: what a backup holds, and what restoring it brings back.
use trust_panel.Prelude.{
  ◌≡◌, refl, ◌∙◌, subst, ap, Bool, true, Option, none, some, List, [], ◌∷◌, ◌++◌, All,
  if◌then◌else◌, Bool-cases, Option-cases, ◌||◌, ◌⊎◌, inl, inr, Text, text_eq, text_eq_iff,
  text_eq_sym, any-append, arith,
}
use trust_panel.Agent.Host.{
  Host, IsLawful, Disk, DiskFile, body_of, put_file, Reading, found, missing, unreadable, Removal,
  removed, not_there, not_removed,
}
use trust_panel.Agent.Files.{BackupSet, has_entry, capture, restore_entry, restore}
use trust_panel.Agent.Payload.{ResolvedFile}
use trust_panel.Agent.Reconcile.{capture_all}
use trust_panel.Agent.Effects.{writes, atomic_write-here}

pub Reading-cases : (r : Reading) → ((b : Text) × (r ≡ found b)) ⊎ (r ≡ missing) ⊎ (r ≡ unreadable)
Reading-cases (found b) = inl (b, refl)
Reading-cases missing = inr (inl refl)
Reading-cases unreadable = inr (inr refl)

pub body-put_file :
    (d : Disk) (p q : Text) (f : Option DiskFile)
    → body_of (put_file p f d q) ≡ (if text_eq q p then body_of f else body_of (d q))
body-put_file d p q f = ground arith

Removal-cases : (r : Removal) → (r ≡ removed) ⊎ (r ≡ not_there) ⊎ (r ≡ not_removed)
Removal-cases removed = inl refl
Removal-cases not_there = inr (inl refl)
Removal-cases not_removed = inr (inr refl)

module _ (h : Host) (law : IsLawful h) where
  open h use {World, disk, read_file, remove_file}
  open law use {read_found, read_missing, remove_disk, absent_disk}

  -- The entry holds what stands at its path.
  abbrev pub IsPrior : World → Text × Option Text → Type 0
  IsPrior w e = body_of (disk w e.0) ≡ e.1

  add_entry :
      (w : World) (b : BackupSet) (e : Text × Option Text)
      → All (IsPrior w) b
      → IsPrior w e
      → All (IsPrior w) (b ++ e ∷ [])
  add_entry w [] e a p = (p, tt)
  add_entry w (x ∷ b) e (a, rest) p = (a, add_entry w b e rest p)

  capture-IsPrior :
      (w : World) (b : BackupSet) (path : Text) (b1 : BackupSet)
      → capture h w b path ≡ some b1
      → All (IsPrior w) b
      → All (IsPrior w) b1
  unfolding capture
  capture-IsPrior w b path b1 e a = elim (Bool-cases (has_entry b path)) [
    | inl t ↦ subst (All (IsPrior w)) (ground (arith, e, t)) a
    | inr t ↦ elim (Reading-cases (read_file w path)) [
      | inl (body, r) ↦
          subst (All (IsPrior w)) (ground (arith, e, t, r))
            (add_entry w b (path, some body) a (read_found w path body r))
      | inr (inl r) ↦
          subst (All (IsPrior w)) (ground (arith, e, t, r))
            (add_entry w b (path, none) a (ap body_of (read_missing w path r)))
      | inr (inr r) ↦ ground (arith, e, t, r)
    ]
  ]

  abbrev names : Text → Text × Option Text → Bool
  names q e = text_eq e.0 q

  -- An entry for the path stays, and the captured path has one.
  capture-has_entry :
      (w : World) (b : BackupSet) (path : Text) (b1 : BackupSet) (q : Text)
      → capture h w b path ≡ some b1
      → has_entry b1 q ≡ (has_entry b q || text_eq path q)
  unfolding capture
  capture-has_entry w b path b1 q e =
      let same : text_eq path q ≡ true → path ≡ q = (text_eq_iff path q).0 in
      elim (Bool-cases (has_entry b path)) [
        | inl t ↦
            let eq : b ≡ b1 = ground (arith, e, t) in
            elim (Bool-cases (text_eq path q)) [
              | inl g ↦ ground (arith, eq, g, (rw (same g) at t))
              | inr g ↦ ground (arith, eq, g)
            ]
        | inr t ↦ elim (Reading-cases (read_file w path)) [
          | inl (body, r) ↦
              let eq : b ++ (path, some body) ∷ [] ≡ b1 = ground (arith, e, t, r) in
              rw (← eq) (rw (any-append (names q) b ((path, some body) ∷ [])) (ground arith))
          | inr (inl r) ↦
              let eq : b ++ (path, none) ∷ [] ≡ b1 = ground (arith, e, t, r) in
              rw (← eq) (rw (any-append (names q) b ((path, none) ∷ [])) (ground arith))
          | inr (inr r) ↦ ground (arith, e, t, r)
        ]
      ]

  pub capture_all-IsPrior :
      (w : World) (b : BackupSet) (fs : List ResolvedFile) (b1 : BackupSet)
      → capture_all h w b fs ≡ some b1
      → All (IsPrior w) b
      → All (IsPrior w) b1
  unfolding capture_all
  capture_all-IsPrior w b [] b1 e a = subst (All (IsPrior w)) (ground (arith, e)) a
  capture_all-IsPrior w b (f ∷ fs) b1 e a = elim (Option-cases (capture h w b f.abs)) [
    | inl n ↦ ground (arith, e, n)
    | inr (b2, n) ↦
        capture_all-IsPrior w b2 fs b1 (ground (arith, e, n)) (capture-IsPrior w b f.abs b2 n a)
  ]

  pub capture_all-has_entry :
      (w : World) (b : BackupSet) (fs : List ResolvedFile) (b1 : BackupSet) (q : Text)
      → capture_all h w b fs ≡ some b1
      → has_entry b1 q ≡ (has_entry b q || writes fs q)
  unfolding capture_all
  capture_all-has_entry w b [] b1 q e = ground (arith, e)
  capture_all-has_entry w b (f ∷ fs) b1 q e = elim (Option-cases (capture h w b f.abs)) [
    | inl n ↦ ground (arith, e, n)
    | inr (b2, n) ↦ ground (
      arith,
      capture_all-has_entry w b2 fs b1 q (ground (arith, e, n)),
      capture-has_entry w b f.abs b2 q n,
      text_eq_sym q f.abs,
    )
  ]

  restore_entry-disk :
      (w : World) (p : Text) (prior : Option Text) (q : Text)
      → (restore_entry h w (p, prior)).1 ≡ true
      → body_of (disk (restore_entry h w (p, prior)).0 q)
        ≡ (if text_eq q p then prior else body_of (disk w q))
  unfolding restore_entry
  restore_entry-disk w p none q e =
      let at = λ (d : Disk). body_of (d q) in
      elim (Removal-cases (remove_file w p).1) [
        | inl r ↦ ap at (rw r at (remove_disk w p)) ∙ body-put_file (disk w) p q none
        | inr (inl r) ↦ elim (Bool-cases (text_eq q p)) [
          | inl t ↦ rw t (
              ap at (rw r at (remove_disk w p))
              ∙ ap body_of (rw (← (text_eq_iff q p).0 t) at (absent_disk w p r)))
          | inr t ↦ rw t (ap at (rw r at (remove_disk w p)))
        ]
        | inr (inr r) ↦ ground (arith, e, r)
      ]
  restore_entry-disk w p (some body) q e =
      ap (λ (d : Disk). body_of (d q)) (atomic_write-here h law w p body 0o600 e)
      ∙ body-put_file (disk w) p q (some (record { body = body; mode = 0o600 }))

  -- Where no entry fails, a path of the backup, and one that is as it was, has its body of the time of
  -- the backup.
  pub restore-prior :
      (w w1 : World) (b : BackupSet) (q : Text)
      → All (IsPrior w) b
      → (restore h w1 b).1 ≡ true
      → (has_entry b q ≡ true) ⊎ (body_of (disk w1 q) ≡ body_of (disk w q))
      → body_of (disk (restore h w1 b).0 q) ≡ body_of (disk w q)
  unfolding restore
  restore-prior w w1 [] q a e (inl t) = cc
  restore-prior w w1 [] q a e (inr t) = t
  restore-prior w w1 ((p, prior) ∷ b) q (a, rest) e t =
      let w2 = (restore_entry h w1 (p, prior)).0 in
      let e1 : (restore_entry h w1 (p, prior)).1 ≡ true = ground (arith, e) in
      let e2 : (restore h w2 b).1 ≡ true = ground (arith, e) in
      let d = restore_entry-disk w1 p prior q e1 in
      restore-prior w w2 b q rest e2 (elim (Bool-cases (text_eq q p)) [
        | inl g ↦ inr (ground (arith, d, g, (text_eq_iff q p).0 g, a))
        | inr g ↦ elim t [
          | inl m ↦ inl (ground (arith, m, g, text_eq_sym q p))
          | inr m ↦ inr (ground (arith, m, d, g))
        ]
      ])
