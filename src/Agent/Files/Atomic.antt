-- ===== src/Agent/Files/Atomic.antt =====
-- What an atomic write does to the files: all of it or nothing.
use trust_panel.Prelude.{
  ℕ, ◌≡◌, Bool, some, [], ◌++◌, if◌then◌else◌, Option-cases, Text, codes, inl, inr, arith,
}
use trust_panel.Agent.Host.{Host, IsLawful, DiskFile, Disk, put_file}
use trust_panel.Agent.Files.{fill_temp, atomic_write}

module _ (h : Host) (law : IsLawful h) where
  open h use {
    World, Temp, disk, temp, mkdir_all, create_temp, write_temp, sync_temp, close_temp, chmod_temp,
    rename_temp, remove_temp, dir_of, base_of,
  }
  open law use {
    write_disk, close_disk, sync_disk, chmod_disk, rename_disk, drop_disk, mkdir_disk, create_disk,
    written, created, sync_body, close_body, chmod_file,
  }

  abbrev Put : World × Bool → Disk → Text → DiskFile → Type 0
  Put r d path f = disk r.0 ≡ (if r.1 then put_file path (some f) d else d)

  fill_temp-Put :
      (w : World) (t : Temp) (path body : Text) (mode : ℕ)
      → (temp w t).body ≡ []
      → Put (fill_temp h w t path body mode) (disk w) path (record { body = body; mode = mode })
  unfolding fill_temp
  fill_temp-Put w t path body mode e =
      let w1 = (write_temp w t body).0 in
      let w2 = (sync_temp w1 t).0 in
      let w3 = (close_temp w2 t).0 in
      let w4 = (chmod_temp w3 t mode).0 in
      ground (
        arith,
        write_disk w t body,
        close_disk w1 t,
        sync_disk w1 t,
        close_disk w2 t,
        chmod_disk w3 t mode,
        rename_disk w4 t path,
        written w t body,
        sync_body w1 t,
        close_body w2 t,
        chmod_file w3 t mode,
        e,
      )

  pub atomic_write-Put :
      (w : World) (path body : Text) (mode : ℕ)
      → Put (atomic_write h w path body mode) (disk w) path (record { body = body; mode = mode })
  unfolding atomic_write
  atomic_write-Put w path body mode =
      let w1 = (mkdir_all w (dir_of path)).0 in
      let p = codes ".tmp-" ++ (base_of path ++ codes "-*") in
      let w2 = (create_temp w1 (dir_of path) p).0 in
      elim (Option-cases (create_temp w1 (dir_of path) p).1) [
        | inl e ↦ ground (arith, mkdir_disk w (dir_of path), create_disk w1 (dir_of path) p, e)
        | inr (t, e) ↦ ground (
          arith,
          mkdir_disk w (dir_of path),
          create_disk w1 (dir_of path) p,
          e,
          created w1 (dir_of path) p t e,
          drop_disk (fill_temp h w2 t path body mode).0 t,
          fill_temp-Put w2 t path body mode (created w1 (dir_of path) p t e),
        )
      ]
