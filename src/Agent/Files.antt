-- ===== src/Agent/Files.antt =====
-- internal/core/agent/fileio.go: the atomic write, the paths that the agent may touch, and the
-- backup that a failed apply is rolled back to.
pub mod Atomic
use trust_panel.Prelude.{
  ℕ, Bool, true, false, not, ◌&&◌, ◌||◌, Option, none, some, List, [], ◌∷◌, ◌++◌, any,
  if◌then◌else◌, Text, codes, text_eq, is_empty, has_prefix,
}
use trust_panel.Agent.Host.{
  Host, Reading, found, missing, unreadable, Removal, removed, not_there, not_removed,
}

module _ (h : Host) where
  open h use {
    World, Temp, mkdir_all, create_temp, write_temp, sync_temp, close_temp, chmod_temp, rename_temp,
    remove_temp, read_file, remove_file, clean_path, dir_of, base_of, is_abs, sha256_hex,
  }

  -- The part of atomicWrite between CreateTemp and the deferred removal.
  unfoldable pub fill_temp : World → Temp → Text → Text → ℕ → World × Bool
  fill_temp w t path body mode =
      let (w1, wrote) = write_temp w t body in
      if not wrote
      then ((close_temp w1 t).0, false)
      else let (w2, synced) = sync_temp w1 t in
        if not synced
        then ((close_temp w2 t).0, false)
        else let (w3, closed) = close_temp w2 t in
          if not closed
          then (w3, false)
          else let (w4, moded) = chmod_temp w3 t mode in
            if not moded then (w4, false) else rename_temp w4 t path

  -- atomicWrite
  unfoldable pub atomic_write : World → Text → Text → ℕ → World × Bool
  unfolding fill_temp
  atomic_write w path body mode =
      let (w1, made) = mkdir_all w (dir_of path) in
      if not made
      then (w1, false)
      else let (w2, temp) =
          create_temp w1 (dir_of path) (codes ".tmp-" ++ (base_of path ++ codes "-*")) in
        elim temp [
          | none ↦ (w2, false)
          | some t ↦ let (w3, done) = fill_temp w2 t path body mode in (remove_temp w3 t, done)
        ]

  -- fileSHA256: `none` is an error, and a file that is not there has the empty sum.
  unfoldable pub file_sha256 : World → Text → Option Text
  file_sha256 w path = elim (read_file w path) [
    | found b ↦ some (sha256_hex b)
    | missing ↦ some []
    | unreadable ↦ none
  ]

  abbrev pub under_root : Text → Text → Bool
  under_root clean root =
      text_eq clean (clean_path root) || has_prefix clean (clean_path root ++ codes "/")

  -- resolveWithinRoots
  unfoldable pub resolve_within_roots : List Text → Text → Option Text
  resolve_within_roots roots path =
      if is_empty path
      then none
      else if not (is_abs (clean_path path))
      then none
      else if any (under_root (clean_path path)) roots
      then some (clean_path path)
      else none

-- The map of backupSet, oldest entry first: the prior body of a path, or that it was not there.
abbrev pub BackupSet : Type 0
BackupSet = List (Text × Option Text)

abbrev pub has_entry : BackupSet → Text → Bool
has_entry b path = any (λ e. text_eq e.0 path) b

module _ (h : Host) where
  open h use {World, read_file, remove_file}

  -- backupSet.capture; `none` is an error.
  unfoldable pub capture : World → BackupSet → Text → Option BackupSet
  capture w b path = if has_entry b path then some b else elim (read_file w path) [
    | found body ↦ some (b ++ (path, some body) ∷ [])
    | missing ↦ some (b ++ (path, none) ∷ [])
    | unreadable ↦ none
  ]

  abbrev pub is_removed : Removal → Bool
  is_removed removed = true
  is_removed not_there = true
  is_removed not_removed = false

  -- One entry of backupSet.restore.
  unfoldable pub restore_entry : World → Text × Option Text → World × Bool
  unfolding atomic_write
  restore_entry w (path, none) = let (w1, gone) = remove_file w path in (w1, is_removed gone)
  restore_entry w (path, some body) = atomic_write h w path body 0o600

  -- backupSet.restore: every entry is tried, and the first error is kept. The order of the map is not
  -- specified, and no two entries are of one path.
  unfoldable pub restore : World → BackupSet → World × Bool
  unfolding restore_entry
  restore w [] = (w, true)
  restore w (e ∷ es) =
      let (w1, went) = restore_entry w e in let (w2, rest) = restore w1 es in (w2, went && rest)
