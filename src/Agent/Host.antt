-- ===== src/Agent/Host.antt =====
-- What the agent finds on its host and does not implement: the file system, the services, the
-- checkers, and the packages path/filepath, crypto/sha256, encoding/base64 and encoding/json.
use trust_panel.Prelude.{
  ℕ, ◌≡◌, ◌≢◌, Bool, true, Option, none, some, [], ◌++◌, if◌then◌else◌, Text, text_eq,
}

pub record DiskFile : Type 0 where
  pub body : Text
  pub mode : ℕ

-- What reading a file gives: its body, or that there is none (os.ErrNotExist), or another error.
pub data Reading : Type 0 where
  found : Text → Reading
  missing unreadable : Reading

pub data Removal : Type 0 where
  removed not_there not_removed : Removal

-- `Disk` is what stands at each path, but for the temporaries that CreateTemp makes.
abbrev pub Disk : Type 0
Disk = Text → Option DiskFile

abbrev pub put_file : Text → Option DiskFile → Disk → Disk
put_file path file disk q = if text_eq q path then file else disk q

-- The body at a path.
abbrev pub body_of : Option DiskFile → Option Text
body_of none = none
body_of (some f) = some f.body

-- Each operation gives the world after it and whether it went well.
pub record Host : Type 1 where
  pub World : Type 0
  pub Temp : Type 0
  pub disk : World → Disk
  pub temp : World → Temp → DiskFile
  pub mkdir_all : World → Text → World × Bool
  pub create_temp : World → Text → Text → World × Option Temp
  pub write_temp : World → Temp → Text → World × Bool
  pub sync_temp : World → Temp → World × Bool
  pub close_temp : World → Temp → World × Bool
  pub chmod_temp : World → Temp → ℕ → World × Bool
  pub rename_temp : World → Temp → Text → World × Bool
  pub remove_temp : World → Temp → World
  pub read_file : World → Text → Reading
  pub remove_file : World → Text → World × Removal
  pub restart : World → Text → World × Bool
  pub stop : World → Text → World × Bool
  pub status : World → Text → World × Option Text
  pub check : World → Text → Text → World × Bool
  pub clean_path : Text → Text
  pub dir_of : Text → Text
  pub base_of : Text → Text
  pub is_abs : Text → Bool
  pub sha256_hex : Text → Text
  pub decode_base64 : Text → Option Text

-- An assumption on the host, which nothing documents: the units and the checkers that the agent runs
-- write no file while it runs them.
pub record LeavesFiles (h : Host) : Type 0 where
  pub restart_disk : (w : h.World) (n : Text) → h.disk (h.restart w n).0 ≡ h.disk w
  pub stop_disk : (w : h.World) (n : Text) → h.disk (h.stop w n).0 ≡ h.disk w
  pub status_disk : (w : h.World) (n : Text) → h.disk (h.status w n).0 ≡ h.disk w
  pub check_disk : (w : h.World) (k p : Text) → h.disk (h.check w k p).0 ≡ h.disk w

-- What the agent relies on: of its own calls on files, only a rename and a removal change what stands
-- at a path, a rename puts the temporary there whole or does nothing, a file reads as what was
-- written, and a sum is not empty.
pub record IsLawful (h : Host) : Type 0 where
  pub bystanders : LeavesFiles h
  pub mkdir_disk : (w : h.World) (d : Text) → h.disk (h.mkdir_all w d).0 ≡ h.disk w
  pub create_disk : (w : h.World) (d p : Text) → h.disk (h.create_temp w d p).0 ≡ h.disk w
  pub write_disk : (w : h.World) (t : h.Temp) (b : Text) → h.disk (h.write_temp w t b).0 ≡ h.disk w
  pub sync_disk : (w : h.World) (t : h.Temp) → h.disk (h.sync_temp w t).0 ≡ h.disk w
  pub close_disk : (w : h.World) (t : h.Temp) → h.disk (h.close_temp w t).0 ≡ h.disk w
  pub chmod_disk : (w : h.World) (t : h.Temp) (m : ℕ) → h.disk (h.chmod_temp w t m).0 ≡ h.disk w
  pub drop_disk : (w : h.World) (t : h.Temp) → h.disk (h.remove_temp w t) ≡ h.disk w
  pub rename_disk :
      (w : h.World) (t : h.Temp) (p : Text)
      → h.disk (h.rename_temp w t p).0
        ≡ (if (h.rename_temp w t p).1 then put_file p (some (h.temp w t)) (h.disk w) else h.disk w)
  pub remove_disk :
      (w : h.World) (p : Text)
      → h.disk (h.remove_file w p).0
        ≡ elim (h.remove_file w p).1 [ removed ↦ put_file p none (h.disk w) | _ ↦ h.disk w ]
  pub absent_disk : (w : h.World) (p : Text) → (h.remove_file w p).1 ≡ not_there → h.disk w p ≡ none
  pub read_found :
      (w : h.World) (p b : Text) → h.read_file w p ≡ found b → body_of (h.disk w p) ≡ some b
  pub read_missing : (w : h.World) (p : Text) → h.read_file w p ≡ missing → h.disk w p ≡ none
  pub written :
      (w : h.World) (t : h.Temp) (b : Text)
      → (h.write_temp w t b).1 ≡ true
      → (h.temp (h.write_temp w t b).0 t).body ≡ (h.temp w t).body ++ b
  pub created :
      (w : h.World) (d p : Text) (t : h.Temp)
      → (h.create_temp w d p).1 ≡ some t
      → (h.temp (h.create_temp w d p).0 t).body ≡ []
  pub sync_body :
      (w : h.World) (t : h.Temp) → (h.temp (h.sync_temp w t).0 t).body ≡ (h.temp w t).body
  pub close_body :
      (w : h.World) (t : h.Temp) → (h.temp (h.close_temp w t).0 t).body ≡ (h.temp w t).body
  pub chmod_file :
      (w : h.World) (t : h.Temp) (m : ℕ)
      → (h.chmod_temp w t m).1 ≡ true
      → h.temp (h.chmod_temp w t m).0 t ≡ record (h.temp w t) { mode = m }
  pub sum_given : (b : Text) → h.sha256_hex b ≢ []
