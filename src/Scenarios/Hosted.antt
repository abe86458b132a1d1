-- ===== src/Scenarios/Hosted.antt =====
-- A host with one temporary file and no faults but those of the checker.
use trust_panel.Prelude.{
  ◌≡◌, refl, inl, inr, true, Option, none, some, [], ◌∷◌, ◌++◌, Option-cases, Text, codes, text_eq,
  has_prefix, arith,
}
use trust_panel.Agent.Host.{
  Host, IsLawful, Disk, DiskFile, put_file, body_of, Reading, found, missing, Removal, removed,
  not_there, not_removed,
}

abbrev pub Desk : Type 0
Desk = Disk × DiskFile

abbrev pub blank_file : DiskFile
blank_file = record { body = []; mode = 0o600 }

abbrev pub tidy : Desk → Text → Desk × Removal
tidy w p = elim (w.0 p) [ none ↦ (w, not_there) | some _ ↦ ((put_file p none w.0, w.1), removed) ]

abbrev pub read_back : Option DiskFile → Reading
read_back none = missing
read_back (some f) = found f.body

abbrev pub host : Host
host = record {
  World = Desk;
  Temp = Unit {0};
  disk = λ w. w.0;
  temp = λ w _. w.1;
  mkdir_all = λ w _. (w, true);
  create_temp = λ w _ _. ((w.0, blank_file), some tt);
  write_temp = λ w _ b. ((w.0, record w.1 { body = w.1.body ++ b }), true);
  sync_temp = λ w _. (w, true);
  close_temp = λ w _. (w, true);
  chmod_temp = λ w _ m. ((w.0, record w.1 { mode = m }), true);
  rename_temp = λ w _ p. ((put_file p (some w.1) w.0, w.1), true);
  remove_temp = λ w _. w;
  read_file = λ w p. read_back (w.0 p);
  remove_file = tidy;
  restart = λ w _. (w, true);
  stop = λ w _. (w, true);
  status = λ w _. (w, some (codes "inactive"));
  check = λ w k _. (w, text_eq k (codes "singbox-check"));
  clean_path = λ p. p;
  dir_of = λ _. codes "/etc";
  base_of = λ p. p;
  is_abs = λ p. has_prefix p (codes "/");
  sha256_hex = λ b. b's' ∷ b;
  decode_base64 = λ b. some b;
}

read_back_found : (o : Option DiskFile) (b : Text) → read_back o ≡ found b → body_of o ≡ some b
read_back_found none b e = cc
read_back_found (some f) b e = cc

read_back_missing : (o : Option DiskFile) → read_back o ≡ missing → o ≡ none
read_back_missing none e = refl
read_back_missing (some f) e = cc

tidy-disk :
    (w : Desk) (p : Text)
    → (tidy w p).0.0
      ≡ elim (tidy w p).1 [ removed ↦ put_file p none w.0 | not_there ↦ w.0 | not_removed ↦ w.0 ]
tidy-disk w p = elim (Option-cases (w.0 p)) [
  | inl e ↦ ground (arith, e)
  | inr (f, e) ↦ ground (arith, e)
]

tidy-absent : (w : Desk) (p : Text) → (tidy w p).1 ≡ not_there → w.0 p ≡ none
tidy-absent w p h = elim (Option-cases (w.0 p)) [ inl e ↦ e | inr (f, e) ↦ ground (arith, e, h) ]

pub host-IsLawful : IsLawful host
host-IsLawful = record {
  mkdir_disk = λ w d. refl;
  create_disk = λ w d p. refl;
  write_disk = λ w t b. refl;
  sync_disk = λ w t. refl;
  close_disk = λ w t. refl;
  chmod_disk = λ w t m. refl;
  drop_disk = λ w t. refl;
  rename_disk = λ w t p. refl;
  remove_disk = tidy-disk;
  absent_disk = tidy-absent;
  bystanders = record {
    restart_disk = λ w n. refl;
    stop_disk = λ w n. refl;
    status_disk = λ w n. refl;
    check_disk = λ w k p. refl;
  };
  read_found = λ w p. read_back_found (w.0 p);
  read_missing = λ w p. read_back_missing (w.0 p);
  written = λ w t b e. refl;
  created = λ w d p t e. refl;
  sync_body = λ w t. refl;
  close_body = λ w t. refl;
  chmod_file = λ w t m e. refl;
  sum_given = λ b. λ e. cc;
}
