-- ===== src/Agent/Sums.antt =====
-- agent/reconcile.go: the sums of the files before and after they are written.
use trust_panel.Prelude.{
  ◌≡◌, refl, sym, ◌∙◌, ap, subst, true, false, none, some, List, [], ◌∷◌, All, Bool-cases,
  Option-cases, ◌⊎◌, inl, inr, Text, text_eq, text_eq_iff, text_eq_refl, arith,
}
use mathlib.Core.List.{Memᴰ}
use trust_panel.Prelude.Result.{ok}
use trust_panel.Agent.Api.{File}
use trust_panel.Agent.Host.{Host, IsLawful, Disk, body_of}
use trust_panel.Agent.Files.{atomic_write, resolve_within_roots, file_sha256}
use trust_panel.Agent.Payload.{
  Config, ResolvedFile, file_body, file_ok, changed_file, changed_files,
}
use trust_panel.Agent.Reconcile.{write_files}
use trust_panel.Agent.Effects.{writes, atomic_write-here}
use trust_panel.Agent.Backup.{Reading-cases, body-put_file}

module _ (h : Host) (law : IsLawful h) (c : Config) where
  open h use {World, disk, read_file, sha256_hex}
  open law use {read_found, sum_given}

  -- The file at a path has this sum.
  pub record HasSum (w : World) (abs sum : Text) : Type 0 where
    pub body : Text
    pub stands : body_of (disk w abs) ≡ some body
    pub sums : sha256_hex body ≡ sum

  -- The payload's own content of a file, and where it goes.
  pub record Stated (f : File) : Type 0 where
    pub abs : Text
    pub resolved : resolve_within_roots h c.roots f.path ≡ some abs
    pub body : Text
    pub decoded : file_body h c f ≡ some body
    pub sums : sha256_hex body ≡ f.sha256

  pub file_ok-Stated : (f : File) → file_ok h c f ≡ ok tt → Stated f
  unfolding file_ok
  file_ok-Stated f e = elim (Option-cases (resolve_within_roots h c.roots f.path)) [
    | inl r ↦ ground (arith, e, r)
    | inr (abs, r) ↦ elim (Option-cases (file_body h c f)) [
      | inl b ↦ ground (arith, e, r, b)
      | inr (body, b) ↦
          let same : text_eq (sha256_hex body) f.sha256 ≡ true = ground (arith, e, r, b) in
          record {
            abs = abs;
            resolved = r;
            body = body;
            decoded = b;
            sums = (text_eq_iff (sha256_hex body) f.sha256).0 same;
          }
    ]
  ]

  -- A file that is written is the one stated.
  pub changed_file-Stated :
      (w : World) (f : File) (s : Stated f) (rf : ResolvedFile)
      → changed_file h c w f ≡ some (some rf)
      → (rf.abs ≡ s.abs) × (rf.body ≡ s.body)
  unfolding changed_file
  changed_file-Stated w f s rf e = elim (Option-cases (file_sha256 h w s.abs)) [
    | inl n ↦ ground (arith, e, s.resolved, n)
    | inr (cur, n) ↦ ground (arith, e, s.resolved, n, s.decoded)
  ]

  -- A file that is not written has its sum already.
  pub changed_file-HasSum :
      (w : World) (f : File) (s : Stated f)
      → changed_file h c w f ≡ some none
      → HasSum w s.abs f.sha256
  unfolding changed_file file_sha256
  changed_file-HasSum w f s e = elim (Reading-cases (read_file w s.abs)) [
    | inl (b, r) ↦
        let same : text_eq (sha256_hex b) f.sha256 ≡ true =
          ground (arith, e, s.resolved, r, s.decoded) in
        record {
          body = b;
          stands = read_found w s.abs b r;
          sums = (text_eq_iff (sha256_hex b) f.sha256).0 same;
        }
    | inr (inl r) ↦
        let none_yet : text_eq [] f.sha256 ≡ true = ground (arith, e, s.resolved, r, s.decoded) in
        absurd (sum_given s.body (s.sums ∙ sym ((text_eq_iff [] f.sha256).0 none_yet)))
    | inr (inr r) ↦ ground (arith, e, s.resolved, r)
  ]

  no_rest :
      (w : World) (f : File) (files : List File) (fs : List ResolvedFile)
      → changed_files h c w files ≡ none
      → ¬ (changed_files h c w (f ∷ files) ≡ some fs)
  unfolding changed_files
  no_rest w f files fs m e = elim (Option-cases (changed_file h c w f)) [
    | inl n ↦ ground (arith, e, n)
    | inr (k, n) ↦ ground (arith, e, n, m)
  ]

  pub changed_files-All :
      (w : World) (P : ResolvedFile → Type 0) (files : List File) (fs : List ResolvedFile)
      → ((g : File)
          → Memᴰ g files
          → (rf : ResolvedFile) → changed_file h c w g ≡ some (some rf)
          → P rf)
      → changed_files h c w files ≡ some fs
      → All P fs
  unfolding changed_files
  changed_files-All w P [] fs each e = let eq : [] ≡ fs = ground (arith, e) in subst (All P) eq tt
  changed_files-All w P (f ∷ files) fs each e =
      let later = λ (g : File) (m : Memᴰ g files) (rf : ResolvedFile). each g (Memᴰ.tail m) rf in
      elim (Option-cases (changed_files h c w files)) [
        | inl m ↦ absurd (no_rest w f files fs m e)
        | inr (out, m) ↦
            let rest = changed_files-All w P files out later m in
            elim (Option-cases (changed_file h c w f)) [
              | inl n ↦ ground (arith, e, n)
              | inr (none, n) ↦ let eq : out ≡ fs = ground (arith, e, n, m) in subst (All P) eq rest
              | inr (some rf, n) ↦
                  let eq : rf ∷ out ≡ fs = ground (arith, e, n, m) in
                  subst (All P) eq (each f (Memᴰ.head refl) rf n, rest)
            ]
      ]

  -- A file of the payload has its sum already, or is written.
  pub changed_files-covers :
      (w : World) (files : List File) (fs : List ResolvedFile) (f : File)
      → changed_files h c w files ≡ some fs
      → Memᴰ f files
      → (changed_file h c w f ≡ some none)
        ⊎ ((rf : ResolvedFile) × (changed_file h c w f ≡ some (some rf))
            × (writes fs rf.abs ≡ true))
  unfolding changed_files
  changed_files-covers w [] fs f e m = elim m [ ]
  changed_files-covers w (g ∷ files) fs f e (Memᴰ.head q) =
      elim (Option-cases (changed_files h c w files)) [
        | inl n ↦ absurd (no_rest w g files fs n e)
        | inr (out, n) ↦ elim (Option-cases (changed_file h c w g)) [
          | inl k ↦ ground (arith, e, k)
          | inr (none, k) ↦ inl (rw q k)
          | inr (some rf, k) ↦
              let eq : rf ∷ out ≡ fs = ground (arith, e, n, k) in
              inr (rf, rw q k, rw (← eq) (ground (arith, text_eq_refl rf.abs)))
        ]
      ]
  changed_files-covers w (g ∷ files) fs f e (Memᴰ.tail m) =
      elim (Option-cases (changed_files h c w files)) [
        | inl n ↦ absurd (no_rest w g files fs n e)
        | inr (out, n) ↦ elim (changed_files-covers w files out f n m) [
          | inl y ↦ inl y
          | inr (rf, y, z) ↦ elim (Option-cases (changed_file h c w g)) [
            | inl k ↦ ground (arith, e, k)
            | inr (none, k) ↦
                let eq : out ≡ fs = ground (arith, e, n, k) in inr (rf, y, rw (← eq) z)
            | inr (some r, k) ↦
                let eq : r ∷ out ≡ fs = ground (arith, e, n, k) in
                inr (rf, y, rw (← eq) (ground (arith, z)))
          ]
        ]
      ]

  -- Once all is written, a path has a sum that it had, or that a file for it has, where every file for
  -- it has that sum.
  pub write_files-HasSum :
      (w : World) (fs : List ResolvedFile) (abs sum : Text)
      → (write_files h w fs).1 ≡ true
      → All (λ rf. (text_eq abs rf.abs ≡ false) ⊎ (sha256_hex rf.body ≡ sum)) fs
      → (writes fs abs ≡ true) ⊎ HasSum w abs sum
      → HasSum (write_files h w fs).0 abs sum
  unfolding write_files
  write_files-HasSum w [] abs sum e a (inl t) = cc
  write_files-HasSum w [] abs sum e a (inr t) = t
  write_files-HasSum w (f ∷ fs) abs sum e (a, rest) t =
      let w1 = (atomic_write h w f.abs f.body f.mode).0 in
      let e1 : (atomic_write h w f.abs f.body f.mode).1 ≡ true = ground (arith, e) in
      let e2 : (write_files h w1 fs).1 ≡ true = ground (arith, e) in
      let d =
        ap (λ (d : Disk). body_of (d abs)) (atomic_write-here h law w f.abs f.body f.mode e1)
        ∙ body-put_file (disk w) f.abs abs (some (record { body = f.body; mode = f.mode })) in
      let next = write_files-HasSum w1 fs abs sum e2 rest in
      rw e1 (elim (Bool-cases (text_eq abs f.abs)) [
        | inl g ↦ next (
            inr (record {
              body = f.body;
              stands = ground (arith, d, g);
              sums = elim a [ inl k ↦ cc | inr k ↦ k ];
            }))
        | inr g ↦ next (elim t [
          | inl m ↦ inl (ground (arith, m, g))
          | inr m ↦
              inr (record { body = m.body; stands = ground (arith, d, g, m.stands); sums = m.sums })
        ])
      ])
