-- ===== src/Agent/Payload.antt =====
-- agent/reconcile.go: what of a desired state is refused, and which of its files differ on disk.
use trust_panel.Prelude.{
  ℕ, ◌+◌, ◌==◌, Bool, true, false, not, ◌&&◌, Option, none, some, List, [], ◌∷◌, any, if◌then◌else◌,
  ltb, Text, codes, text_eq,
}
use trust_panel.Prelude.Int.{ℤ, pos, negsuc}
use trust_panel.Prelude.Result.{Result, err, ◌>>◌, fail_if, for_each}
use trust_panel.Agent.Api.{
  File, Service, Want, want_running, want_stopped, other_want, DesiredState,
}
use trust_panel.Agent.Host.{Host}
use trust_panel.Agent.Files.{resolve_within_roots, file_sha256}

-- The Config of a Reconciler, but for its clock.
pub record Config : Type 0 where
  pub node_id : Text
  pub roots : List Text
  pub service_allowlist : List Text
  pub max_clock_skew : ℤ

-- Why a desired state is refused.
pub data Refusal : Type 0 where
  wrong_node too_old bad_path bad_body sha_mismatch service_not_allowed bad_want : Refusal

abbrev pub want_known : Want → Bool
want_known want_running = true
want_known want_stopped = true
want_known (other_want _) = false

-- `now.Sub(issued) > skew`, where the bound is on and the payload is dated.
abbrev pub is_too_old : ℕ → ℤ → Option ℕ → Bool
is_too_old now skew none = false
is_too_old now (pos skew) (some issued) = ltb 0 skew && ltb (issued + skew) now
is_too_old now (negsuc skew) (some issued) = false

abbrev pub service_ok : Config → Service → Result Refusal (Unit {0})
service_ok c s =
    fail_if (not (any (text_eq s.name) c.service_allowlist)) service_not_allowed
    >> fail_if (not (want_known s.want)) bad_want

pub record ResolvedFile : Type 0 where
  pub abs : Text
  pub mode : ℕ
  pub body : Text

abbrev pub file_mode : ℕ → ℕ
file_mode mode = if mode == 0 then 0o600 else mode

module _ (h : Host) (c : Config) where
  open h use {World, sha256_hex, decode_base64}

  -- fileBody; `none` is an error.
  abbrev pub file_body : File → Option Text
  file_body f = if text_eq f.encoding (codes "base64") then decode_base64 f.body else some f.body

  -- One turn of the loop of `validate` over the files.
  unfoldable pub file_ok : File → Result Refusal (Unit {0})
  unfolding resolve_within_roots
  file_ok f = elim (resolve_within_roots h c.roots f.path) [
    | none ↦ err bad_path
    | some abs ↦ elim (file_body f) [
      | none ↦ err bad_body
      | some body ↦ fail_if (not (text_eq (sha256_hex body) f.sha256)) sha_mismatch
    ]
  ]

  -- Reconciler.validate
  unfoldable pub validate : ℕ → DesiredState → Bool → Result Refusal (Unit {0})
  unfolding file_ok for_each
  validate now ds skip_clock_skew =
      fail_if (not (text_eq ds.node_id c.node_id)) wrong_node
      >> fail_if (not skip_clock_skew && is_too_old now c.max_clock_skew ds.issued_at) too_old
      >> for_each file_ok ds.files
      >> for_each (service_ok c) ds.services

  -- One turn of the loop of changedFiles: `none` is an error, `some none` a file that is as it should
  -- be.
  unfoldable pub changed_file : World → File → Option (Option ResolvedFile)
  unfolding resolve_within_roots file_sha256
  changed_file w f = elim (resolve_within_roots h c.roots f.path) [
    | none ↦ none
    | some abs ↦ elim (file_sha256 h w abs) [
      | none ↦ none
      | some cur ↦ if text_eq cur f.sha256 then some none else elim (file_body f) [
        | none ↦ none
        | some body ↦ some (some (record { abs = abs; mode = file_mode f.mode; body = body }))
      ]
    ]
  ]

  abbrev pub keep : Option ResolvedFile → List ResolvedFile → List ResolvedFile
  keep none fs = fs
  keep (some f) fs = f ∷ fs

  -- changedFiles
  unfoldable pub changed_files : World → List File → Option (List ResolvedFile)
  unfolding changed_file
  changed_files w [] = some []
  changed_files w (f ∷ fs) =
      let rest = changed_files w fs in
      elim (changed_file w f) [
        | none ↦ none
        | some kept ↦ elim rest [ none ↦ none | some out ↦ some (keep kept out) ]
      ]
