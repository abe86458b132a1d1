-- ===== src/Agent/Store.antt =====
-- internal/core/agent/store.go: what the agent remembers across restarts.
use trust_panel.Prelude.{Bool, true, false, not, Option, none, some, [], if◌then◌else◌, Text}
use trust_panel.Prelude.Int.{ℤ, pos, int_lt}
use trust_panel.Agent.Api.{DesiredState}
use trust_panel.Agent.Host.{Host, found, missing, unreadable}
use trust_panel.Agent.Files.{atomic_write}

pub record LocalState : Type 0 where
  pub last_accepted_epoch : ℤ
  pub applied_revision : ℤ
  pub applied_hash : Text
  pub cached : Option DesiredState

-- The zero value of localState.
abbrev pub empty_state : LocalState
empty_state = record {
  last_accepted_epoch = pos 0;
  applied_revision = pos 0;
  applied_hash = [];
  cached = none;
}

-- json.MarshalIndent and json.Unmarshal of a localState, `none` for an error.
pub record Codec : Type 0 where
  pub encode : LocalState → Option Text
  pub decode : Text → Option LocalState

-- The state with the epoch raised to that of a request, if it is lower.
abbrev pub raise_epoch : ℤ → LocalState → LocalState
raise_epoch epoch st =
    if int_lt st.last_accepted_epoch epoch then record st { last_accepted_epoch = epoch } else st

-- The state after a desired state is recorded as applied.
abbrev pub record_applied : DesiredState → LocalState → LocalState
record_applied ds st = record (raise_epoch ds.epoch st) {
  applied_revision = ds.revision_id;
  applied_hash = ds.revision_hash;
  cached = some ds;
}

module _ (h : Host) (codec : Codec) (path : Text) where
  open h use {World, mkdir_all, read_file, dir_of}

  -- OpenStore
  unfoldable pub open_store : World → Option LocalState
  open_store w = elim (read_file w path) [
    | found body ↦ codec.decode body
    | missing ↦ some empty_state
    | unreadable ↦ none
  ]

  -- saveLocked
  unfoldable pub save_locked : World → LocalState → World × Bool
  save_locked w st =
      let (w1, made) = mkdir_all w (dir_of path) in
      if not made then (w1, false) else elim (codec.encode st) [
        | none ↦ (w1, false)
        | some text ↦ atomic_write h w1 path text 0o600
      ]

  -- bumpEpoch: the state in memory changes before it is saved.
  unfoldable pub bump_epoch : World → LocalState → ℤ → World × LocalState × Bool
  unfolding save_locked
  bump_epoch w st epoch =
      if int_lt st.last_accepted_epoch epoch
      then (let st1 : LocalState = record st { last_accepted_epoch = epoch } in
          let (w1, saved) = save_locked w st1 in (w1, st1, saved))
      else (w, st, true)

  -- commitApplied: likewise.
  unfoldable pub commit_applied : World → LocalState → DesiredState → World × LocalState × Bool
  unfolding save_locked
  commit_applied w st ds =
      let st1 = record_applied ds st in let (w1, saved) = save_locked w st1 in (w1, st1, saved)
