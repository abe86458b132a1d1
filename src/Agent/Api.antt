-- ===== src/Agent/Api.antt =====
-- agentapi/types.go: the wire contract between the control plane and the agent of a node.
use trust_panel.Prelude.{ℕ, Bool, Option, List, Text}
use trust_panel.Prelude.Int.{ℤ}

-- Service.Want: the two words that the agent accepts, and any other text.
pub data Want : Type 0 where
  want_running want_stopped : Want
  other_want : Text → Want

-- File
pub record File : Type 0 where
  pub path : Text
  pub mode : ℕ
  pub sha256 : Text
  pub body : Text
  pub encoding : Text

pub record Service : Type 0 where
  pub name : Text
  pub want : Want

pub record Check : Type 0 where
  pub kind : Text
  pub path : Text

-- DesiredState. The time of issue is `none` where it is Go's zero time.
pub record DesiredState : Type 0 where
  pub epoch : ℤ
  pub node_id : Text
  pub revision_id : ℤ
  pub revision_hash : Text
  pub issued_at : Option ℕ
  pub files : List File
  pub services : List Service
  pub checks : List Check

pub data Outcome : Type 0 where
  applied no_change stale_leader rejected rolled_back : Outcome

-- ReconcileResult, without the text of its error.
pub record ReconcileResult : Type 0 where
  pub outcome : Outcome
  pub changed : Bool
  pub restarted : List Text
  pub applied_revision : ℤ
  pub last_accepted_epoch : ℤ
