-- ===== src/Model/Account.antt =====
-- model/admin.go: an operator's account, its role and its namespace.
use trust_panel.Prelude.{ℕ, Bool, true, false, ◌&&◌, Option, Text, is_empty}
use trust_panel.Prelude.Int.{ℤ}

-- Role. `unset_role` is the empty text, which counts as admin.
pub data Role : Type 0 where
  unset_role admin operator : Role
  unknown_role : Text → Role

pub record AdminAccount : Type 0 where
  pub username : Text
  pub password_hash : Text
  pub role : Role
  pub namespace_id : Text
  pub telegram_id : Option ℤ
  pub alert_chat_id : Text
  pub locale : Text
  pub created_at : ℕ
  pub updated_at : ℕ

-- Role.Valid
abbrev pub role_valid : Role → Bool
role_valid admin = true
role_valid operator = true
role_valid unset_role = false
role_valid (unknown_role _) = false

-- Role.IsAdmin
abbrev pub is_admin : Role → Bool
is_admin admin = true
is_admin unset_role = true
is_admin operator = false
is_admin (unknown_role _) = false

-- AdminAccount.CanManageInfra
abbrev pub account_can_manage_infra : AdminAccount → Bool
account_can_manage_infra a = is_admin a.role

-- AdminAccount.IsBootstrapOwner
abbrev pub is_bootstrap_owner : AdminAccount → Bool
is_bootstrap_owner a = is_admin a.role && is_empty a.namespace_id

-- AdminAccount.Namespace
abbrev pub namespace : AdminAccount → Text
namespace a = a.namespace_id
