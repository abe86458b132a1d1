-- ===== src/Model/Node.antt =====
-- model/model.go: nodes, groups, users, domains and the control plane, with the checks that each
-- entity makes on its own fields. An instant is a number of nanoseconds.
use trust_panel.Prelude.{
  ℕ, Bool, true, false, not, ◌&&◌, ◌||◌, Option, none, some, List, ltb, ◌==◌, all, Text, codes,
  text_eq, trim_space, is_empty, contains_any, length,
}
use trust_panel.Prelude.Int.{ℤ, pos, negsuc, is_negative, is_positive, int_lt}
use trust_panel.Prelude.Result.{Result, ok, err, ◌>>◌, fail_if}

abbrev pub Instant : Type 0
Instant = ℕ

-- PublicRole. `other_role` is any text that is neither of the two.
pub data PublicRole : Type 0 where
  entry_role exit_role : PublicRole
  other_role : Text → PublicRole

abbrev pub public_role_valid : PublicRole → Bool
public_role_valid entry_role = true
public_role_valid exit_role = true
public_role_valid (other_role _) = false

-- PGRole. `pg_unset` is the empty text.
pub data PgRole : Type 0 where
  pg_unset pg_none pg_primary pg_replica : PgRole
  pg_other : Text → PgRole

abbrev pub pg_role_valid : PgRole → Bool
pg_role_valid pg_none = true
pg_role_valid pg_primary = true
pg_role_valid pg_replica = true
pg_role_valid pg_unset = false
pg_role_valid (pg_other _) = false

pub data NodeHealth : Type 0 where
  healthy degraded unknown_health : NodeHealth
  other_health : Text → NodeHealth

pub record DialIn : Type 0 where
  pub proto : Text
  pub port : ℤ
  pub uuid : Text
  pub target_sni : Text
  pub public_key : Text
  pub priv_key : Text
  pub short_id : Text

abbrev pub vless_reality : Text
vless_reality = codes "vless-reality"

pub record NodeBilling : Type 0 where
  pub paid_until : Option Instant
  pub term_months : ℤ

-- `cpu_cores` is the floor of the source's float64, of which only the sign is read.
pub record NodeLimits : Type 0 where
  pub cpu_cores : ℤ
  pub memory_mb : ℤ
  pub disk_gb : ℤ
  pub traffic_gb : ℤ

pub record Node : Type 0 where
  pub id : Text
  pub name : Text
  pub public_role : PublicRole
  pub mgmt_capable : Bool
  pub public_ips : List Text
  pub agent_addr : Text
  pub health : NodeHealth
  pub last_seen_at : Option Instant
  pub pg_role : PgRole
  pub dial_in : Option DialIn
  pub limits : Option NodeLimits
  pub billing : Option NodeBilling
  pub maintenance : Bool
  pub managed_services : List Text
  pub owner_id : Text
  pub created_at : Instant
  pub updated_at : Instant

abbrev pub exit_direct : Text
exit_direct = codes "direct"

pub record Group : Type 0 where
  pub id : Text
  pub name : Text
  pub default_exit_id : Text
  pub owner_id : Text
  pub created_at : Instant
  pub updated_at : Instant

pub record User : Type 0 where
  pub id : Text
  pub username : Text
  pub secret : Text
  pub display_name : Text
  pub enabled : Bool
  pub group_id : Text
  pub owner_id : Text
  pub expires_at : Option Instant
  pub expiry_alerted_for : Option Instant
  pub data_limit : ℤ
  pub used_traffic : ℤ
  pub reset_period : Text
  pub used_reset_at : Option Instant
  pub created_at : Instant
  pub updated_at : Instant

pub record ControlPlane : Type 0 where
  pub active_node_id : Text
  pub epoch : ℕ
  pub standby_node_ids : List Text
  pub updated_at : Instant

pub data DomainPurpose : Type 0 where
  endpoint decoy : DomainPurpose
  other_purpose : Text → DomainPurpose

pub record Domain : Type 0 where
  pub id : Text
  pub hostname : Text
  pub purpose : DomainPurpose
  pub node_id : Text
  pub tls_status : Text
  pub tls_issuer : Text
  pub created_at : Instant
  pub updated_at : Instant

-- What the checks refuse; each constructor is one message of the source.
pub data ModelError : Type 0 where
  node_id_required : ModelError
  invalid_public_role invalid_pg_role dial_in_required dial_in_must_be_empty : Text → ModelError
  bad_dial_in_proto bad_dial_in_port uuid_required target_sni_required : Text → ModelError
  negative_limits bad_billing_term : ModelError
  group_id_required : ModelError
  group_name_required : Text → ModelError
  user_id_required : ModelError
  user_id_slash user_group_required : Text → ModelError
  username_required username_spaces username_too_long username_control : ModelError
  policy_id_required : ModelError
  invalid_tier invalid_action match_required leading_exclusion : Text → ModelError
  unknown_condition_kind no_condition_values unknown_join : Text → ModelError
  invalid_cidr exit_node_required invalid_fallback fallback_exit_required : Text → ModelError
  fallback_is_the_exit fallback_without_exit invalid_others_action : Text → ModelError
  others_need_group others_exit_required nothing_reserved : Text → ModelError
  duplicate_node duplicate_group duplicate_username : Text → ModelError
  default_exit_not_exit user_group_missing policy_group_missing : Text → ModelError
  policy_exit_not_exit policy_fallback_not_exit : Text → ModelError

abbrev pub blank : Text → Bool
blank t = is_empty (trim_space t)

abbrev valid_term : ℤ → Bool
valid_term (pos n) = n == 0 || n == 1 || n == 3 || n == 6 || n == 12
valid_term (negsuc _) = false

-- NodeBilling.Validate
unfoldable pub billing_validate : NodeBilling → Result ModelError (Unit {0})
billing_validate b = fail_if (not (valid_term b.term_months)) bad_billing_term

-- NodeLimits.Validate
unfoldable pub limits_validate : NodeLimits → Result ModelError (Unit {0})
limits_validate l =
    fail_if
      (is_negative l.cpu_cores
        || is_negative l.memory_mb
        || is_negative l.disk_gb
        || is_negative l.traffic_gb)
      negative_limits

abbrev pub is_entry : Node → Bool
is_entry n = elim n.public_role [ entry_role ↦ true | _ ↦ false ]

abbrev pub is_exit : Node → Bool
is_exit n = elim n.public_role [ exit_role ↦ true | _ ↦ false ]

-- DialIn.validate
unfoldable pub dial_in_validate : DialIn → Text → Result ModelError (Unit {0})
dial_in_validate d node_id = do
  fail_if (not (text_eq d.proto vless_reality)) (bad_dial_in_proto node_id)
  fail_if (not (is_positive d.port) || int_lt (pos 65535) d.port) (bad_dial_in_port node_id)
  fail_if (blank d.uuid) (uuid_required node_id)
  fail_if (blank d.target_sni) (target_sni_required node_id)

abbrev role_dial_in : PublicRole → Option DialIn → Text → Result ModelError (Unit {0})
role_dial_in exit_role none id = err (dial_in_required id)
role_dial_in exit_role (some d) id = dial_in_validate d id
role_dial_in entry_role (some d) id = err (dial_in_must_be_empty id)
role_dial_in entry_role none id = ok tt
role_dial_in (other_role _) _ id = ok tt

abbrev pg_unset_or_valid : PgRole → Bool
pg_unset_or_valid pg_unset = true
pg_unset_or_valid r = pg_role_valid r

abbrev optional {ℓ} :
    {A : Type ℓ} → (A → Result ModelError (Unit {0})) → Option A → Result ModelError (Unit {0})
optional f none = ok tt
optional f (some a) = f a

-- Node.Validate
unfoldable pub node_validate : Node → Result ModelError (Unit {0})
unfolding billing_validate limits_validate dial_in_validate
node_validate n = do
  fail_if (blank n.id) node_id_required
  fail_if (not (public_role_valid n.public_role)) (invalid_public_role n.id)
  fail_if (not (pg_unset_or_valid n.pg_role)) (invalid_pg_role n.id)
  role_dial_in n.public_role n.dial_in n.id
  optional limits_validate n.limits
  optional billing_validate n.billing

-- Group.Validate
unfoldable pub group_validate : Group → Result ModelError (Unit {0})
group_validate g = do
  fail_if (blank g.id) group_id_required
  fail_if (blank g.name) (group_name_required g.id)

abbrev pub max_username_len : ℕ
max_username_len = 64

abbrev is_control : ℕ → Bool
is_control r = ltb r 0x20 || r == 0x7f

-- ValidateUsername. A byte of a multi-byte rune is at least 0x80, so the loop over runes and one
-- over bytes refuse the same texts.
unfoldable pub validate_username : Text → Result ModelError (Unit {0})
validate_username username = do
  fail_if (blank username) username_required
  fail_if (not (text_eq username (trim_space username))) username_spaces
  fail_if (ltb max_username_len (length username)) username_too_long
  fail_if (not (all (λ r. not (is_control r)) username)) username_control

-- User.Validate
unfoldable pub user_validate : User → Result ModelError (Unit {0})
unfolding validate_username
user_validate u = do
  fail_if (blank u.id) user_id_required
  fail_if (contains_any u.id (codes "/\\")) (user_id_slash u.id)
  validate_username u.username
  fail_if (blank u.group_id) (user_group_required u.id)

-- User.Expired
unfoldable pub expired : User → Instant → Bool
expired u at = elim u.expires_at [ none ↦ false | some t ↦ not (ltb at t) ]

-- User.Active
unfoldable pub active : User → Instant → Bool
unfolding expired
active u at = u.enabled && not (expired u at)
