-- ===== src/Model/Settings.antt =====
-- model/model.go: the settings that name a bot or count something, with the defaults that their
-- accessors apply. The accessors that return a duration are not modelled.
use trust_panel.Prelude.{
  ◌≡◌, Bool, true, false, not, ◌&&◌, ◌||◌, Option, none, some, [], if◌then◌else◌, Text, is_empty,
  arith,
}
use trust_panel.Prelude.Int.{ℤ, pos, is_positive}

pub record BotSettings : Type 0 where
  pub enabled : Bool
  pub token : Text

pub record AlertSettings : Type 0 where
  pub enabled : Bool
  pub token : Text
  pub chat_id : Text

-- BackupSettings.Sender: the empty text, one of the two names, or any other text.
pub data Sender : Type 0 where
  sender_unset sender_alert sender_bot : Sender
  other_sender : Text → Sender

-- A pointer to a Bool is an Option.
pub record BackupSettings : Type 0 where
  pub enabled : Bool
  pub chat_id : Text
  pub age_recipient : Text
  pub chunk_bytes : ℤ
  pub sender : Sender
  pub local_enabled : Option Bool
  pub interval_hours : ℤ
  pub keep : ℤ
  pub verify_enabled : Option Bool
  pub verify_interval_days : ℤ

pub record PanelSettings : Type 0 where
  pub reconcile_seconds : ℤ
  pub stats_seconds : ℤ
  pub billing_alert_hours : ℤ
  pub billing_alert_days : ℤ
  pub expiry_alert_days : ℤ
  pub session_hours : ℤ
  pub egress_failover_seconds : ℤ
  pub activity_kb_per_min : ℤ
  pub geo_check_hours : ℤ

-- Settings, without Fleet, which holds defaults for provisioning that nothing here reads.
pub record Settings : Type 0 where
  pub bot : BotSettings
  pub alert : AlertSettings
  pub backup : BackupSettings
  pub panel : PanelSettings

abbrev or_default : ℤ → ℤ → ℤ
or_default n fallback = if is_positive n then n else fallback

-- PanelSettings.BillingDays
unfoldable pub billing_days : PanelSettings → ℤ
billing_days p = or_default p.billing_alert_days (pos 7)

-- PanelSettings.ExpiryDays
unfoldable pub expiry_days : PanelSettings → ℤ
expiry_days p = or_default p.expiry_alert_days (pos 3)

-- PanelSettings.ActivityKBMin
unfoldable pub activity_kb_min : PanelSettings → ℤ
activity_kb_min p = or_default p.activity_kb_per_min (pos 100)

-- BackupSettings.KeepOrDefault
unfoldable pub keep_or_default : BackupSettings → ℤ
keep_or_default b = or_default b.keep (pos 14)

abbrev on_unless_off : Option Bool → Bool
on_unless_off none = true
on_unless_off (some b) = b

-- BackupSettings.LocalOn, BackupSettings.VerifyOn
unfoldable pub local_on : BackupSettings → Bool
local_on b = on_unless_off b.local_enabled

unfoldable pub verify_on : BackupSettings → Bool
verify_on b = on_unless_off b.verify_enabled

-- Settings.BackupSenderToken
unfoldable pub backup_sender_token : Settings → Text
backup_sender_token s = elim s.backup.sender [
  | sender_bot ↦ s.bot.token
  | sender_alert ↦ s.alert.token
  | _ ↦ if not (is_empty s.alert.token) then s.alert.token else s.bot.token
]

abbrev is_bot_sender : Sender → Bool
is_bot_sender w = elim w [ sender_bot ↦ true | _ ↦ false ]

abbrev pub is_unset_sender : Sender → Bool
is_unset_sender w = elim w [ sender_unset ↦ true | _ ↦ false ]

-- Settings.BackupSenderName; `sender_unset` is the empty text.
unfoldable pub backup_sender_name : Settings → Sender
unfolding backup_sender_token
backup_sender_name s =
    if is_empty (backup_sender_token s)
    then sender_unset
    else if is_bot_sender s.backup.sender
        || (is_unset_sender s.backup.sender && is_empty s.alert.token)
    then sender_bot
    else sender_alert

-- The token of the bot of a name.
abbrev pub token_of : Settings → Sender → Text
token_of s sender_bot = s.bot.token
token_of s sender_alert = s.alert.token
token_of s sender_unset = []
token_of s (other_sender _) = []

abbrev pub known_sender : Sender → Bool
known_sender w = elim w [ other_sender _ ↦ false | _ ↦ true ]

-- Where the chosen sender is unset or one of the two names, the bot that the panel names is the bot
-- whose token sends the snapshots, and no bot is named exactly where there is no token to send with.
pub backup_sender_name-names_token :
    (s : Settings)
    → known_sender s.backup.sender ≡ true
    → (token_of s (backup_sender_name s) ≡ backup_sender_token s)
      × (is_unset_sender (backup_sender_name s) ≡ is_empty (backup_sender_token s))
unfolding backup_sender_name backup_sender_token
backup_sender_name-names_token s h = (ground arith, ground arith)
