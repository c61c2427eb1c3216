-- ===== src/Auth/Types.antt =====
-- The rows of persistence/orm.py that services/authentication.py reads and writes, and the code
-- that it calls but does not contain. Ids are opaque, so they are numbers; times are microseconds.
use xauusd_bot.Base.{ℕ, ◌*◌, Bool, true, false, Option, List, Text}

-- `AuthRole`; the table admits no other value.
pub data Role : Type 0 where
  owner admin : Role

-- `ACCOUNT_STATES`
pub data UserState : Type 0 where
  provisioned pending_approval active locked revoked : UserState

-- `AccountState`, the state that a client is shown.
pub data AccountState : Type 0 where
  pending active_account disabled : AccountState

abbrev pub is_owner : Role → Bool
is_owner owner = true
is_owner admin = false

abbrev pub is_active : UserState → Bool
is_active active = true
is_active _ = false

abbrev pub is_pending : UserState → Bool
is_pending pending_approval = true
is_pending _ = false

abbrev pub is_revoked : UserState → Bool
is_revoked revoked = true
is_revoked _ = false

pub record User : Type 0 where
  pub id : ℕ
  pub normalized_login : Text
  pub password_hash : Text
  pub role : Role
  pub state : UserState
  pub bound_tailscale_login : Text
  pub created_at : ℕ
  pub updated_at : ℕ

pub record Session : Type 0 where
  pub id : ℕ
  pub user_id : ℕ
  pub token_hash : Text
  pub created_at : ℕ
  pub last_seen_at : ℕ
  pub idle_expires_at : ℕ
  pub absolute_expires_at : ℕ
  pub revoked_at : Option ℕ

pub record Enrollment : Type 0 where
  pub id : ℕ
  pub user_id : ℕ
  pub token_hash : Text
  pub created_by_user_id : ℕ
  pub created_at : ℕ
  pub expires_at : ℕ
  pub consumed_at : Option ℕ
  pub revoked_at : Option ℕ

pub data EventType : Type 0 where
  owner_bootstrap account_created enrollment_issued enrollment_failure : EventType
  enrollment_consumed account_activated session_revoked account_disabled : EventType
  sessions_revoked_all login_failure login_success session_expired logged_out : EventType

pub data Outcome : Type 0 where
  succeeded denied : Outcome

pub data Reason : Type 0 where
  local_interactive_bootstrap role_admin_pending ttl_15_minutes : Reason
  invalid_enrollment invalid_password enrollment_already_used enrollment_expired : Reason
  account_not_pending identity_mismatch enrollment_replay account_activated : Reason
  owner_issued_enrollment account_disabled owner_action owner_selected_session : Reason
  invalid_credentials absolute_timeout idle_timeout logout : Reason
  count : ℕ → Reason

pub record Audit : Type 0 where
  pub event_type : EventType
  pub actor_user_id : Option ℕ
  pub user_id : Option ℕ
  pub normalized_login : Option Text
  pub tailscale_login : Option Text
  pub session_id : Option ℕ
  pub outcome : Outcome
  pub reason : Option Reason

-- The four tables, newest row first.
pub record Store : Type 0 where
  pub users : List User
  pub sessions : List Session
  pub enrollments : List Enrollment
  pub audits : List Audit

-- `auth_session_*` of config/settings.py.
pub record Settings : Type 0 where
  pub idle_minutes : ℕ
  pub absolute_hours : ℕ
  pub touch_seconds : ℕ

-- What the module takes from elsewhere: Unicode normalisation, SHA-256 in hexadecimal and Argon2.
-- `argon2_hash` takes the salt; `argon2_verify` is `none` where the library raises.
pub record Library : Type 0 where
  pub nfkc : Text → Text
  pub strip : Text → Text
  pub casefold : Text → Text
  pub sha256_hex : Text → Text
  pub argon2_hash : ℕ → Text → Text
  pub argon2_verify : Text → Text → Option Bool
  pub dummy_password_hash : Text

abbrev pub microseconds : ℕ → ℕ
microseconds seconds = seconds * 1000000

-- `ENROLLMENT_TTL`
abbrev pub enrollment_ttl : ℕ
enrollment_ttl = microseconds 900
