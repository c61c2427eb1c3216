-- ===== src/Auth/Enrollment.antt =====
-- services/authentication.py: invitations and their single use.
use xauusd_bot.Base.{
  ℕ, ◌+◌, Bool, true, false, not, ◌&&◌, ◌||◌, Option, none, some, Text, text_eq, length, is_empty,
  ltb, leb, ◌==◌, if◌then◌else◌, is_some,
}
use xauusd_bot.Auth.Types.{
  Role, owner, admin, pending_approval, active, is_pending, User, Enrollment, account_created,
  enrollment_issued, enrollment_failure, enrollment_consumed, EventType, succeeded, denied, Reason,
  role_admin_pending, ttl_15_minutes, invalid_enrollment, invalid_password, enrollment_already_used,
  enrollment_expired, account_not_pending, identity_mismatch, enrollment_replay,
  owner_issued_enrollment, Store, Library, enrollment_ttl,
}
use mathlib.Core.Option
use xauusd_bot.Auth.Store.{
  value_error, runtime_error, Result, ok, err, Tx, ◌>>=◌, ◌>>◌, pure, gets, transaction, raise_if,
  modify, find_user, find_secret, insert_user, insert_enrollment, update_where, count_where,
}
use xauusd_bot.Auth.Accounts.{
  normalize_login, token_digest, hash_password, audit, or_none, on_integrity, is_bad_name, hashed,
  owner_in_session, SafeAccount, safe_account,
}

pub record EnrollmentIssue : Type 0 where
  pub account : SafeAccount
  pub secret : Text
  pub expires_at : ℕ

-- What `create_invitation` draws: the new ids, the secret, and the password that nobody has.
pub record InvitationDraw : Type 0 where
  pub user_id : ℕ
  pub enrollment_id : ℕ
  pub secret : Text
  pub unusable_password : Text
  pub salt : ℕ

unfoldable pub invitation_block :
    Library
    → InvitationDraw
    → (now actor_id : ℕ) → (tailscale_login login password_hash bound : Text) → Tx EnrollmentIssue
invitation_block lib draw now actor_id tailscale_login login password_hash bound = do
  actor ← owner_in_session lib actor_id tailscale_login
  let user : User = record {
    id = draw.user_id;
    normalized_login = login;
    password_hash = password_hash;
    role = admin;
    state = pending_approval;
    bound_tailscale_login = bound;
    created_at = now;
    updated_at = now;
  }
  insert_user user
  insert_enrollment (record {
    id = draw.enrollment_id;
    user_id = draw.user_id;
    token_hash = token_digest lib draw.secret;
    created_by_user_id = actor.id;
    created_at = now;
    expires_at = now + enrollment_ttl;
    consumed_at = none;
    revoked_at = none;
  })
  audit account_created succeeded (some actor.id) (some draw.user_id) (some login) (some bound)
      (some role_admin_pending)
  audit enrollment_issued succeeded (some actor.id) (some draw.user_id) (some login) (some bound)
      (some ttl_15_minutes)
  pure (record {
    account = safe_account user;
    secret = draw.secret;
    expires_at = now + enrollment_ttl;
  })

unfoldable pub is_admin : Option Role → Bool
is_admin none = false
is_admin (some owner) = false
is_admin (some admin) = true

-- The requested role is `none` where the text is neither OWNER nor ADMIN.
unfoldable pub create_invitation :
    Library
    → InvitationDraw
    → (now actor_id : ℕ) → (tailscale_login login : Text) → Option Role
    → (bound : Text) → Store
    → Result EnrollmentIssue × Store
create_invitation lib draw now actor_id tailscale_login login role bound s =
    let normalized = normalize_login lib login in
    let bound_identity = normalize_login lib bound in
    hashed (is_bad_name normalized || is_bad_name bound_identity || not (is_admin role))
      (hash_password lib draw.salt draw.unusable_password)
      (λ password_hash t. on_integrity value_error (
        transaction
          (invitation_block lib draw now actor_id tailscale_login normalized password_hash
            bound_identity)
          t))
      s

-- The row that `activate_enrollment` loads for an enrollment.
unfoldable pub enrollment_user : Option Enrollment → Store → Option User
enrollment_user none s = none
enrollment_user (some e) s = find_user e.user_id s.users

-- The ladder that names why an enrollment is refused.
unfoldable pub activation_failure : ℕ → Text → Option Enrollment → Option User → Option Reason
activation_failure now identity none user = some invalid_enrollment
activation_failure now identity (some e) user =
    if is_some e.consumed_at || is_some e.revoked_at
    then some enrollment_already_used
    else if leb e.expires_at now
    then some enrollment_expired
    else elim user [
      | none ↦ some account_not_pending
      | some u ↦
          if not (is_pending u.state)
          then some account_not_pending
          else if not (text_eq u.bound_tailscale_login identity)
          then some identity_mismatch
          else none
    ]

-- The `where` clause of the update that consumes an enrollment.
unfoldable pub is_consumable : ℕ → ℕ → Enrollment → Bool
is_consumable i now e =
    e.id == i
    && (not (is_some e.consumed_at) && (not (is_some e.revoked_at) && ltb now e.expires_at))

-- The `where` clause of the update that activates the account.
unfoldable pub is_activatable : ℕ → Text → User → Bool
is_activatable i identity u =
    u.id == i && (is_pending u.state && text_eq u.bound_tailscale_login identity)

unfoldable pub consume : ℕ → Enrollment → Enrollment
consume now e = record e { consumed_at = some now }

unfoldable pub activate : ℕ → Text → User → User
activate now password_hash u = record u {
  state = active;
  password_hash = password_hash;
  updated_at = now;
}

-- The consumption of the secret came first: the account is activated in the same block.
unfoldable pub activate_account : ℕ → Text → Text → User → Tx Bool
activate_account now password_hash identity user = do
  activated ← gets (λ s. count_where (is_activatable user.id identity) s.users)
  modify λ s. record s {
    users = update_where (is_activatable user.id identity) (activate now password_hash) s.users;
  }
  raise_if (not (activated == 1)) runtime_error
  audit enrollment_consumed succeeded (some user.id) (some user.id) (some user.normalized_login)
      (some identity) (some Reason.account_activated)
  audit EventType.account_activated succeeded (some user.id) (some user.id)
      (some user.normalized_login) (some identity) (some owner_issued_enrollment)
  pure true

-- What follows once no reason to refuse was found.
unfoldable pub activate_checked : ℕ → Text → Text → Enrollment → User → Tx Bool
activate_checked now password_hash identity e user = do
  consumed ← gets (λ s. count_where (is_consumable e.id now) s.enrollments)
  modify λ s. record s {
    enrollments = update_where (is_consumable e.id now) (consume now) s.enrollments;
  }
  if consumed == 1 then activate_account now password_hash identity user else do
    audit enrollment_failure denied none (some user.id) (some user.normalized_login) (some identity)
        (some enrollment_replay)
    pure false

unfoldable pub activation_refused : Text → Option User → Reason → Tx Bool
activation_refused identity user failure = do
  audit enrollment_failure denied none (Option.map (λ u. u.id) user)
      (Option.map (λ u. u.normalized_login) user) (or_none identity) (some failure)
  pure false

unfoldable pub activation_decided :
    ℕ → Text → Text → Option Reason → Option Enrollment → Option User → Tx Bool
activation_decided now password_hash identity (some failure) enrollment user =
    activation_refused identity user failure
activation_decided now password_hash identity none (some e) (some u) =
    activate_checked now password_hash identity e u
activation_decided now password_hash identity none _ user =
    activation_refused identity user invalid_enrollment

unfoldable pub activation_block : Library → ℕ → Text → Text → Text → Tx Bool
activation_block lib now secret password_hash identity = do
  enrollment ← gets (λ s. find_secret (token_digest lib secret) s.enrollments)
  user ← gets (λ s. enrollment_user enrollment s)
  activation_decided now password_hash identity (activation_failure now identity enrollment user)
      enrollment user

-- `_record_enrollment_failure`
unfoldable pub record_enrollment_failure : Text → Reason → Store → Result Bool × Store
record_enrollment_failure identity reason =
    transaction (do
      audit enrollment_failure denied none none none (or_none identity) (some reason)
      pure false)

-- What follows the hash of the new password.
unfoldable pub activate_with :
    Library → ℕ → (secret identity : Text) → Result Text → Store → Result Bool × Store
activate_with lib now secret identity (err e) s =
    record_enrollment_failure identity invalid_password s
activate_with lib now secret identity (ok password_hash) s =
    transaction (activation_block lib now secret password_hash identity) s

unfoldable pub activate_enrollment :
    Library
    → (salt now : ℕ) → (secret password tailscale_login : Text) → Store
    → Result Bool × Store
activate_enrollment lib salt now secret password tailscale_login s =
    let identity = normalize_login lib tailscale_login in
    if is_empty identity || ltb (length secret) 32 || ltb 256 (length secret)
    then record_enrollment_failure identity invalid_enrollment s
    else activate_with lib now secret identity (hash_password lib salt password) s
