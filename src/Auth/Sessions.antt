-- ===== src/Auth/Sessions.antt =====
-- services/authentication.py: login, the check of a session cookie, and logout.
use xauusd_bot.Base.{
  ℕ, ◌+◌, ◌*◌, Bool, true, false, not, ◌&&◌, ◌||◌, Option, none, some, Text, text_eq, length, take,
  [], is_empty, ltb, leb, ◌==◌, if◌then◌else◌, is_some, min,
}
use mathlib.Core.Option
use xauusd_bot.Auth.Types.{
  Role, UserState, is_active, User, Session, login_failure, login_success, session_expired,
  session_revoked, logged_out, succeeded, denied, invalid_credentials, absolute_timeout,
  idle_timeout, logout, EventType, Outcome, Reason, Store, Settings, Library, microseconds,
}
use xauusd_bot.Auth.Store.{
  Result, ok, Tx, ◌>>=◌, ◌>>◌, pure, gets, transaction, modify, find_user, find_login, find_token,
  insert_session, add_audit, update_where,
}
use xauusd_bot.Auth.Accounts.{normalize_login, token_digest, verify_password, or_none}

pub record AuthenticatedUser : Type 0 where
  pub id : ℕ
  pub login : Text
  pub role : Role
  pub state : UserState
  pub session_id : ℕ
  pub idle_expires_at : ℕ
  pub absolute_expires_at : ℕ

-- An audit row of this part, which names the session and no actor.
unfoldable pub session_audit :
    EventType
    → Outcome
    → Option ℕ
    → Option Text
    → Option Text
    → Option ℕ
    → Option Reason
    → Tx (Unit {0})
session_audit event outcome user login identity session reason = add_audit (record {
  event_type = event;
  actor_user_id = none;
  user_id = user;
  normalized_login = login;
  tailscale_login = identity;
  session_id = session;
  outcome = outcome;
  reason = reason;
})

-- `user.state == "ACTIVE" and user.role in ACTIVE_ROLES and identity and user.bound… == identity`;
-- every role of the table is in ACTIVE_ROLES.
unfoldable pub is_admissible : Text → User → Bool
is_admissible identity u =
    is_active u.state && (not (is_empty identity) && text_eq u.bound_tailscale_login identity)

unfoldable pub idle_expiry : Settings → (now absolute : ℕ) → ℕ
idle_expiry cfg now absolute = min (now + microseconds (cfg.idle_minutes * 60)) absolute

unfoldable pub absolute_expiry : Settings → ℕ → ℕ
absolute_expiry cfg now = now + microseconds (cfg.absolute_hours * 3600)

unfoldable pub login_failed :
    Option User → (login identity : Text) → Tx (Option (AuthenticatedUser × Text))
login_failed user login identity = do
  session_audit login_failure denied (Option.map (λ u. u.id) user) (or_none login)
      (or_none identity) none (some invalid_credentials)
  pure none

unfoldable pub new_session :
    Library → Settings → (session_id now : ℕ) → (token : Text) → User → Session
new_session lib cfg session_id now token u = record {
  id = session_id;
  user_id = u.id;
  token_hash = token_digest lib token;
  created_at = now;
  last_seen_at = now;
  idle_expires_at = idle_expiry cfg now (absolute_expiry cfg now);
  absolute_expires_at = absolute_expiry cfg now;
  revoked_at = none;
}

-- `AuthenticatedUser` of a user and one of its sessions.
unfoldable pub authenticated_user : User → Session → AuthenticatedUser
authenticated_user u x = record {
  id = u.id;
  login = u.normalized_login;
  role = u.role;
  state = u.state;
  session_id = x.id;
  idle_expires_at = x.idle_expires_at;
  absolute_expires_at = x.absolute_expires_at;
}

unfoldable pub login_succeeded :
    Library
    → Settings
    → (session_id now : ℕ) → (token identity : Text) → User
    → Tx (Option (AuthenticatedUser × Text))
login_succeeded lib cfg session_id now token identity u = do
  insert_session (new_session lib cfg session_id now token u)
  session_audit login_success succeeded (some u.id) (some u.normalized_login) (some identity)
      (some session_id) none
  pure (some (authenticated_user u (new_session lib cfg session_id now token u), token))

-- The hash that the password is checked against: a dummy where there is no such user.
unfoldable pub login_hash : Library → Option User → Text
login_hash lib none = lib.dummy_password_hash
login_hash lib (some u) = u.password_hash

-- What follows the lookup of the user.
unfoldable pub login_checked :
    Library
    → Settings
    → (session_id now : ℕ) → (token login password identity : Text) → Option User
    → Tx (Option (AuthenticatedUser × Text))
login_checked lib cfg session_id now token login password identity none =
    login_failed none login identity
login_checked lib cfg session_id now token login password identity (some u) =
    if verify_password lib (login_hash lib (some u)) password && is_admissible identity u
    then login_succeeded lib cfg session_id now token identity u
    else login_failed (some u) login identity

-- The new session's id and token are drawn at random. `none` is `LoginResult(None, None)`.
unfoldable pub login :
    Library
    → Settings
    → (session_id now : ℕ) → (token name password tailscale_login : Text) → Store
    → Result (Option (AuthenticatedUser × Text)) × Store
login lib cfg session_id now token name password tailscale_login =
    let normalized = take 254 (normalize_login lib name) in
    let identity = take 254 (normalize_login lib tailscale_login) in
    transaction (do
      user ← gets (λ s. find_login normalized s.users)
      login_checked lib cfg session_id now token normalized password identity user)

unfoldable pub revoke_at : ℕ → Session → Session
revoke_at now x = record x { revoked_at = some now }

unfoldable pub touch : Settings → ℕ → Session → Session
touch cfg now x = record x {
  last_seen_at = now;
  idle_expires_at = idle_expiry cfg now x.absolute_expires_at;
}

-- The row as `authenticate` leaves it: touched once the interval has passed.
unfoldable pub touched : Settings → ℕ → Session → Session
touched cfg now x =
    if leb (x.last_seen_at + microseconds cfg.touch_seconds) now then touch cfg now x else x

unfoldable pub expire_session : ℕ → Text → Session → Tx (Option AuthenticatedUser)
expire_session now identity x = do
  modify λ s. record s { sessions = update_where (λ y. y.id == x.id) (revoke_at now) s.sessions }
  session_audit session_expired denied (some x.user_id) none (or_none identity) (some x.id)
      (some (if leb x.absolute_expires_at now then absolute_timeout else idle_timeout))
  pure none

unfoldable pub accept_session : Settings → ℕ → Session → User → Tx (Option AuthenticatedUser)
accept_session cfg now x u = do
  modify λ s. record s { sessions = update_where (λ y. y.id == x.id) (touched cfg now) s.sessions }
  pure (some (authenticated_user u (touched cfg now x)))

unfoldable pub is_expired : ℕ → Session → Bool
is_expired now x = leb x.absolute_expires_at now || leb x.idle_expires_at now

-- The user of a session that is neither revoked nor expired.
unfoldable pub authenticate_user :
    Settings → ℕ → Text → Session → Option User → Tx (Option AuthenticatedUser)
authenticate_user cfg now identity x none = pure none
authenticate_user cfg now identity x (some u) =
    if is_admissible identity u then accept_session cfg now x u else pure none

unfoldable pub authenticate_session :
    Settings → ℕ → Text → Option Session → Tx (Option AuthenticatedUser)
authenticate_session cfg now identity none = pure none
authenticate_session cfg now identity (some x) =
    if is_some x.revoked_at
    then pure none
    else if is_expired now x
    then expire_session now identity x
    else do
      user ← gets (λ s. find_user x.user_id s.users)
      authenticate_user cfg now identity x user

-- `not token or len(token) > 256`
unfoldable pub is_bad_token : Option Text → Bool
is_bad_token none = true
is_bad_token (some t) = is_empty t || ltb 256 (length t)

-- The text of a token that `is_bad_token` lets through.
unfoldable pub token_text : Option Text → Text
token_text none = []
token_text (some t) = t

unfoldable pub authenticate_block :
    Library → Settings → ℕ → Option Text → Text → Tx (Option AuthenticatedUser)
authenticate_block lib cfg now token identity = do
  found ← gets (λ t. find_token (token_digest lib (token_text token)) t.sessions)
  authenticate_session cfg now identity found

unfoldable pub authenticate :
    Library → Settings → ℕ → Option Text → Text → Store → Result (Option AuthenticatedUser) × Store
authenticate lib cfg now token tailscale_login s =
    if is_bad_token token
    then (ok none, s)
    else transaction (authenticate_block lib cfg now token (normalize_login lib tailscale_login)) s

unfoldable pub logout_session : ℕ → Text → Session → Tx (Unit {0})
logout_session now identity x = do
  modify λ s. record s { sessions = update_where (λ y. y.id == x.id) (revoke_at now) s.sessions }
  session_audit session_revoked succeeded (some x.user_id) none (or_none identity) (some x.id)
      (some logout)
  session_audit logged_out succeeded (some x.user_id) none (or_none identity) (some x.id) none

-- `user is None or user.bound_tailscale_login != identity`
unfoldable pub is_bound : Text → Option User → Bool
is_bound identity none = false
is_bound identity (some u) = text_eq u.bound_tailscale_login identity

unfoldable pub revoke_found : ℕ → Text → Option Session → Tx (Unit {0})
revoke_found now identity none = pure tt
revoke_found now identity (some x) = if is_some x.revoked_at then pure tt else do
  user ← gets (λ s. find_user x.user_id s.users)
  if is_bound identity user then logout_session now identity x else pure tt

unfoldable pub revoke_block : Library → ℕ → Option Text → Text → Tx (Unit {0})
revoke_block lib now token identity = do
  found ← gets (λ t. find_token (token_digest lib (token_text token)) t.sessions)
  revoke_found now identity found

-- `revoke`, the logout of one session
unfoldable pub revoke : Library → ℕ → Option Text → Text → Store → Result (Unit {0}) × Store
revoke lib now token tailscale_login s =
    if is_bad_token token
    then (ok tt, s)
    else transaction (revoke_block lib now token (normalize_login lib tailscale_login)) s
