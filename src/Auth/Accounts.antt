-- ===== src/Auth/Accounts.antt =====
-- services/authentication.py: accounts. Ids, secrets and salts that the code draws at random, and
-- the clock, are arguments.
use xauusd_bot.Base.{
  ℕ, Bool, true, false, not, ◌&&◌, ◌||◌, Option, none, some, List, map, Text, text_eq, length,
  is_empty, ltb, leb, ◌==◌, if◌then◌else◌, is_some,
}
use xauusd_bot.Auth.Types.{
  Role, owner, admin, UserState, pending_approval, provisioned, active, locked, revoked,
  AccountState, pending, active_account, disabled, is_owner, is_active, User, EventType,
  owner_bootstrap, Outcome, succeeded, Reason, local_interactive_bootstrap, Store, Library,
}
use xauusd_bot.Auth.Store.{
  Error, value_error, integrity_error, permission_error, runtime_error, Result, ok, err, Tx, ◌>>=◌,
  ◌>>◌, pure, gets, or_raise, transaction, raise_if, find_user, has_owner, insert_user, add_audit,
  order_by,
}

unfoldable pub normalize_login : Library → Text → Text
normalize_login lib value = lib.casefold (lib.strip (lib.nfkc value))

unfoldable pub token_digest : Library → Text → Text
token_digest lib token = lib.sha256_hex token

unfoldable pub hash_password : Library → ℕ → Text → Result Text
hash_password lib salt password =
    if ltb (length password) 12 || ltb 1024 (length password)
    then err value_error
    else ok (lib.argon2_hash salt password)

unfoldable pub verify_password : Library → Text → Text → Bool
verify_password lib password_hash password = elim (lib.argon2_verify password_hash password) [
  | none ↦ false
  | some b ↦ b
]

-- `_audit`: the target defaults to the actor.
unfoldable pub audit :
    EventType
    → Outcome
    → Option ℕ
    → Option ℕ
    → Option Text
    → Option Text
    → Option Reason
    → Tx (Unit {0})
audit event outcome actor target login identity reason = add_audit (record {
  event_type = event;
  actor_user_id = actor;
  user_id = if is_some target then target else actor;
  normalized_login = login;
  tailscale_login = identity;
  session_id = none;
  outcome = outcome;
  reason = reason;
})

-- `identity or None`
abbrev pub or_none : Text → Option Text
or_none t = if is_empty t then none else some t

-- `except IntegrityError` of `bootstrap_owner` and of `create_invitation`.
abbrev pub on_integrity : {A : Type 0} → Error → Result A × Store → Result A × Store
on_integrity e (ok a, s) = (ok a, s)
on_integrity e (err integrity_error, s) = (err e, s)
on_integrity e (err other, s) = (err other, s)

-- A method that validates its arguments (`bad` is a ValueError), hashes a password and goes on.
unfoldable pub hashed :
    {A : Type 0}
    → (bad : Bool) → Result Text
    → (Text → Store → Result A × Store)
    → Store
    → Result A × Store
hashed true r run s = (err value_error, s)
hashed false (err e) run s = (err e, s)
hashed false (ok password_hash) run s = run password_hash s

unfoldable pub bootstrap_block : (owner_id now : ℕ) → (login password_hash identity : Text) → Tx ℕ
bootstrap_block owner_id now login password_hash identity = do
  raise_if (← gets (λ s. has_owner s.users)) runtime_error
  insert_user (record {
    id = owner_id;
    normalized_login = login;
    password_hash = password_hash;
    role = owner;
    state = active;
    bound_tailscale_login = identity;
    created_at = now;
    updated_at = now;
  })
  audit owner_bootstrap succeeded (some owner_id) (some owner_id) (some login) (some identity)
      (some local_interactive_bootstrap)
  pure owner_id

-- `not login or len(login) > 254`
unfoldable pub is_bad_name : Text → Bool
is_bad_name t = is_empty t || ltb 254 (length t)

unfoldable pub bootstrap_owner :
    Library → (owner_id salt now : ℕ) → (login password bound : Text) → Store → Result ℕ × Store
bootstrap_owner lib owner_id salt now login password bound s =
    let normalized = normalize_login lib login in
    let identity = normalize_login lib bound in
    hashed (is_bad_name normalized || is_bad_name identity) (hash_password lib salt password)
      (λ password_hash t.
        on_integrity runtime_error
          (transaction (bootstrap_block owner_id now normalized password_hash identity) t))
      s

-- `role != "ADMIN" or state not in ACCOUNT_STATES`, where `none` is a text that is no such name.
unfoldable pub is_fixture : Option Role → Option UserState → Bool
is_fixture (some admin) (some state) = true
is_fixture _ _ = false

-- The state of a fixture that `is_fixture` lets through.
unfoldable pub fixture_state : Option UserState → UserState
fixture_state none = provisioned
fixture_state (some state) = state

unfoldable pub fixture_block :
    (user_id now : ℕ) → (login password_hash identity : Text) → UserState → Tx ℕ
fixture_block user_id now login password_hash identity state = do
  insert_user (record {
    id = user_id;
    normalized_login = login;
    password_hash = password_hash;
    role = admin;
    state = state;
    bound_tailscale_login = identity;
    created_at = now;
    updated_at = now;
  })
  pure user_id

-- The fixture helper of the tests; `disposable` is `is_disposable_test_database`.
unfoldable pub create_user_for_admin :
    Library
    → (disposable : Bool) → (user_id salt now : ℕ) → (login password : Text) → Option Role
    → Option UserState
    → (bound : Text) → Store
    → Result ℕ × Store
create_user_for_admin lib disposable user_id salt now login password role state bound s =
    let normalized = normalize_login lib login in
    let identity = normalize_login lib bound in
    if not disposable
    then (err permission_error, s)
    else hashed
        (is_empty normalized
          || ltb 254 (length normalized)
          || is_empty identity
          || not (is_fixture role state))
        (hash_password lib salt password)
        (λ password_hash.
          transaction
            (fixture_block user_id now normalized password_hash identity (fixture_state state)))
        s

unfoldable pub owner_exists : Store → Bool
owner_exists s = has_owner s.users

-- `actor.role != OWNER or actor.state != "ACTIVE" or not identity or actor.bound… != identity`
unfoldable pub is_unauthorized : Text → User → Bool
is_unauthorized identity actor =
    not (is_owner actor.role)
    || not (is_active actor.state)
    || is_empty identity
    || not (text_eq actor.bound_tailscale_login identity)

-- `_owner_in_session`
unfoldable pub owner_in_session : Library → ℕ → Text → Tx User
owner_in_session lib actor_id tailscale_login = do
  actor ← or_raise (← gets (λ s. find_user actor_id s.users)) permission_error
  raise_if (is_unauthorized (normalize_login lib tailscale_login) actor) permission_error
  pure actor

-- `_safe_account`
unfoldable pub account_state : UserState → AccountState
account_state pending_approval = pending
account_state provisioned = pending
account_state active = active_account
account_state revoked = disabled
account_state locked = disabled

pub record SafeAccount : Type 0 where
  pub id : ℕ
  pub login : Text
  pub role : Role
  pub state : AccountState
  pub bound_tailscale_identity : Text
  pub created_at : ℕ
  pub updated_at : ℕ

unfoldable pub safe_account : User → SafeAccount
safe_account u = record {
  id = u.id;
  login = u.normalized_login;
  role = u.role;
  state = account_state u.state;
  bound_tailscale_identity = u.bound_tailscale_login;
  created_at = u.created_at;
  updated_at = u.updated_at;
}

unfoldable pub created_before : User → User → Bool
created_before u v =
    ltb u.created_at v.created_at || (u.created_at == v.created_at && leb u.id v.id)

unfoldable pub list_accounts : Library → ℕ → Text → Store → Result (List SafeAccount) × Store
list_accounts lib actor_id tailscale_login = transaction (do
  owner_in_session lib actor_id tailscale_login
  gets (λ s. map safe_account (order_by created_before s.users)))
