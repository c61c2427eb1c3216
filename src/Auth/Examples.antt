-- ===== src/Auth/Examples.antt =====
-- The calls of services/authentication.py run on a small database: the OWNER invites an
-- administrator, who activates the account and logs in.
use xauusd_bot.Base.{
  ℕ, zero, suc, ◌≡◌, ◌≢◌, ◌<◌, arith, refl, ap, ◌∙◌, false≢true, Bool, true, false, Option, none,
  some, List, [], ◌∷◌, Text, text_eq,
}
use xauusd_bot.Auth.Types.{owner, admin, is_owner, active, User, Session, Store, Settings, Library}
use xauusd_bot.Auth.Store.{
  ok, err, permission_error, transaction, ◌>>=◌, ◌>>◌, pure, gets, or_raise, raise_if, modify,
  find_user, find_login, has_owner, find_session, find_token, find_secret, has_enrollment,
  user_clash, insert_user, session_clash, insert_session, enrollment_clash, insert_enrollment,
  add_audit, update_where, count_where, select_where,
}
use xauusd_bot.Auth.Accounts.{
  list_accounts, normalize_login, token_digest, hash_password, verify_password, audit, hashed,
  bootstrap_block, is_bad_name, bootstrap_owner, is_unauthorized, owner_in_session, account_state,
  safe_account,
}
use xauusd_bot.Auth.Enrollment.{
  InvitationDraw, invitation_block, is_admin, create_invitation, enrollment_user,
  activation_failure, is_consumable, is_activatable, consume, activate, activate_account,
  activate_checked, activation_decided, activation_block, activate_with, activate_enrollment,
}
use xauusd_bot.Auth.Sessions.{
  revoke, AuthenticatedUser, session_audit, is_admissible, idle_expiry, absolute_expiry,
  new_session, authenticated_user, login_succeeded, login_hash, login_checked, login, revoke_at,
  touch, touched, accept_session, is_expired, authenticate_user, authenticate_session, is_bad_token,
  token_text, authenticate_block, authenticate,
}
use xauusd_bot.Auth.Administration.{
  list_account_sessions, revoke_account_session, is_live_of, is_open_of, withdraw, audit_each,
  set_revoked, disable_target, disable_account, revoke_all_account_sessions,
}
use xauusd_bot.Auth.Calls.{
  Call, bootstraps, invites, activates, logs_in, disables, step, run, empty_store,
}
use xauusd_bot.Auth.Changes.{Change}
use xauusd_bot.Auth.Authority.{IsOwner}
use xauusd_bot.Auth.Refinement.Calls.{step-Change}
use xauusd_bot.Auth.Invariant.{IsValid}
use xauusd_bot.Auth.Safety.{run-IsValid, disabled_never_authenticates}
use xauusd_bot.Auth.Secrets.{secret_single_use}
use xauusd_bot.Auth.Ownership.{OwnerIn, owner_stays, only_owner_administers}
use xauusd_bot.Auth.Logins.{login_authenticates, logged_out_stays_out}
use xauusd_bot.Auth.Lifetimes.{accepted_within_hours}
use xauusd_bot.Auth.Activation.{Activated, activation_ok}

-- Functions with the properties that the code relies on, of which no hypothesis speaks.
abbrev lib : Library
lib = record {
  nfkc = λ t. t;
  strip = λ t. t;
  casefold = λ t. t;
  sha256_hex = λ t. t;
  argon2_hash = λ salt p. p;
  argon2_verify = λ h p. some (text_eq h p);
  dummy_password_hash = [];
}

-- The defaults of config/settings.py.
abbrev cfg : Settings
cfg = record { idle_minutes = 30; absolute_hours = 12; touch_seconds = 60 }

abbrev repeated : ℕ → Text
repeated zero = []
repeated (suc n) = 7 ∷ repeated n

-- The session token that a login draws.
abbrev token : Text
token = 21 ∷ []

abbrev secret : Text
secret = repeated 32

abbrev password : Text
password = repeated 12

abbrev draw : InvitationDraw
draw = record {
  user_id = 2;
  enrollment_id = 5;
  secret = secret;
  unusable_password = repeated 48;
  salt = 3;
}

-- The OWNER, 1, is bootstrapped and invites the administrator, 2.
abbrev invited : List Call
invited =
    bootstraps 1 4 1000 (1 ∷ []) password (11 ∷ [])
    ∷ invites draw 2000 1 (11 ∷ []) (2 ∷ []) (some admin) (12 ∷ [])
    ∷ []

-- The administrator then activates the account.
abbrev joined : List Call
joined =
    bootstraps 1 4 1000 (1 ∷ []) password (11 ∷ [])
    ∷ invites draw 2000 1 (11 ∷ []) (2 ∷ []) (some admin) (12 ∷ [])
    ∷ activates 3 3000 secret password (12 ∷ [])
    ∷ []

-- The OWNER logs in besides.
abbrev owner_in : List Call
owner_in = logs_in 9 6000 token (1 ∷ []) password (11 ∷ []) ∷ []

abbrev entered : List Call
entered =
    bootstraps 1 4 1000 (1 ∷ []) password (11 ∷ [])
    ∷ logs_in 9 6000 token (1 ∷ []) password (11 ∷ [])
    ∷ []

abbrev is_some_owner : Option User → Bool
is_some_owner none = false
is_some_owner (some u) = is_owner u.role

-- The stores that these calls lead to.
abbrev invited_store : Store
invited_store = run lib cfg invited empty_store

abbrev joined_store : Store
joined_store = run lib cfg joined empty_store

abbrev entered_store : Store
entered_store = run lib cfg entered empty_store

-- The OWNER as its session shows it.
abbrev owner_view : AuthenticatedUser
owner_view = record {
  id = 1;
  login = 1 ∷ [];
  role = owner;
  state = active;
  session_id = 9;
  idle_expires_at = 1800006000;
  absolute_expires_at = 43200006000;
}

-- The line opens what the calls below run through.
opened : Bool
unfolding transaction ◌>>=◌ ◌>>◌ pure gets or_raise raise_if modify find_user find_login has_owner
    find_session find_token find_secret has_enrollment user_clash insert_user session_clash
    insert_session enrollment_clash insert_enrollment add_audit update_where count_where
    select_where normalize_login token_digest hash_password verify_password audit hashed
    bootstrap_block is_bad_name bootstrap_owner is_unauthorized owner_in_session account_state
    safe_account invitation_block is_admin create_invitation enrollment_user activation_failure
    is_consumable is_activatable consume activate activate_account activate_checked
    activation_decided activation_block activate_with activate_enrollment session_audit
    is_admissible idle_expiry absolute_expiry new_session authenticated_user login_succeeded
    login_hash login_checked login revoke_at touch touched accept_session is_expired
    authenticate_user authenticate_session is_bad_token token_text authenticate_block authenticate
    is_live_of is_open_of withdraw audit_each set_revoked disable_target disable_account
    revoke_all_account_sessions step run empty_store text_eq
opened = true

joined-OwnerIn : OwnerIn 1 joined_store.users
unfolding opened
joined-OwnerIn = (
  record {
    id = 1;
    normalized_login = 1 ∷ [];
    password_hash = password;
    role = owner;
    state = active;
    bound_tailscale_login = 11 ∷ [];
    created_at = 1000;
    updated_at = 1000;
  },
  refl,
  refl,
  refl,
)

disables_admin : (disable_account lib 5000 1 (11 ∷ []) 2 joined_store).0 ≡ ok tt
unfolding opened
disables_admin = refl

activates_admin :
    (activate_enrollment lib 3 3000 secret password (12 ∷ []) invited_store).0 ≡ ok true
unfolding opened
activates_admin = refl

owner_logs_in :
    (login lib cfg 9 6000 token (1 ∷ []) password (11 ∷ []) joined_store).0
    ≡ ok (some (owner_view, token))
unfolding opened
owner_logs_in = refl

accepts_owner :
    (authenticate lib cfg 7000 (some token) (11 ∷ []) entered_store).0 ≡ ok (some owner_view)
unfolding opened
accepts_owner = refl

accepts_owner_after :
    (authenticate lib cfg 7000
      (some token)
      (11 ∷ [])
      (run lib cfg owner_in (disable_account lib 5000 1 (11 ∷ []) 2 joined_store).1)).0
    ≡ ok (some owner_view)
unfolding opened
accepts_owner_after = refl

revokes_owner : (revoke_all_account_sessions lib 8000 1 (11 ∷ []) 1 entered_store).0 ≡ ok 1
unfolding opened
revokes_owner = refl

admin-IsOwner_not : (u : User) → ¬ IsOwner lib joined_store 2 (12 ∷ []) u
unfolding opened
admin-IsOwner_not u o = false≢true (ap (λ r. is_some_owner r) o.found ∙ o.role)

good_token : is_bad_token (some token) ≡ false
unfolding opened
good_token = refl

run-IsValid_example : IsValid joined_store
run-IsValid_example = run-IsValid lib cfg joined

step-Change_example :
    Change cfg joined_store (step lib cfg (disables 5000 1 (11 ∷ []) 2) joined_store)
step-Change_example = step-Change lib cfg (disables 5000 1 (11 ∷ []) 2) joined_store

disabled_never_authenticates_example : owner_view.id ≢ 2
disabled_never_authenticates_example =
    disabled_never_authenticates lib joined_store 5000 1 (11 ∷ []) 2 cfg owner_in 7000 (some token)
      (11 ∷ []) owner_view disables_admin accepts_owner_after

secret_single_use_example :
    (activate_enrollment lib 4 4000 secret (repeated 13) (12 ∷ []) (
      run lib cfg owner_in
        (activate_enrollment lib 3 3000 secret password (12 ∷ []) invited_store).1)).0
    ≢ ok true
secret_single_use_example =
    secret_single_use lib cfg owner_in invited_store 3 3000 4 4000 secret password (12 ∷ [])
      (repeated 13) (12 ∷ []) activates_admin

activation_ok_example :
    Activated invited_store 3000
      (token_digest lib secret)
      (lib.argon2_hash 3 password)
      (normalize_login lib (12 ∷ []))
      (activate_enrollment lib 3 3000 secret password (12 ∷ []) invited_store).1
activation_ok_example =
    activation_ok lib 3 3000 secret password invited_store (12 ∷ []) activates_admin

owner_stays_example : OwnerIn 1 (run lib cfg (disables 5000 1 (11 ∷ []) 1 ∷ []) joined_store).users
owner_stays_example =
    owner_stays lib cfg (disables 5000 1 (11 ∷ []) 1 ∷ []) joined_store 1 joined-OwnerIn

login_authenticates_example :
    (token ≡ token)
    × ((b : AuthenticatedUser) × ((authenticate lib cfg 7000
            (some token)
            (11 ∷ [])
            (login lib cfg 9 6000 token (1 ∷ []) password (11 ∷ []) joined_store).1).0
          ≡ ok (some b))
        × (b.id ≡ owner_view.id)
        × (b.session_id ≡ owner_view.session_id))
unfolding normalize_login
login_authenticates_example =
    login_authenticates lib cfg joined_store 9 6000 7000 token (1 ∷ []) password (11 ∷ []) token
      owner_view (run-IsValid lib cfg joined) owner_logs_in (omega arith) good_token (omega arith)

logged_out_stays_out_example :
    (authenticate lib cfg 9000
      (some token)
      (11 ∷ [])
      (run lib cfg invited (revoke lib 7000 (some token) (11 ∷ []) entered_store).1)).0
    ≢ ok (some owner_view)
logged_out_stays_out_example =
    logged_out_stays_out lib cfg entered_store 7000 (some token) (11 ∷ []) owner_view owner_view
      invited 9000 (11 ∷ []) accepts_owner

accepted_within_hours_example :
    (x : Session) × (find_token (token_digest lib (token_text (some token))) entered_store.sessions
      ≡ some x)
    × (7000 < absolute_expiry cfg x.created_at)
    × (owner_view.absolute_expires_at ≡ absolute_expiry cfg x.created_at)
accepted_within_hours_example =
    accepted_within_hours lib cfg entered 7000 (some token) (11 ∷ []) owner_view accepts_owner

only_owner_administers_example :
    (list_accounts lib 2 (12 ∷ []) joined_store ≡ (err permission_error, joined_store))
    × (list_account_sessions lib 2 (12 ∷ []) 1 joined_store ≡ (err permission_error, joined_store))
    × (disable_account lib 5000 2 (12 ∷ []) 1 joined_store ≡ (err permission_error, joined_store))
    × (revoke_account_session lib 5000 2 (12 ∷ []) 1 9 joined_store
        ≡ (err permission_error, joined_store))
    × (revoke_all_account_sessions lib 5000 2 (12 ∷ []) 1 joined_store
        ≡ (err permission_error, joined_store))
    × ((create_invitation lib draw 5000 2 (12 ∷ []) (3 ∷ []) (some admin) (13 ∷ []) joined_store).1
        ≡ joined_store)
only_owner_administers_example =
    only_owner_administers lib joined_store 2 (12 ∷ []) admin-IsOwner_not 5000 1 9 draw (3 ∷ [])
      (some admin) (13 ∷ [])
