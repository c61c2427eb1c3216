-- ===== src/Auth/Activation.antt =====
-- What an activation that succeeds has found and done.
use xauusd_bot.Base.{
  ℕ, ◌≡◌, ◌<◌, refl, subst, sym, Bool, true, false, ◌||◌, Option, none, some, List, Text, text_eq,
  is_some, false≢true, arith,
}
use xauusd_bot.Auth.Types.{is_pending, User, Enrollment, Audit, Reason, Store, Library}
use xauusd_bot.Auth.Store.{Result, ok, err, find_user, find_secret, update_where}
use xauusd_bot.Auth.Accounts.{normalize_login, token_digest, hash_password, audit}
use xauusd_bot.Auth.Enrollment.{
  activation_failure, is_consumable, is_activatable, consume, activate, activate_account,
  activate_checked, activation_refused, activation_decided, activation_block, activate_with,
  activate_enrollment, enrollment_user,
}
use xauusd_bot.Auth.Blocks.{Ensures, Ensures-gets, block_rules, transaction_ok, if_returns}
use xauusd_bot.Auth.Lookups.{find_user-update_where}
use xauusd_bot.Auth.Secrets.{recorded_refuses}

-- The enrollment that was used, in time, and the account that it activated.
pub record Activated (s : Store) (now : ℕ) (digest password_hash identity : Text) (t : Store)
    : Type 0 where
  pub enrollment : Enrollment
  pub user : User
  pub found : find_secret digest s.enrollments ≡ some enrollment
  pub unused : is_some enrollment.consumed_at || is_some enrollment.revoked_at ≡ false
  pub in_time : now < enrollment.expires_at
  pub found_user : find_user enrollment.user_id s.users ≡ some user
  pub was_pending : is_pending user.state ≡ true
  pub bound : text_eq user.bound_tailscale_login identity ≡ true
  pub activated : find_user enrollment.user_id t.users ≡ some (activate now password_hash user)
  pub sessions : t.sessions ≡ s.sessions

module _ (s : Store) (now : ℕ) (digest password_hash identity : Text) where
  abbrev ActivatedIf : Bool → Store → Type 0
  ActivatedIf b t = b ≡ true → Activated s now digest password_hash identity t

  ActivatedIf-false : (t : Store) → ActivatedIf false t
  ActivatedIf-false t e = absurd (false≢true e)

  module _ (e : Enrollment) (u : User) (found : find_secret digest s.enrollments ≡ some e)
      (found_user : find_user e.user_id s.users ≡ some u)
      (fine : activation_failure now identity (some e) (some u) ≡ none) where
    unused_lem : is_some e.consumed_at || is_some e.revoked_at ≡ false
    unfolding activation_failure
    unused_lem = ground (arith, fine)

    in_time_lem : now < e.expires_at
    unfolding activation_failure
    in_time_lem = ground (arith, fine)

    pending_lem : is_pending u.state ≡ true
    unfolding activation_failure
    pending_lem = ground (arith, fine)

    bound_lem : text_eq u.bound_tailscale_login identity ≡ true
    unfolding activation_failure
    bound_lem = ground (arith, fine)

    activated_lem :
        find_user e.user_id
          (update_where (is_activatable u.id identity) (activate now password_hash) s.users)
        ≡ some (activate now password_hash u)
    unfolding is_activatable activate
    activated_lem = ground (
      arith,
      found_user,
      pending_lem,
      bound_lem,
      find_user-update_where (is_activatable u.id identity) (activate now password_hash) (λ v. refl)
          e.user_id s.users,
    )

    activated_store :
        (audits : List Audit)
        → ActivatedIf true (record s {
          users = update_where (is_activatable u.id identity) (activate now password_hash) s.users;
          enrollments = update_where (is_consumable e.id now) (consume now) s.enrollments;
          audits = audits;
        })
    activated_store audits _ = record {
      enrollment = e;
      user = u;
      found = found;
      unused = unused_lem;
      in_time = in_time_lem;
      found_user = found_user;
      was_pending = pending_lem;
      bound = bound_lem;
      activated = activated_lem;
      sessions = refl;
    }

    activate_checked-Activated :
        Ensures ActivatedIf (activate_checked now password_hash identity e u) s
    unfolding activate_checked activate_account audit
    activate_checked-Activated = search (block_rules, ActivatedIf-false, activated_store) depth 20

  refused-Activated :
      (user : Option User) (r : Reason) → Ensures ActivatedIf (activation_refused identity user r) s
  unfolding activation_refused audit
  refused-Activated user r = search (block_rules, ActivatedIf-false) depth 8

  activation_decided-Activated :
      (e : Option Enrollment) (user : Option User) (r : Option Reason)
      → find_secret digest s.enrollments ≡ e
      → enrollment_user e s ≡ user
      → activation_failure now identity e user ≡ r
      → Ensures ActivatedIf (activation_decided now password_hash identity r e user) s
  unfolding activation_decided enrollment_user
  activation_decided-Activated e user (some r) fe fu fr = refused-Activated user r
  activation_decided-Activated (some e) (some u) none fe fu fr =
      activate_checked-Activated e u fe fu fr
  activation_decided-Activated (some e) none none fe fu fr = refused-Activated none _
  activation_decided-Activated none user none fe fu fr = refused-Activated user _

hash_password_ok :
    (lib : Library) (salt : ℕ) (password p : Text)
    → hash_password lib salt password ≡ ok p
    → p ≡ lib.argon2_hash salt password
unfolding hash_password
hash_password_ok lib salt password p h = ground arith

module _ (lib : Library) (salt now : ℕ) (secret password : Text) where
  activate_with-Activated :
      (s : Store) (who : Text) (r : Result Text)
      → hash_password lib salt password ≡ r
      → (activate_with lib now secret who r s).0 ≡ ok true
      → Activated s now
          (token_digest lib secret)
          (lib.argon2_hash salt password)
          who
          (activate_with lib now secret who r s).1
  unfolding activate_with activation_block
  activate_with-Activated s who (ok p) same e =
      let q : p ≡ lib.argon2_hash salt password = hash_password_ok lib salt password p same in
      transaction_ok
        (ActivatedIf s now (token_digest lib secret) (lib.argon2_hash salt password) who) _ s true e
        (Ensures-gets s _ _ (
          Ensures-gets s _ _
            (rw q (activation_decided-Activated s now _ _ who _ _ _ refl refl refl))))
        refl
  activate_with-Activated s who (err x) same e = absurd (recorded_refuses s who _ e)

  -- An activation that succeeds has found an enrollment of the presented secret that was neither
  -- used nor withdrawn and not past its expiry, for a pending account bound to the caller's
  -- identity; that account is then ACTIVE under the new password's hash, and no session is opened.
  pub activation_ok :
      (s : Store) (identity : Text)
      → (activate_enrollment lib salt now secret password identity s).0 ≡ ok true
      → Activated s now
          (token_digest lib secret)
          (lib.argon2_hash salt password)
          (normalize_login lib identity)
          (activate_enrollment lib salt now secret password identity s).1
  unfolding activate_enrollment
  activation_ok s identity e =
      let (_, returned, same) = if_returns _ _ _ _ e (recorded_refuses s _ _) in
      subst
        (λ r.
          Activated s now (token_digest lib secret) (lib.argon2_hash salt password)
            (normalize_login lib identity) r.1)
        (sym same) (activate_with-Activated s _ _ refl returned)
