-- ===== src/Auth/Refinement.antt =====
-- Every method changes the tables in one of the ways of `Change`: the blocks, and the methods that
-- create accounts.
pub mod Activation
pub mod Sessions
pub mod Administration
pub mod Calls
use xauusd_bot.Base.{ℕ, refl, Bool, true, false, Option, Text, if◌then◌else◌}
use xauusd_bot.Auth.Types.{Role, UserState, Store, Settings, Library}
use xauusd_bot.Auth.Store.{Result, ok, err, Tx, transaction, runtime_error, value_error}
use xauusd_bot.Auth.Accounts.{
  audit, bootstrap_block, bootstrap_owner, hashed, fixture_block, create_user_for_admin,
  list_accounts,
}
use xauusd_bot.Auth.Enrollment.{InvitationDraw, invitation_block, create_invitation}
use xauusd_bot.Auth.Changes.{Change, keep, add_user, invite, issued}
use xauusd_bot.Auth.Blocks.{Ensures, Ensures-read, block_rules, commit_lem, on_integrity_lem}
use xauusd_bot.Auth.Authority.{Ensures-owner_in_session, Ensures-owner_in_session_then}

module _ (cfg : Settings) where
  pub same : (s : Store) → Change cfg s s
  same s = keep refl refl refl

  -- The change that a committed block makes.
  pub transaction-Change :
      {A : Type 0} (m : Tx A) (s : Store)
      → Ensures (λ _ t. Change cfg s t) m s
      → Change cfg s (transaction m s).1
  transaction-Change m s h = commit_lem (Change cfg s) m s (same s) h

  pub if-Change :
      {A : Type 0} {s : Store} (b : Bool) (x y : Result A × Store)
      → Change cfg s x.1
      → Change cfg s y.1
      → Change cfg s (if◌then◌else◌ {A = Result A × Store} b x y).1
  if-Change true x y h k = h
  if-Change false x y h k = k

  hashed-Change :
      {A : Type 0} (bad : Bool) (r : Result Text) (run : Text → Store → Result A × Store)
      (s : Store)
      → ((h : Text) → Change cfg s (run h s).1)
      → Change cfg s (hashed bad r run s).1
  unfolding hashed
  hashed-Change true r run s h = same s
  hashed-Change false (ok p) run s h = h p
  hashed-Change false (err x) run s h = same s

module _ (lib : Library) (cfg : Settings) (s : Store) where
  bootstrap_block-Change :
      (i now : ℕ) (login password_hash identity : Text)
      → Ensures (λ _ t. Change cfg s t) (bootstrap_block i now login password_hash identity) s
  unfolding bootstrap_block audit
  bootstrap_block-Change i now login password_hash identity =
      search (block_rules, add_user) depth 12

  pub bootstrap_owner-Change :
      (i salt now : ℕ) (login password bound : Text)
      → Change cfg s (bootstrap_owner lib i salt now login password bound s).1
  unfolding bootstrap_owner
  bootstrap_owner-Change i salt now login password bound = hashed-Change cfg _ _ _ s λ h.
      rw (on_integrity_lem runtime_error _)
        (transaction-Change cfg _ s (bootstrap_block-Change i now _ h _))

  fixture_block-Change :
      (i now : ℕ) (login password_hash identity : Text) (state : UserState)
      → Ensures (λ _ t. Change cfg s t) (fixture_block i now login password_hash identity state) s
  unfolding fixture_block
  fixture_block-Change i now login password_hash identity state =
      search (block_rules, add_user) depth 12

  pub create_user_for_admin-Change :
      (disposable : Bool) (i salt now : ℕ) (login password : Text) (role : Option Role)
      (state : Option UserState) (bound : Text)
      → Change cfg s
          (create_user_for_admin lib disposable i salt now login password role state bound s).1
  unfolding create_user_for_admin
  create_user_for_admin-Change false i salt now login password role state bound = same cfg s
  create_user_for_admin-Change true i salt now login password role state bound =
      hashed-Change cfg _ _ _ s λ h. transaction-Change cfg _ s (fixture_block-Change i now _ h _ _)

  pub list_accounts-Change :
      (actor : ℕ) (identity : Text) → Change cfg s (list_accounts lib actor identity s).1
  unfolding list_accounts
  list_accounts-Change actor identity =
      transaction-Change cfg _ s
        (Ensures-owner_in_session_then s lib actor identity _ λ u _. Ensures-read s _ (same cfg s))

  invitation_block-Change :
      (draw : InvitationDraw) (now actor : ℕ) (identity login password_hash bound : Text)
      → Ensures
          (λ _ t. Change cfg s t)
          (invitation_block lib draw now actor identity login password_hash bound)
          s
  unfolding invitation_block audit
  invitation_block-Change draw now actor identity login password_hash bound =
      Ensures-owner_in_session s lib actor identity _
        λ u _. search (block_rules, invite, issued) depth 14

  pub create_invitation-Change :
      (draw : InvitationDraw) (now actor : ℕ) (identity login : Text) (role : Option Role)
      (bound : Text)
      → Change cfg s (create_invitation lib draw now actor identity login role bound s).1
  unfolding create_invitation
  create_invitation-Change draw now actor identity login role bound = hashed-Change cfg _ _ _ s λ h.
      rw (on_integrity_lem value_error _)
        (transaction-Change cfg _ s (invitation_block-Change draw now actor identity _ h _))
