-- ===== src/Auth/Calls.antt =====
-- The calls of `AuthenticationService`, each with what it draws and reads, and their sequences.
use xauusd_bot.Base.{ℕ, Bool, Option, List, [], ◌∷◌, Text}
use xauusd_bot.Auth.Types.{Role, UserState, Store, Library, Settings}
use xauusd_bot.Auth.Accounts.{bootstrap_owner, create_user_for_admin, list_accounts}
use xauusd_bot.Auth.Enrollment.{InvitationDraw, create_invitation, activate_enrollment}
use xauusd_bot.Auth.Sessions.{login, authenticate, revoke}
use xauusd_bot.Auth.Administration.{
  disable_account, list_account_sessions, revoke_account_session, revoke_all_account_sessions,
}

pub data Call : Type 0 where
  bootstraps : (owner_id salt now : ℕ) → (name password bound : Text) → Call
  creates_fixture :
      (disposable : Bool)
      → (user_id salt now : ℕ) → (name password : Text) → Option Role
      → Option UserState
      → (bound : Text) → Call
  lists_accounts : (actor_id : ℕ) → (identity : Text) → Call
  invites :
      InvitationDraw
      → (now actor_id : ℕ) → (identity name : Text) → Option Role
      → (bound : Text) → Call
  activates : (salt now : ℕ) → (secret password identity : Text) → Call
  disables : (now actor_id : ℕ) → (identity : Text) → (target_id : ℕ) → Call
  lists_sessions : (actor_id : ℕ) → (identity : Text) → (target_id : ℕ) → Call
  revokes_session : (now actor_id : ℕ) → (identity : Text) → (target_id session_id : ℕ) → Call
  revokes_all : (now actor_id : ℕ) → (identity : Text) → (target_id : ℕ) → Call
  logs_in : (session_id now : ℕ) → (token name password identity : Text) → Call
  authenticates : (now : ℕ) → (token : Option Text) → (identity : Text) → Call
  logs_out : (now : ℕ) → (token : Option Text) → (identity : Text) → Call

-- The store after a call, whatever it returned or raised.
unfoldable pub step : Library → Settings → Call → Store → Store
step lib cfg (bootstraps i salt now name password bound) s =
    (bootstrap_owner lib i salt now name password bound s).1
step lib cfg (creates_fixture disposable i salt now name password role state bound) s =
    (create_user_for_admin lib disposable i salt now name password role state bound s).1
step lib cfg (lists_accounts actor identity) s = (list_accounts lib actor identity s).1
step lib cfg (invites draw now actor identity name role bound) s =
    (create_invitation lib draw now actor identity name role bound s).1
step lib cfg (activates salt now secret password identity) s =
    (activate_enrollment lib salt now secret password identity s).1
step lib cfg (disables now actor identity target) s =
    (disable_account lib now actor identity target s).1
step lib cfg (lists_sessions actor identity target) s =
    (list_account_sessions lib actor identity target s).1
step lib cfg (revokes_session now actor identity target i) s =
    (revoke_account_session lib now actor identity target i s).1
step lib cfg (revokes_all now actor identity target) s =
    (revoke_all_account_sessions lib now actor identity target s).1
step lib cfg (logs_in i now token name password identity) s =
    (login lib cfg i now token name password identity s).1
step lib cfg (authenticates now token identity) s = (authenticate lib cfg now token identity s).1
step lib cfg (logs_out now token identity) s = (revoke lib now token identity s).1

unfoldable pub run : Library → Settings → List Call → Store → Store
run lib cfg [] s = s
run lib cfg (c ∷ cs) s = run lib cfg cs (step lib cfg c s)

unfoldable pub empty_store : Store
empty_store = record { users = []; sessions = []; enrollments = []; audits = [] }
