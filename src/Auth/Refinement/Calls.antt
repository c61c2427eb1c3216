-- ===== src/Auth/Refinement/Calls.antt =====
-- Every call of the service is one change of the tables.
use xauusd_bot.Auth.Types.{Store, Settings, Library}
use xauusd_bot.Auth.Calls.{
  Call, bootstraps, creates_fixture, lists_accounts, invites, activates, disables, lists_sessions,
  revokes_session, revokes_all, logs_in, authenticates, logs_out, step,
}
use xauusd_bot.Auth.Changes.{Change}
use xauusd_bot.Auth.Refinement.{
  bootstrap_owner-Change, create_user_for_admin-Change, list_accounts-Change,
  create_invitation-Change,
}
use xauusd_bot.Auth.Refinement.Activation.{activate_enrollment-Change}
use xauusd_bot.Auth.Refinement.Sessions.{login-Change, authenticate-Change, revoke-Change}
use xauusd_bot.Auth.Refinement.Administration.{
  disable_account-Change, list_account_sessions-Change, revoke_account_session-Change,
  revoke_all_account_sessions-Change,
}

-- Every call of the authentication service, whatever it returns or raises, changes the users,
-- sessions and enrollments in one of the ways that `Change` lists.
pub step-Change :
    (lib : Library) (cfg : Settings) (c : Call) (s : Store) → Change cfg s (step lib cfg c s)
unfolding step
step-Change lib cfg (bootstraps i salt now name password bound) s =
    bootstrap_owner-Change lib cfg s i salt now name password bound
step-Change lib cfg (creates_fixture disposable i salt now name password role state bound) s =
    create_user_for_admin-Change lib cfg s disposable i salt now name password role state bound
step-Change lib cfg (lists_accounts actor identity) s =
    list_accounts-Change lib cfg s actor identity
step-Change lib cfg (invites draw now actor identity name role bound) s =
    create_invitation-Change lib cfg s draw now actor identity name role bound
step-Change lib cfg (activates salt now secret password identity) s =
    activate_enrollment-Change lib cfg s salt now secret password identity
step-Change lib cfg (disables now actor identity target) s =
    disable_account-Change lib cfg s now actor identity target
step-Change lib cfg (lists_sessions actor identity target) s =
    list_account_sessions-Change lib cfg s actor identity target
step-Change lib cfg (revokes_session now actor identity target i) s =
    revoke_account_session-Change lib cfg s now actor identity target i
step-Change lib cfg (revokes_all now actor identity target) s =
    revoke_all_account_sessions-Change lib cfg s now actor identity target
step-Change lib cfg (logs_in i now token name password identity) s =
    login-Change lib cfg s i now token name password identity
step-Change lib cfg (authenticates now token identity) s =
    authenticate-Change lib cfg s now token identity
step-Change lib cfg (logs_out now token identity) s = revoke-Change lib cfg s now token identity
