-- ===== src/Auth/Administration.antt =====
-- services/authentication.py: what the OWNER does to an account and its sessions.
use xauusd_bot.Base.{
  ℕ, Bool, true, false, not, ◌&&◌, some, List, [], ◌∷◌, map, Text, leb, ◌==◌, if◌then◌else◌,
  is_some,
}
use xauusd_bot.Auth.Types.{
  revoked, is_owner, is_revoked, User, Session, Enrollment, session_revoked, EventType,
  sessions_revoked_all, succeeded, Reason, owner_action, owner_selected_session, count, Store,
  Library,
}
use xauusd_bot.Auth.Store.{
  lookup_error, value_error, Result, Tx, ◌>>=◌, ◌>>◌, pure, gets, or_raise, transaction, raise_if,
  modify, find_user, find_session, update_where, count_where, select_where, order_by,
}
use xauusd_bot.Auth.Accounts.{audit, owner_in_session}
use xauusd_bot.Auth.Sessions.{revoke_at}

-- `user_id == target.id and revoked_at IS NULL`
unfoldable pub is_live_of : ℕ → Session → Bool
is_live_of i x = x.user_id == i && not (is_some x.revoked_at)

-- `user_id == target.id and consumed_at IS NULL and revoked_at IS NULL`
unfoldable pub is_open_of : ℕ → Enrollment → Bool
is_open_of i e = e.user_id == i && (not (is_some e.consumed_at) && not (is_some e.revoked_at))

unfoldable pub withdraw : ℕ → Enrollment → Enrollment
withdraw now e = record e { revoked_at = some now }

-- One audit row for each session that the loop of `disable_account` revokes.
unfoldable pub audit_each : User → User → List Session → Tx (Unit {0})
audit_each actor target [] = pure tt
audit_each actor target (x ∷ xs) = do
  audit session_revoked succeeded (some actor.id) (some target.id) (some target.normalized_login)
      (some target.bound_tailscale_login) (some Reason.account_disabled)
  audit_each actor target xs

unfoldable pub set_revoked : ℕ → User → User
set_revoked now u = record u { state = revoked; updated_at = now }

unfoldable pub disable_target : ℕ → User → User → Tx (Unit {0})
disable_target now actor target = do
  modify λ s. record s { users = update_where (λ u. u.id == target.id) (set_revoked now) s.users }
  sessions ← gets (λ s. select_where (is_live_of target.id) s.sessions)
  modify λ s. record s { sessions = update_where (is_live_of target.id) (revoke_at now) s.sessions }
  audit_each actor target sessions
  modify λ s. record s {
    enrollments = update_where (is_open_of target.id) (withdraw now) s.enrollments;
  }
  audit EventType.account_disabled succeeded (some actor.id) (some target.id)
      (some target.normalized_login) (some target.bound_tailscale_login) (some owner_action)

unfoldable pub disable_account :
    Library → (now actor_id : ℕ) → Text → ℕ → Store → Result (Unit {0}) × Store
disable_account lib now actor_id tailscale_login target_id = transaction (do
  actor ← owner_in_session lib actor_id tailscale_login
  target ← or_raise (← gets (λ s. find_user target_id s.users)) lookup_error
  raise_if (is_owner target.role) value_error
  if is_revoked target.state then pure tt else disable_target now actor target)

pub record SessionView : Type 0 where
  pub id : ℕ
  pub created_at : ℕ
  pub last_seen_at : ℕ
  pub idle_expires_at : ℕ
  pub absolute_expires_at : ℕ
  pub revoked : Bool

unfoldable pub session_view : Session → SessionView
session_view x = record {
  id = x.id;
  created_at = x.created_at;
  last_seen_at = x.last_seen_at;
  idle_expires_at = x.idle_expires_at;
  absolute_expires_at = x.absolute_expires_at;
  revoked = is_some x.revoked_at;
}

unfoldable pub list_account_sessions :
    Library → ℕ → Text → ℕ → Store → Result (List SessionView) × Store
list_account_sessions lib actor_id tailscale_login target_id = transaction (do
  owner_in_session lib actor_id tailscale_login
  target ← or_raise (← gets (λ s. find_user target_id s.users)) lookup_error
  gets λ s. map session_view (
      order_by (λ x y. leb y.created_at x.created_at)
        (select_where (λ x. x.user_id == target_id) s.sessions)))

unfoldable pub revoke_account_session :
    Library → (now actor_id : ℕ) → Text → (target_id session_id : ℕ) → Store → Result Bool × Store
revoke_account_session lib now actor_id tailscale_login target_id session_id = transaction (do
  actor ← owner_in_session lib actor_id tailscale_login
  target ← or_raise (← gets (λ s. find_user target_id s.users)) lookup_error
  x ← or_raise (← gets (λ s. find_session session_id s.sessions)) lookup_error
  raise_if (not (x.user_id == target_id)) lookup_error
  if is_some x.revoked_at then pure false else do
    modify λ s. record s { sessions = update_where (λ y. y.id == x.id) (revoke_at now) s.sessions }
    audit session_revoked succeeded (some actor.id) (some target.id) (some target.normalized_login)
        (some target.bound_tailscale_login) (some owner_selected_session)
    pure true)

unfoldable pub revoke_all_account_sessions :
    Library → (now actor_id : ℕ) → Text → ℕ → Store → Result ℕ × Store
revoke_all_account_sessions lib now actor_id tailscale_login target_id = transaction (do
  actor ← owner_in_session lib actor_id tailscale_login
  target ← or_raise (← gets (λ s. find_user target_id s.users)) lookup_error
  changed ← gets (λ s. count_where (is_live_of target.id) s.sessions)
  modify λ s. record s { sessions = update_where (is_live_of target.id) (revoke_at now) s.sessions }
  audit sessions_revoked_all succeeded (some actor.id) (some target.id)
      (some target.normalized_login) (some target.bound_tailscale_login) (some (count changed))
  pure changed)
