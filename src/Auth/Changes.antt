-- ===== src/Auth/Changes.antt =====
-- What a call may do to the tables, apart from the audit trail: the specification that every
-- method is shown to follow, and over which the invariants are proved.
use xauusd_bot.Base.{ℕ, ◌≤◌, ◌≡◌, Bool, true, false, ◌&&◌, none, some, ◌∷◌, Text, ◌==◌}
use xauusd_bot.Auth.Types.{is_owner, is_active, User, Session, Enrollment, Store, Settings}
use xauusd_bot.Auth.Store.{find_user, find_login, find_token, find_secret, has_owner, update_where}
use xauusd_bot.Auth.Enrollment.{is_consumable, is_activatable, consume, activate}
use xauusd_bot.Auth.Sessions.{revoke_at, touched, absolute_expiry}
use xauusd_bot.Auth.Administration.{is_live_of, is_open_of, withdraw, set_revoked}

-- A row that a table's constraints let in.
pub record IsNew (s : Store) (u : User) : Type 0 where
  pub fresh : find_user u.id s.users ≡ none
  pub one_owner : is_owner u.role && has_owner s.users ≡ false

pub data IsIssued (s : Store) (e : Enrollment) : Type 0 where
  issued :
      find_secret e.token_hash s.enrollments ≡ none
      → e.consumed_at ≡ none
      → e.revoked_at ≡ none
      → IsIssued s e

-- The session that a login opens for the user that it found under the name `l`.
pub record IsOpened (cfg : Settings) (s : Store) (l : Text) (x : Session) (u : User) : Type 0 where
  pub fresh : find_token x.token_hash s.sessions ≡ none
  pub found : find_login l s.users ≡ some u
  pub user : x.user_id ≡ u.id
  pub is_active_user : is_active u.state ≡ true
  pub live : x.revoked_at ≡ none
  pub bounded : x.idle_expires_at ≤ x.absolute_expires_at
  pub lifetime : x.absolute_expires_at ≡ absolute_expiry cfg x.created_at

pub data Change (cfg : Settings) (s t : Store) : Type 0 where
  keep :
      t.users ≡ s.users → t.sessions ≡ s.sessions → t.enrollments ≡ s.enrollments → Change cfg s t
  add_user :
      (u : User)
      → IsNew s u
      → t.users ≡ u ∷ s.users
      → t.sessions ≡ s.sessions
      → t.enrollments ≡ s.enrollments
      → Change cfg s t
  invite :
      (u : User) (e : Enrollment)
      → IsNew s u
      → IsIssued s e
      → t.users ≡ u ∷ s.users
      → t.sessions ≡ s.sessions
      → t.enrollments ≡ e ∷ s.enrollments
      → Change cfg s t
  enroll :
      (i now : ℕ) (password_hash identity : Text) (j : ℕ)
      → t.users ≡ update_where (is_activatable j identity) (activate now password_hash) s.users
      → t.sessions ≡ s.sessions
      → t.enrollments ≡ update_where (is_consumable i now) (consume now) s.enrollments
      → Change cfg s t
  consume_where :
      (i now : ℕ)
      → t.users ≡ s.users
      → t.sessions ≡ s.sessions
      → t.enrollments ≡ update_where (is_consumable i now) (consume now) s.enrollments
      → Change cfg s t
  disable :
      (u : User) (now : ℕ)
      → find_user u.id s.users ≡ some u
      → is_owner u.role ≡ false
      → t.users ≡ update_where (λ v. v.id == u.id) (set_revoked now) s.users
      → t.sessions ≡ update_where (is_live_of u.id) (revoke_at now) s.sessions
      → t.enrollments ≡ update_where (is_open_of u.id) (withdraw now) s.enrollments
      → Change cfg s t
  open_session :
      (l : Text) (x : Session) (u : User)
      → IsOpened cfg s l x u
      → t.users ≡ s.users
      → t.sessions ≡ x ∷ s.sessions
      → t.enrollments ≡ s.enrollments
      → Change cfg s t
  revoke_where :
      (p : Session → Bool) (now : ℕ)
      → t.users ≡ s.users
      → t.sessions ≡ update_where p (revoke_at now) s.sessions
      → t.enrollments ≡ s.enrollments
      → Change cfg s t
  touch_where :
      (p : Session → Bool) (now : ℕ)
      → t.users ≡ s.users
      → t.sessions ≡ update_where p (touched cfg now) s.sessions
      → t.enrollments ≡ s.enrollments
      → Change cfg s t
