-- ===== src/Auth/Refinement/Administration.antt =====
-- What the OWNER does changes the tables in one of the ways of `Change`.
use xauusd_bot.Base.{ℕ, ◌≡◌, refl, Bool, List, [], ◌∷◌, Text, ◌==◌}
use xauusd_bot.Auth.Types.{User, Session, Audit, Store, Settings, Library}
use xauusd_bot.Auth.Store.{update_where}
use xauusd_bot.Auth.Accounts.{audit}
use xauusd_bot.Auth.Sessions.{revoke_at}
use xauusd_bot.Auth.Administration.{
  is_live_of, is_open_of, withdraw, set_revoked, audit_each, disable_target, disable_account,
  list_account_sessions, revoke_account_session, revoke_all_account_sessions,
}
use xauusd_bot.Auth.Lookups.{find_user_self}
use xauusd_bot.Auth.Changes.{Change, disable, revoke_where}
use xauusd_bot.Auth.Blocks.{
  Ensures, Ensures-pure, Ensures-gets, Ensures-modify, Ensures-or_raise, Ensures-raise_if,
  Ensures-if, Ensures-then, Ensures-mono, Ensures-add_audit, Ensures-add_audit_last, block_rules,
}
use xauusd_bot.Auth.Authority.{Ensures-owner_in_session, Ensures-owner_in_session_then}
use xauusd_bot.Auth.Refinement.{same, transaction-Change}

-- The rows that the loop writes are audit rows.
audit_each-keeps :
    (actor target : User) (xs : List Session) (s : Store)
    → Ensures
        (λ _ t. (audits : List Audit) × (t ≡ record s { audits = audits }))
        (audit_each actor target xs)
        s
unfolding audit_each audit
audit_each-keeps actor target [] s = Ensures-pure s tt (s.audits, refl)
audit_each-keeps actor target (x ∷ xs) s =
    Ensures-add_audit s _ _ (audit_each-keeps actor target xs _)

-- The tables once an account is disabled, under some audit trail.
abbrev pub disabled_store : ℕ → User → Store → List Audit → Store
disabled_store now u s audits = record {
  users = update_where (λ v. v.id == u.id) (set_revoked now) s.users;
  sessions = update_where (is_live_of u.id) (revoke_at now) s.sessions;
  enrollments = update_where (is_open_of u.id) (withdraw now) s.enrollments;
  audits = audits;
}

pub Ensures-disable_target {ℓ} :
    (P : Unit {0} → Store → Type ℓ) (s : Store) (now : ℕ) (actor u : User)
    → ((audits : List Audit) → P tt (disabled_store now u s audits))
    → Ensures P (disable_target now actor u) s
unfolding disable_target audit
Ensures-disable_target P s now actor u h = Ensures-modify s _ _ (
    Ensures-gets _ _ _ (
      Ensures-modify _ _ _ (
        Ensures-then _ _ _ (
          Ensures-mono _ _ _ _ (audit_each-keeps actor u _ _)
            λ _ t kept. rw kept.1 (Ensures-modify _ _ _ (Ensures-add_audit_last _ _ (h _)))))))

module _ (lib : Library) (cfg : Settings) (s : Store) where
  pub disable_account-Change :
      (now actor : ℕ) (identity : Text) (target : ℕ)
      → Change cfg s (disable_account lib now actor identity target s).1
  unfolding disable_account
  disable_account-Change now actor identity target = transaction-Change cfg _ s (
      Ensures-owner_in_session s lib actor identity _ λ a _. Ensures-gets s _ _ (
        Ensures-or_raise s _ _ _ λ u found. Ensures-raise_if s _ _ _ λ role.
          Ensures-if s _ _ _ (λ _. Ensures-pure s tt (same cfg s))
            λ _.
              Ensures-disable_target _ s now a u
                λ _. disable u now (find_user_self target s.users u found) role refl refl refl))

  pub list_account_sessions-Change :
      (actor : ℕ) (identity : Text) (target : ℕ)
      → Change cfg s (list_account_sessions lib actor identity target s).1
  unfolding list_account_sessions
  list_account_sessions-Change actor identity target = transaction-Change cfg _ s (
      Ensures-owner_in_session_then s lib actor identity _
        λ _ _. search (block_rules, same) depth 8)

  revoked :
      (p : Session → Bool) (now : ℕ) (audits : List Audit)
      → Change cfg s
          (record s { sessions = update_where p (revoke_at now) s.sessions; audits = audits })
  revoked p now audits = revoke_where p now refl refl refl

  pub revoke_account_session-Change :
      (now actor : ℕ) (identity : Text) (target i : ℕ)
      → Change cfg s (revoke_account_session lib now actor identity target i s).1
  unfolding revoke_account_session audit
  revoke_account_session-Change now actor identity target i = transaction-Change cfg _ s (
      Ensures-owner_in_session s lib actor identity _
        λ _ _. search (block_rules, same, revoked) depth 14)

  pub revoke_all_account_sessions-Change :
      (now actor : ℕ) (identity : Text) (target : ℕ)
      → Change cfg s (revoke_all_account_sessions lib now actor identity target s).1
  unfolding revoke_all_account_sessions audit
  revoke_all_account_sessions-Change now actor identity target = transaction-Change cfg _ s (
      Ensures-owner_in_session s lib actor identity _ λ _ _. search (block_rules, revoked) depth 14)
