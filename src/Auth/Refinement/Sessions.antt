-- ===== src/Auth/Refinement/Sessions.antt =====
-- `login`, `authenticate` and `revoke` change the tables in one of the ways of `Change`.
use xauusd_bot.Base.{
  ℕ, ◌≡◌, refl, true, Option, none, some, List, ◌∷◌, Text, ◌==◌, arith, and_right,
}
use xauusd_bot.Auth.Types.{User, Session, Audit, Store, Settings, Library}
use xauusd_bot.Auth.Store.{find_login, find_token, update_where}
use xauusd_bot.Auth.Accounts.{token_digest}
use xauusd_bot.Auth.Sessions.{
  new_session, session_audit, is_admissible, login_failed, login_succeeded, login_checked, login,
  revoke_at, touched, expire_session, accept_session, authenticate_user, authenticate_session,
  authenticate_block, authenticate, logout_session, revoke_found, revoke_block, revoke, idle_expiry,
}
use xauusd_bot.Auth.Changes.{Change, keep, open_session, revoke_where, touch_where}
use xauusd_bot.Auth.Blocks.{
  Ensures, Ensures-gets, Ensures-if, Ensures-pure, Ensures-insert_session, block_rules,
}
use xauusd_bot.Auth.Refinement.{same, if-Change, transaction-Change}

module _ (lib : Library) (cfg : Settings) (s : Store) where
  audited : (audits : List Audit) → Change cfg s (record s { audits = audits })
  audited audits = keep refl refl refl

  revoked :
      (now i : ℕ) (audits : List Audit)
      → Change cfg s (record s {
        sessions = update_where (λ y. y.id == i) (revoke_at now) s.sessions;
        audits = audits;
      })
  revoked now i audits = revoke_where (λ y. y.id == i) now refl refl refl

  touched_only :
      (now i : ℕ)
      → Change cfg s
          (record s { sessions = update_where (λ y. y.id == i) (touched cfg now) s.sessions })
  touched_only now i = touch_where (λ y. y.id == i) now refl refl refl

  login_failed-Change :
      (user : Option User) (l identity : Text)
      → Ensures (λ _ t. Change cfg s t) (login_failed user l identity) s
  unfolding login_failed session_audit
  login_failed-Change user l identity = search (block_rules, audited) depth 8

  opened :
      (i now : ℕ) (token identity l : Text) (u : User)
      → find_login l s.users ≡ some u
      → is_admissible identity u ≡ true
      → find_token (token_digest lib token) s.sessions ≡ none
      → (audits : List Audit)
      → Change cfg s
          (record s { sessions = new_session lib cfg i now token u ∷ s.sessions; audits = audits })
  unfolding is_admissible new_session idle_expiry
  opened i now token identity l u found admissible fresh audits =
      open_session l _ u
        (record {
          fresh = fresh;
          found = found;
          user = refl;
          is_active_user = ground arith;
          live = refl;
          bounded = omega arith;
          lifetime = refl;
        })
        refl refl refl

  login_succeeded-Change :
      (i now : ℕ) (token identity l : Text) (u : User)
      → find_login l s.users ≡ some u
      → is_admissible identity u ≡ true
      → Ensures (λ _ t. Change cfg s t) (login_succeeded lib cfg i now token identity u) s
  unfolding login_succeeded session_audit new_session
  login_succeeded-Change i now token identity l u found admissible =
      Ensures-insert_session s (new_session lib cfg i now token u) _ λ fresh.
        search (block_rules, opened i now token identity l u found admissible fresh) depth 8

  login_checked-Change :
      (i now : ℕ) (token l password identity : Text) (user : Option User)
      → find_login l s.users ≡ user
      → Ensures
          (λ _ t. Change cfg s t)
          (login_checked lib cfg i now token l password identity user)
          s
  unfolding login_checked
  login_checked-Change i now token l password identity none found =
      login_failed-Change none l identity
  login_checked-Change i now token l password identity (some u) found =
      Ensures-if s _ _ _
        (λ e. login_succeeded-Change i now token identity l u found (and_right _ _ e))
        (λ _. login_failed-Change (some u) l identity)

  pub login-Change :
      (i now : ℕ) (token name password identity : Text)
      → Change cfg s (login lib cfg i now token name password identity s).1
  unfolding login
  login-Change i now token name password identity =
      transaction-Change cfg _ s
        (Ensures-gets s _ _ (login_checked-Change i now token _ password _ _ refl))

  expire_session-Change :
      (now : ℕ) (identity : Text) (x : Session)
      → Ensures (λ _ t. Change cfg s t) (expire_session now identity x) s
  unfolding expire_session session_audit
  expire_session-Change now identity x = search (block_rules, revoked now x.id) depth 8

  accept_session-Change :
      (now : ℕ) (x : Session) (u : User)
      → Ensures (λ _ t. Change cfg s t) (accept_session cfg now x u) s
  unfolding accept_session
  accept_session-Change now x u = search (block_rules, touched_only now x.id) depth 8

  authenticate_user-Change :
      (now : ℕ) (identity : Text) (x : Session) (user : Option User)
      → Ensures (λ _ t. Change cfg s t) (authenticate_user cfg now identity x user) s
  unfolding authenticate_user
  authenticate_user-Change now identity x none = Ensures-pure s none (same cfg s)
  authenticate_user-Change now identity x (some u) =
      Ensures-if s _ _ _ (λ _. accept_session-Change now x u)
        (λ _. Ensures-pure s none (same cfg s))

  authenticate_session-Change :
      (now : ℕ) (identity : Text) (x : Option Session)
      → Ensures (λ _ t. Change cfg s t) (authenticate_session cfg now identity x) s
  unfolding authenticate_session
  authenticate_session-Change now identity none = Ensures-pure s none (same cfg s)
  authenticate_session-Change now identity (some x) =
      search (block_rules, same, expire_session-Change, authenticate_user-Change) depth 8

  pub authenticate-Change :
      (now : ℕ) (token : Option Text) (identity : Text)
      → Change cfg s (authenticate lib cfg now token identity s).1
  unfolding authenticate authenticate_block
  authenticate-Change now token identity =
      if-Change cfg _ _ _ (same cfg s)
        (transaction-Change cfg _ s (Ensures-gets s _ _ (authenticate_session-Change now _ _)))

  logout_session-Change :
      (now : ℕ) (identity : Text) (x : Session)
      → Ensures (λ _ t. Change cfg s t) (logout_session now identity x) s
  unfolding logout_session session_audit
  logout_session-Change now identity x = search (block_rules, revoked now x.id) depth 10

  revoke_found-Change :
      (now : ℕ) (identity : Text) (x : Option Session)
      → Ensures (λ _ t. Change cfg s t) (revoke_found now identity x) s
  unfolding revoke_found
  revoke_found-Change now identity none = Ensures-pure s tt (same cfg s)
  revoke_found-Change now identity (some x) =
      search (block_rules, same, logout_session-Change) depth 8

  pub revoke-Change :
      (now : ℕ) (token : Option Text) (identity : Text)
      → Change cfg s (revoke lib now token identity s).1
  unfolding revoke revoke_block
  revoke-Change now token identity =
      if-Change cfg _ _ _ (same cfg s)
        (transaction-Change cfg _ s (Ensures-gets s _ _ (revoke_found-Change now _ _)))
