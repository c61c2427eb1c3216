-- ===== src/Auth/Outcomes.antt =====
-- What the methods return: who is let in, who may administer, what a success means.
use xauusd_bot.Base.{
  ℕ, ◌≡◌, refl, true, false, Option, none, some, Text, is_some, is_some-none, none≢some,
}
use xauusd_bot.Auth.Types.{User, Session, Store, Settings, Library}
use xauusd_bot.Auth.Store.{ok, find_user, find_token}
use xauusd_bot.Auth.Accounts.{normalize_login, token_digest}
use xauusd_bot.Auth.Sessions.{
  AuthenticatedUser, authenticated_user, is_admissible, touched, session_audit, expire_session,
  accept_session, authenticate_user, authenticate_session, authenticate_block, authenticate,
  is_expired, is_bad_token, token_text,
}
use xauusd_bot.Auth.Blocks.{
  Ensures, Ensures-pure, Ensures-gets, Ensures-if, Ensures-modify, block_rules, transaction_ok,
  if_returns, ok-injective,
}

-- The session and the user behind an accepted cookie.
pub record Grants (cfg : Settings) (s : Store) (now : ℕ) (identity h : Text) (a : AuthenticatedUser)
    : Type 0 where
  pub session : Session
  pub user : User
  pub found_session : find_token h s.sessions ≡ some session
  pub live : session.revoked_at ≡ none
  pub unexpired : is_expired now session ≡ false
  pub found_user : find_user session.user_id s.users ≡ some user
  pub admissible : is_admissible identity user ≡ true
  pub answer : a ≡ authenticated_user user (touched cfg now session)

module _ (cfg : Settings) (s : Store) (now : ℕ) (identity h : Text) where
  -- Of a result: whoever is let in has such a session and user.
  abbrev GrantsIf : Option AuthenticatedUser → Store → Type 0
  GrantsIf r t = (a : AuthenticatedUser) → r ≡ some a → Grants cfg s now identity h a

  GrantsIf-none : (t : Store) → GrantsIf none t
  GrantsIf-none t a e = absurd (none≢some e)

  expire_session-Grants : (x : Session) → Ensures GrantsIf (expire_session now identity x) s
  unfolding expire_session session_audit
  expire_session-Grants x = search (block_rules, GrantsIf-none) depth 8

  authenticate_user-Grants :
      (x : Session) (user : Option User)
      → find_token h s.sessions ≡ some x
      → x.revoked_at ≡ none
      → is_expired now x ≡ false
      → find_user x.user_id s.users ≡ user
      → Ensures GrantsIf (authenticate_user cfg now identity x user) s
  unfolding authenticate_user accept_session
  authenticate_user-Grants x none fx live fresh fu = Ensures-pure s none (GrantsIf-none s)
  authenticate_user-Grants x (some u) fx live fresh fu =
      Ensures-if s _ _ _
        (λ admissible. Ensures-modify s _ _ (
          Ensures-pure _ _ λ a e. record {
            session = x;
            user = u;
            found_session = fx;
            live = live;
            unexpired = fresh;
            found_user = fu;
            admissible = admissible;
            answer = cc;
          }))
        (λ _. Ensures-pure s none (GrantsIf-none s))

  authenticate_session-Grants :
      (x : Option Session)
      → find_token h s.sessions ≡ x
      → Ensures GrantsIf (authenticate_session cfg now identity x) s
  unfolding authenticate_session
  authenticate_session-Grants none fx = Ensures-pure s none (GrantsIf-none s)
  authenticate_session-Grants (some x) fx =
      Ensures-if s (is_some x.revoked_at) _ _ (λ _. Ensures-pure s none (GrantsIf-none s))
        (λ live.
          Ensures-if s _ _ _ (λ _. expire_session-Grants x)
            (λ fresh.
              Ensures-gets s _ _
                (authenticate_user-Grants x _ fx (is_some-none x.revoked_at live) fresh refl)))

module _ (lib : Library) (cfg : Settings) (now : ℕ) (token : Option Text) (identity : Text)
    (s : Store) where
  pub authenticate_ok :
      (a : AuthenticatedUser)
      → (authenticate lib cfg now token identity s).0 ≡ ok (some a)
      → Grants cfg s now (normalize_login lib identity) (token_digest lib (token_text token)) a
  unfolding authenticate authenticate_block
  authenticate_ok a e =
      let (_, returned, _) =
        if_returns (is_bad_token token) _ _ _ e (λ h. none≢some (ok-injective h)) in
      transaction_ok _ _ s (some a) returned
        (Ensures-gets s _ _ (authenticate_session-Grants cfg s now _ _ _ refl)) a refl
