-- ===== src/Auth/Cookies.antt =====
-- The life of a session cookie: issued by a login, accepted until it expires or is revoked.
use xauusd_bot.Base.{
  ℕ, ◌≡◌, refl, ap, true, false, Option, none, some, List, ◌∷◌, Text, ◌==◌, is_some, take,
  none≢some, and_left, and_right,
}
use xauusd_bot.Auth.Types.{User, Session, Audit, Store, Settings, Library}
use xauusd_bot.Auth.Store.{
  ok, ◌>>=◌, ◌>>◌, gets, modify, pure, find_user, find_login, find_token, update_where, transaction,
}
use xauusd_bot.Auth.Accounts.{normalize_login, token_digest, verify_password}
use xauusd_bot.Auth.Sessions.{
  AuthenticatedUser, authenticated_user, is_admissible, touched, is_expired, is_bad_token,
  token_text, session_audit, new_session, login_failed, login_succeeded, login_checked, login_hash,
  login, accept_session, authenticate_user, authenticate_session, authenticate_block, authenticate,
}
use xauusd_bot.Auth.Blocks.{Ensures, Ensures-gets, Ensures-if, block_rules, transaction_ok}

module _ (cfg : Settings) (s : Store) (now : ℕ) (identity : Text) (x : Session) (u : User) where
  -- A live session of an admissible user is accepted.
  authenticate_session_grants :
      find_user x.user_id s.users ≡ some u
      → x.revoked_at ≡ none
      → is_expired now x ≡ false
      → is_admissible identity u ≡ true
      → authenticate_session cfg now identity (some x) s
        ≡ ok (
          some (authenticated_user u (touched cfg now x)),
          record s { sessions = update_where (λ y. y.id == x.id) (touched cfg now) s.sessions },
        )
  unfolding authenticate_session authenticate_user accept_session ◌>>=◌ ◌>>◌ gets modify pure
  authenticate_session_grants found live fresh admissible =
      let unrevoked : is_some x.revoked_at ≡ false = ap is_some live in
      rw (unrevoked, fresh, found, admissible) refl

module _ (lib : Library) (cfg : Settings) (s : Store) (now : ℕ) (token : Option Text)
    (who : Text) where
  pub authenticate_grants :
      (x : Session) (u : User)
      → is_bad_token token ≡ false
      → find_token (token_digest lib (token_text token)) s.sessions ≡ some x
      → find_user x.user_id s.users ≡ some u
      → x.revoked_at ≡ none
      → is_expired now x ≡ false
      → is_admissible (normalize_login lib who) u ≡ true
      → (authenticate lib cfg now token who s).0
        ≡ ok (some (authenticated_user u (touched cfg now x)))
  unfolding authenticate authenticate_block transaction ◌>>=◌ gets
  authenticate_grants x u good fx fu live fresh admissible =
      rw (good, fx, authenticate_session_grants cfg s now _ x u fu live fresh admissible) refl

-- What a login that lets somebody in has found and done.
pub record Opens (lib : Library) (cfg : Settings) (s : Store) (i now : ℕ)
    (token login password identity : Text) (a : AuthenticatedUser) (t : Store) : Type 0 where
  pub user : User
  pub found : find_login login s.users ≡ some user
  pub verified : verify_password lib user.password_hash password ≡ true
  pub admissible : is_admissible identity user ≡ true
  pub answer : a ≡ authenticated_user user (new_session lib cfg i now token user)
  pub users : t.users ≡ s.users
  pub sessions : t.sessions ≡ new_session lib cfg i now token user ∷ s.sessions

module _ (lib : Library) (cfg : Settings) (s : Store) (i now : ℕ)
    (token login_name password identity : Text) where
  -- Of a result: whoever is let in is given the token and has such a session.
  abbrev OpensIf : Option (AuthenticatedUser × Text) → Store → Type 0
  OpensIf r t =
      (a : AuthenticatedUser) (given : Text)
      → r ≡ some (a, given)
      → (given ≡ token) × Opens lib cfg s i now token login_name password identity a t

  OpensIf-none : (t : Store) → OpensIf none t
  OpensIf-none t a given e = absurd (none≢some e)

  login_failed-Opens :
      (user : Option User) → Ensures OpensIf (login_failed user login_name identity) s
  unfolding login_failed session_audit
  login_failed-Opens user = search (block_rules, OpensIf-none) depth 8

  login_succeeded-Opens :
      (u : User)
      → find_login login_name s.users ≡ some u
      → verify_password lib u.password_hash password ≡ true
      → is_admissible identity u ≡ true
      → Ensures OpensIf (login_succeeded lib cfg i now token identity u) s
  unfolding login_succeeded session_audit
  login_succeeded-Opens u fu verified admissible =
      let opened : (audits : List Audit)
          → OpensIf (some (authenticated_user u (new_session lib cfg i now token u), token))
              (record s {
                sessions = new_session lib cfg i now token u ∷ s.sessions;
                audits = audits;
              }) =
        λ audits a given e. (
          cc,
          record {
            user = u;
            found = fu;
            verified = verified;
            admissible = admissible;
            answer = cc;
            users = refl;
            sessions = refl;
          },
        ) in
      search (block_rules, opened) depth 10

  login_checked-Opens :
      (user : Option User)
      → find_login login_name s.users ≡ user
      → Ensures OpensIf (login_checked lib cfg i now token login_name password identity user) s
  unfolding login_checked login_hash
  login_checked-Opens none fu = login_failed-Opens none
  login_checked-Opens (some u) fu =
      Ensures-if s _ _ _ (λ h. login_succeeded-Opens u fu (and_left _ _ h) (and_right _ _ h))
        (λ _. login_failed-Opens (some u))

pub login_ok :
    (lib : Library) (cfg : Settings) (s : Store) (i now : ℕ) (token name password who given : Text)
    (a : AuthenticatedUser)
    → (login lib cfg i now token name password who s).0 ≡ ok (some (a, given))
    → (given ≡ token)
      × Opens lib cfg s i now token
          (take 254 (normalize_login lib name))
          password
          (take 254 (normalize_login lib who))
          a
          (login lib cfg i now token name password who s).1
unfolding login
login_ok lib cfg s i now token name password who given a e =
    transaction_ok _ _ s _ e
      (Ensures-gets s _ _ (login_checked-Opens lib cfg s i now token _ password _ _ refl)) a given
      refl
