-- ===== src/Auth/Logins.antt =====
-- The life of a session cookie: a login's cookie is accepted until it expires, and none after a
-- logout.
use xauusd_bot.Base.{
  ℕ, ◌≤◌, ◌<◌, ◌≡◌, ◌≢◌, refl, ap, sym, ◌∙◌, true, false, Option, none, some, none≢some, false≢true,
  some-injective, List, ◌∷◌, Text, text_eq, text_eq_refl, ◌==◌, is_some, length, take_all, arith,
  and_right,
}
use xauusd_bot.Auth.Types.{User, Session, Store, Settings, Library}
use xauusd_bot.Auth.Store.{
  ok, ◌>>=◌, ◌>>◌, gets, modify, pure, add_audit, transaction, find_user, find_token, update_where,
}
use xauusd_bot.Auth.Accounts.{normalize_login, token_digest}
use xauusd_bot.Auth.Sessions.{
  AuthenticatedUser, authenticated_user, is_admissible, touched, touch, idle_expiry, is_expired,
  is_bad_token, token_text, is_bound, new_session, login, authenticate, revoke_at, logout_session,
  revoke_found, revoke_block, revoke, session_audit,
}
use xauusd_bot.Auth.Calls.{Call, run}
use xauusd_bot.Auth.Blocks.{
  Ensures, Ensures-pure, Ensures-gets, Ensures-if, block_rules, transaction_ok, if_returns,
  ok-injective,
}
use xauusd_bot.Auth.Lookups.{find_token-update_where}
use xauusd_bot.Auth.Invariant.{IsValid, find_login-find_user}
use xauusd_bot.Auth.Outcomes.{Grants, authenticate_ok}
use xauusd_bot.Auth.Revocation.{DeadIn, DeadIn-run}
use xauusd_bot.Auth.Cookies.{login_ok, authenticate_grants}

is_expired-new :
    (lib : Library) (cfg : Settings) (i now later : ℕ) (token : Text) (u : User)
    → later < (new_session lib cfg i now token u).idle_expires_at
    → is_expired later (new_session lib cfg i now token u) ≡ false
unfolding is_expired new_session idle_expiry
is_expired-new lib cfg i now later token u h = ground arith

find_token_head : (x : Session) (xs : List Session) → find_token x.token_hash (x ∷ xs) ≡ some x
unfolding find_token
find_token_head x xs = rw (text_eq_refl x.token_hash)

touched-id : (cfg : Settings) (now : ℕ) (x : Session) → (touched cfg now x).id ≡ x.id
unfolding touched touch
touched-id cfg now x = ground arith

module _ (lib : Library) (cfg : Settings) (s : Store) (i now later : ℕ)
    (token name password who given : Text) (a : AuthenticatedUser) where
  -- A login that succeeds hands out the new token, and until the idle expiry that it reports the
  -- token is accepted, under the same identity, as the same user and session; the identity must fit
  -- in 254 characters and the token must be one that is looked up at all.
  pub login_authenticates :
      IsValid s
      → (login lib cfg i now token name password who s).0 ≡ ok (some (a, given))
      → length (normalize_login lib who) ≤ 254
      → is_bad_token (some token) ≡ false
      → later < a.idle_expires_at
      → (given ≡ token)
        × ((b : AuthenticatedUser) × ((authenticate lib cfg later
                (some given)
                who
                (login lib cfg i now token name password who s).1).0
              ≡ ok (some b))
            × (b.id ≡ a.id)
            × (b.session_id ≡ a.session_id))
  unfolding authenticated_user new_session token_text
  login_authenticates valid logged short good early =
      let t = (login lib cfg i now token name password who s).1 in
      let (same, o) = login_ok lib cfg s i now token name password who given a logged in
      let u = o.user in
      let x = new_session lib cfg i now token u in
      let found_user : find_user x.user_id t.users ≡ some u =
        ap (find_user u.id) o.users ∙ find_login-find_user _ s.users u valid.ids o.found in
      let found_token : find_token (token_digest lib token) t.sessions ≡ some x =
        ap (find_token x.token_hash) o.sessions ∙ find_token_head x s.sessions in
      let idle : x.idle_expires_at ≡ a.idle_expires_at =
        sym (ap (λ b. b.idle_expires_at) o.answer) in
      let fresh : is_expired later x ≡ false =
        is_expired-new lib cfg i now later token u (rw idle early) in
      (
        same,
        (
          authenticated_user u (touched cfg later x),
          rw same (
              authenticate_grants lib cfg t later (some token) who x u good found_token found_user
                refl fresh (rw (sym (take_all 254 (normalize_login lib who) short)) o.admissible)),
          sym (ap (λ b. b.id) o.answer),
          touched-id cfg later x ∙ sym (ap (λ b. b.session_id) o.answer),
        ),
      )

revoked_token :
    (now : ℕ) (h : Text) (x : Session) (xs : List Session)
    → find_token h xs ≡ some x
    → DeadIn h (update_where (λ y. y.id == x.id) (revoke_at now) xs)
unfolding revoke_at
revoked_token now h x xs found = (
  revoke_at now x,
  ground (arith, find_token-update_where (λ y. y.id == x.id) (revoke_at now) (λ y. refl) h xs),
  refl,
)

module _ (now : ℕ) (h identity : Text) (s : Store) where
  logout_session-DeadIn :
      (x : Session)
      → find_token h s.sessions ≡ some x
      → Ensures (λ _ t. DeadIn h t.sessions) (logout_session now identity x) s
  unfolding logout_session session_audit
  logout_session-DeadIn x found =
      let dead = revoked_token now h x s.sessions found in search (block_rules, dead) depth 10

  revoke_found-DeadIn :
      (x : Session) (u : User)
      → find_token h s.sessions ≡ some x
      → find_user x.user_id s.users ≡ some u
      → text_eq u.bound_tailscale_login identity ≡ true
      → Ensures (λ _ t. DeadIn h t.sessions) (revoke_found now identity (some x)) s
  unfolding revoke_found is_bound
  revoke_found-DeadIn x u found owner bound =
      Ensures-if s _ _ _ (λ dead. Ensures-pure s tt (x, found, dead))
        (λ _. Ensures-gets s _ _ (rw (owner, bound) (logout_session-DeadIn x found)))

revoke_found_ok :
    (now : ℕ) (identity : Text) (found : Option Session) (s : Store)
    → (transaction (revoke_found now identity found) s).0 ≡ ok tt
unfolding revoke_found logout_session session_audit add_audit transaction modify gets pure ◌>>=◌
    ◌>>◌
revoke_found_ok now identity found s = ground arith

dead_or_alive : {x y : Session} → x ≡ y → y.revoked_at ≡ none → is_some x.revoked_at ≡ true → ⊥
dead_or_alive same live dead =
    false≢true (sym (ap is_some live) ∙ sym (ap (λ z. is_some z.revoked_at) same) ∙ dead)

module _ (lib : Library) (cfg : Settings) (s : Store) (now : ℕ) (token : Option Text)
    (who : Text) where
  abbrev hash : Text
  hash = token_digest lib (token_text token)

  abbrev identity : Text
  identity = normalize_login lib who

  revoke_block_ok : (transaction (revoke_block lib now token identity) s).0 ≡ ok tt
  unfolding revoke_block gets ◌>>=◌ transaction
  revoke_block_ok = ground (arith, revoke_found_ok now identity (find_token hash s.sessions) s)

  revoke-transaction :
      is_bad_token token ≡ false
      → revoke lib now token who s ≡ transaction (revoke_block lib now token identity) s
  unfolding revoke
  revoke-transaction good = rw good

  authenticate-token :
      (a : AuthenticatedUser)
      → (authenticate lib cfg now token who s).0 ≡ ok (some a)
      → is_bad_token token ≡ false
  unfolding authenticate
  authenticate-token a e = (if_returns _ _ _ _ e λ h. none≢some (ok-injective h)).0

  revoke_block-DeadIn :
      (a : AuthenticatedUser)
      → Grants cfg s now identity hash a
      → DeadIn hash (transaction (revoke_block lib now token identity) s).1.sessions
  unfolding revoke_block is_admissible
  revoke_block-DeadIn a g =
      let x = g.session in
      transaction_ok (λ _ t. DeadIn hash t.sessions) _ s tt revoke_block_ok
        (Ensures-gets s _ _ (
          rw (g.found_session) (
            revoke_found-DeadIn now hash identity s x g.user g.found_session g.found_user
              (and_right _ _ (and_right _ _ g.admissible)))))

  revoke-DeadIn :
      (a : AuthenticatedUser)
      → (authenticate lib cfg now token who s).0 ≡ ok (some a)
      → DeadIn hash (revoke lib now token who s).1.sessions
  revoke-DeadIn a accepted =
      rw (revoke-transaction (authenticate-token a accepted))
        (revoke_block-DeadIn a (authenticate_ok lib cfg now token who s a accepted))

  -- A cookie that was accepted and that its owner then logs out is never accepted again, whatever
  -- calls follow and whoever presents it.
  pub logged_out_stays_out :
      (a b : AuthenticatedUser) (cs : List Call) (later : ℕ) (anyone : Text)
      → (authenticate lib cfg now token who s).0 ≡ ok (some a)
      → (authenticate lib cfg later token anyone (run lib cfg cs (revoke lib now token who s).1)).0
        ≢ ok (some b)
  logged_out_stays_out a b cs later anyone accepted again =
      let (x, found, dead) = DeadIn-run lib cfg cs _ _ (revoke-DeadIn a accepted) in
      let g = authenticate_ok lib cfg later token anyone _ b again in
      dead_or_alive (some-injective (sym found ∙ g.found_session)) g.live dead
