-- ===== src/Auth/Lifetimes.antt =====
-- How long a session lives: no renewal carries it past the absolute expiry set at its login.
use xauusd_bot.Base.{
  ℕ, ◌<◌, ◌≡◌, ap, sym, ◌∙◌, Bool, false, Option, some, List, [], ◌∷◌, Text, All, arith,
}
use xauusd_bot.Auth.Types.{Session, Store, Settings, Library}
use xauusd_bot.Auth.Store.{ok, find_token, update_where}
use xauusd_bot.Auth.Accounts.{token_digest}
use xauusd_bot.Auth.Sessions.{
  AuthenticatedUser, authenticated_user, absolute_expiry, is_expired, touched, touch, token_text,
  authenticate, revoke_at,
}
use xauusd_bot.Auth.Calls.{Call, run, empty_store}
use xauusd_bot.Auth.Changes.{
  Change, keep, add_user, invite, enroll, consume_where, disable, open_session, revoke_where,
  touch_where,
}
use xauusd_bot.Auth.Invariant.{All-update_where}
use xauusd_bot.Auth.Outcomes.{authenticate_ok}
use xauusd_bot.Auth.Revocation.{run_keeps}

module _ (cfg : Settings) where
  -- The absolute expiry is the one that the login set.
  abbrev IsTimed : Session → Type 0
  IsTimed x = x.absolute_expires_at ≡ absolute_expiry cfg x.created_at

  IsTimed-touched : (now : ℕ) (x : Session) → IsTimed x → IsTimed (touched cfg now x)
  unfolding touched touch
  IsTimed-touched now x h = ground arith

  IsTimed-revoke :
      (p : Session → Bool) (now : ℕ) (xs : List Session)
      → All IsTimed xs
      → All IsTimed (update_where p (revoke_at now) xs)
  unfolding revoke_at
  IsTimed-revoke p now xs a = All-update_where _ _ p _ (λ x h _. h) (λ x h _. h) xs a

  IsTimed-touch :
      (p : Session → Bool) (now : ℕ) (xs : List Session)
      → All IsTimed xs
      → All IsTimed (update_where p (touched cfg now) xs)
  IsTimed-touch p now xs a =
      All-update_where _ _ p _ (λ x h _. IsTimed-touched now x h) (λ x h _. h) xs a

  IsTimed-Change : (s t : Store) → Change cfg s t → All IsTimed s.sessions → All IsTimed t.sessions
  IsTimed-Change s t (keep a b c) v = rw b v
  IsTimed-Change s t (add_user u new a b c) v = rw b v
  IsTimed-Change s t (invite u e new issue a b c) v = rw b v
  IsTimed-Change s t (enroll k now p identity j a b c) v = rw b v
  IsTimed-Change s t (consume_where k now a b c) v = rw b v
  IsTimed-Change s t (disable u now found role a b c) v = rw b (IsTimed-revoke _ now s.sessions v)
  IsTimed-Change s t (open_session l x u o a b c) v = rw b (o.lifetime, v)
  IsTimed-Change s t (revoke_where p now a b c) v = rw b (IsTimed-revoke p now s.sessions v)
  IsTimed-Change s t (touch_where p now a b c) v = rw b (IsTimed-touch p now s.sessions v)

IsTimed-found :
    (cfg : Settings) (h : Text) (x : Session) (xs : List Session)
    → All (IsTimed cfg) xs
    → find_token h xs ≡ some x
    → IsTimed cfg x
unfolding find_token
IsTimed-found cfg h x [] a e = cc
IsTimed-found cfg h x (y ∷ xs) a e = ground (arith, IsTimed-found cfg h x xs a.1)

touched-absolute_expires_at :
    (cfg : Settings) (now : ℕ) (x : Session)
    → (touched cfg now x).absolute_expires_at ≡ x.absolute_expires_at
unfolding touched touch
touched-absolute_expires_at cfg now x = ground arith

unexpired_lem : (now : ℕ) (x : Session) → is_expired now x ≡ false → now < x.absolute_expires_at
unfolding is_expired
unexpired_lem now x h = ground arith

-- Over every history from an empty database, a cookie that is accepted belongs to a session of the
-- table whose login lies less than the configured hours back, however often it was renewed; the
-- session keeps that limit.
pub accepted_within_hours :
    (lib : Library) (cfg : Settings) (cs : List Call) (now : ℕ) (token : Option Text) (who : Text)
    (a : AuthenticatedUser)
    → (authenticate lib cfg now token who (run lib cfg cs empty_store)).0 ≡ ok (some a)
    → (x : Session) × (find_token
          (token_digest lib (token_text token))
          (run lib cfg cs empty_store).sessions
        ≡ some x)
      × (now < absolute_expiry cfg x.created_at)
      × (a.absolute_expires_at ≡ absolute_expiry cfg x.created_at)
unfolding empty_store authenticated_user
accepted_within_hours lib cfg cs now token who a accepted =
    let g = authenticate_ok lib cfg now token who _ a accepted in
    let x = g.session in
    let timed : IsTimed cfg x =
      IsTimed-found cfg _ x _ (run_keeps lib cfg _ (IsTimed-Change cfg) cs empty_store tt)
        g.found_session in
    (
      x,
      g.found_session,
      rw (sym timed) (unexpired_lem now x g.unexpired),
      ap (λ b. b.absolute_expires_at) g.answer ∙ touched-absolute_expires_at cfg now x ∙ timed,
    )
