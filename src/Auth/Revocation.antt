-- ===== src/Auth/Revocation.antt =====
-- What no later call undoes: a disabled account, a used secret, a revoked session.
use xauusd_bot.Base.{
  ℕ, ◌≡◌, refl, Bool, true, none, some, List, [], ◌∷◌, Text, ◌==◌, if◌then◌else◌, is_some, arith,
}
use xauusd_bot.Auth.Types.{User, Session, Enrollment, Store, Settings, Library, is_revoked}
use xauusd_bot.Auth.Store.{find_user, find_token, find_secret, update_where}
use xauusd_bot.Auth.Enrollment.{is_activatable, is_consumable, activate, consume}
use xauusd_bot.Auth.Sessions.{revoke_at, touched, touch}
use xauusd_bot.Auth.Administration.{set_revoked, withdraw}
use xauusd_bot.Auth.Calls.{Call, run}
use xauusd_bot.Auth.Changes.{
  Change, keep, add_user, invite, enroll, consume_where, disable, open_session, revoke_where,
  touch_where, IsNew, IsIssued, issued,
}
use xauusd_bot.Auth.Lookups.{
  text_eq_of_miss, find_user-update_where, find_token-update_where, find_secret-update_where,
}
use xauusd_bot.Auth.Refinement.Calls.{step-Change}

-- The user with this id is REVOKED.
abbrev pub RevokedIn : ℕ → List User → Type 0
RevokedIn i us = (u : User) × (find_user i us ≡ some u) × (is_revoked u.state ≡ true)

-- The secret with this digest has been used.
abbrev pub UsedIn : Text → List Enrollment → Type 0
UsedIn h es = (e : Enrollment) × (find_secret h es ≡ some e) × (is_some e.consumed_at ≡ true)

-- The session of this token digest has been revoked.
abbrev pub DeadIn : Text → List Session → Type 0
DeadIn h xs = (x : Session) × (find_token h xs ≡ some x) × (is_some x.revoked_at ≡ true)

RevokedIn-add :
    (i : ℕ) (s : Store) (u : User) → IsNew s u → RevokedIn i s.users → RevokedIn i (u ∷ s.users)
unfolding find_user
RevokedIn-add i s u new (v, found, dead) = (v, ground (arith, new.fresh), dead)

RevokedIn-enroll :
    (i j now : ℕ) (h identity : Text) (us : List User)
    → RevokedIn i us
    → RevokedIn i (update_where (is_activatable j identity) (activate now h) us)
unfolding is_activatable activate
RevokedIn-enroll i j now h identity us (v, found, dead) = (
  v,
  ground
      (arith, find_user-update_where (is_activatable j identity) (activate now h) (λ u. refl) i us),
  dead,
)

RevokedIn-disable :
    (i j now : ℕ) (us : List User)
    → RevokedIn i us
    → RevokedIn i (update_where (λ v. v.id == j) (set_revoked now) us)
unfolding set_revoked
RevokedIn-disable i j now us (v, found, dead) = (
  if v.id == j then set_revoked now v else v,
  ground (arith, find_user-update_where (λ v. v.id == j) (set_revoked now) (λ u. refl) i us),
  ground arith,
)

RevokedIn-Change :
    (cfg : Settings) (i : ℕ) (s t : Store)
    → Change cfg s t
    → RevokedIn i s.users
    → RevokedIn i t.users
RevokedIn-Change cfg i s t (keep a b c) v = rw a v
RevokedIn-Change cfg i s t (add_user u new a b c) v = rw a (RevokedIn-add i s u new v)
RevokedIn-Change cfg i s t (invite u e new issue a b c) v = rw a (RevokedIn-add i s u new v)
RevokedIn-Change cfg i s t (enroll k now h identity j a b c) v =
    rw a (RevokedIn-enroll i j now h identity s.users v)
RevokedIn-Change cfg i s t (consume_where k now a b c) v = rw a v
RevokedIn-Change cfg i s t (disable u now found role a b c) v =
    rw a (RevokedIn-disable i u.id now s.users v)
RevokedIn-Change cfg i s t (open_session l x u o a b c) v = rw a v
RevokedIn-Change cfg i s t (revoke_where p now a b c) v = rw a v
RevokedIn-Change cfg i s t (touch_where p now a b c) v = rw a v

UsedIn-consume :
    (h : Text) (i now : ℕ) (es : List Enrollment)
    → UsedIn h es
    → UsedIn h (update_where (is_consumable i now) (consume now) es)
unfolding consume
UsedIn-consume h i now es (e, found, used) = (
  if is_consumable i now e then consume now e else e,
  ground (arith, find_secret-update_where (is_consumable i now) (consume now) (λ u. refl) h es),
  ground arith,
)

UsedIn-withdraw :
    (h : Text) (p : Enrollment → Bool) (now : ℕ) (es : List Enrollment)
    → UsedIn h es
    → UsedIn h (update_where p (withdraw now) es)
unfolding withdraw
UsedIn-withdraw h p now es (e, found, used) = (
  if p e then withdraw now e else e,
  ground (arith, find_secret-update_where p (withdraw now) (λ u. refl) h es),
  ground arith,
)

UsedIn-issue :
    (h : Text) (s : Store) (e : Enrollment)
    → IsIssued s e
    → UsedIn h s.enrollments
    → UsedIn h (e ∷ s.enrollments)
unfolding find_secret
UsedIn-issue h s e (issued fresh unused open_) (x, found, used) = (
  x,
  rw (text_eq_of_miss (λ k. find_secret k s.enrollments) e.token_hash h fresh found) found,
  used,
)

UsedIn-Change :
    (cfg : Settings) (h : Text) (s t : Store)
    → Change cfg s t
    → UsedIn h s.enrollments
    → UsedIn h t.enrollments
UsedIn-Change cfg h s t (keep a b c) v = rw c v
UsedIn-Change cfg h s t (add_user u new a b c) v = rw c v
UsedIn-Change cfg h s t (invite u e new issue a b c) v = rw c (UsedIn-issue h s e issue v)
UsedIn-Change cfg h s t (enroll k now p identity j a b c) v = rw c (UsedIn-consume h k now _ v)
UsedIn-Change cfg h s t (consume_where k now a b c) v = rw c (UsedIn-consume h k now _ v)
UsedIn-Change cfg h s t (disable u now found role a b c) v = rw c (UsedIn-withdraw h _ now _ v)
UsedIn-Change cfg h s t (open_session l x u o a b c) v = rw c v
UsedIn-Change cfg h s t (revoke_where p now a b c) v = rw c v
UsedIn-Change cfg h s t (touch_where p now a b c) v = rw c v

DeadIn-open :
    (h : Text) (xs : List Session) (x : Session)
    → find_token x.token_hash xs ≡ none
    → DeadIn h xs
    → DeadIn h (x ∷ xs)
unfolding find_token
DeadIn-open h xs x fresh (y, found, dead) =
    (y, rw (text_eq_of_miss (λ k. find_token k xs) x.token_hash h fresh found) found, dead)

pub DeadIn-revoke :
    (h : Text) (p : Session → Bool) (now : ℕ) (xs : List Session)
    → DeadIn h xs
    → DeadIn h (update_where p (revoke_at now) xs)
unfolding revoke_at
DeadIn-revoke h p now xs (x, found, dead) = (
  if p x then revoke_at now x else x,
  ground (arith, find_token-update_where p (revoke_at now) (λ u. refl) h xs),
  ground arith,
)

touched_keeps :
    (cfg : Settings) (now : ℕ) (x : Session)
    → ((touched cfg now x).token_hash ≡ x.token_hash)
      × ((touched cfg now x).revoked_at ≡ x.revoked_at)
unfolding touched touch
touched_keeps cfg now x = ground arith

DeadIn-touch :
    (cfg : Settings) (h : Text) (p : Session → Bool) (now : ℕ) (xs : List Session)
    → DeadIn h xs
    → DeadIn h (update_where p (touched cfg now) xs)
DeadIn-touch cfg h p now xs (x, found, dead) = (
  if p x then touched cfg now x else x,
  ground
      (arith, find_token-update_where p (touched cfg now) (λ u. (touched_keeps cfg now u).0) h xs),
  ground (arith, touched_keeps cfg now x),
)

DeadIn-Change :
    (cfg : Settings) (h : Text) (s t : Store)
    → Change cfg s t
    → DeadIn h s.sessions
    → DeadIn h t.sessions
DeadIn-Change cfg h s t (keep a b c) v = rw b v
DeadIn-Change cfg h s t (add_user u new a b c) v = rw b v
DeadIn-Change cfg h s t (invite u e new issue a b c) v = rw b v
DeadIn-Change cfg h s t (enroll k now p identity j a b c) v = rw b v
DeadIn-Change cfg h s t (consume_where k now a b c) v = rw b v
DeadIn-Change cfg h s t (disable u now found role a b c) v = rw b (DeadIn-revoke h _ now _ v)
DeadIn-Change cfg h s t (open_session l x u o a b c) v = rw b (DeadIn-open h _ x o.fresh v)
DeadIn-Change cfg h s t (revoke_where p now a b c) v = rw b (DeadIn-revoke h p now _ v)
DeadIn-Change cfg h s t (touch_where p now a b c) v = rw b (DeadIn-touch cfg h p now _ v)

-- A property of the store that every change keeps, kept by every history.
module _ {ℓ} (lib : Library) (cfg : Settings) (P : Store → Type ℓ)
    (keeps : (s t : Store) → Change cfg s t → P s → P t) where
  pub run_keeps : (cs : List Call) (s : Store) → P s → P (run lib cfg cs s)
  unfolding run
  run_keeps [] s h = h
  run_keeps (c ∷ cs) s h = run_keeps cs _ (keeps s _ (step-Change lib cfg c s) h)

module _ (lib : Library) (cfg : Settings) (cs : List Call) (s : Store) where
  pub RevokedIn-run : (i : ℕ) → RevokedIn i s.users → RevokedIn i (run lib cfg cs s).users
  RevokedIn-run i = run_keeps lib cfg _ (RevokedIn-Change cfg i) cs s

  pub UsedIn-run : (h : Text) → UsedIn h s.enrollments → UsedIn h (run lib cfg cs s).enrollments
  UsedIn-run h = run_keeps lib cfg _ (UsedIn-Change cfg h) cs s

  pub DeadIn-run : (h : Text) → DeadIn h s.sessions → DeadIn h (run lib cfg cs s).sessions
  DeadIn-run h = run_keeps lib cfg _ (DeadIn-Change cfg h) cs s
