-- ===== src/Auth/Safety.antt =====
-- What a client may rely on over every history of calls: accounts.
use xauusd_bot.Base.{
  ℕ, ◌≡◌, ◌≢◌, refl, ap, sym, ◌∙◌, true, Option, some, List, Text, ◌==◌, arith, some-injective,
  and_left,
}
use xauusd_bot.Auth.Types.{User, Store, Settings, Library, is_active, is_revoked}
use xauusd_bot.Auth.Store.{ok, find_user}
use xauusd_bot.Auth.Sessions.{AuthenticatedUser, authenticated_user, authenticate, is_admissible}
use xauusd_bot.Auth.Administration.{disable_account, set_revoked}
use xauusd_bot.Auth.Calls.{Call, run, empty_store}
use xauusd_bot.Auth.Blocks.{
  Ensures-pure, Ensures-gets, Ensures-or_raise, Ensures-raise_if, Ensures-if, transaction_ok,
}
use xauusd_bot.Auth.Authority.{Ensures-owner_in_session}
use xauusd_bot.Auth.Lookups.{find_user-id, find_user-update_where}
use xauusd_bot.Auth.Refinement.Administration.{Ensures-disable_target}
use xauusd_bot.Auth.Invariant.{IsValid, Change-IsValid}
use xauusd_bot.Auth.Revocation.{RevokedIn, RevokedIn-run, run_keeps}
use xauusd_bot.Auth.Outcomes.{authenticate_ok, Grants}

-- From an empty database, every history of calls leaves unique user ids, at most one OWNER, and
-- every session that is not revoked bound to an ACTIVE user and idling no later than its absolute
-- expiry.
pub run-IsValid :
    (lib : Library) (cfg : Settings) (cs : List Call) → IsValid (run lib cfg cs empty_store)
unfolding empty_store
run-IsValid lib cfg cs =
    run_keeps lib cfg IsValid (Change-IsValid cfg) cs empty_store
      (record { ids = tt; owner = tt; sessions = tt })

alive_or_dead : (v : User) → is_active v.state ≡ true → is_revoked v.state ≡ true → ⊥
alive_or_dead v h k = ground arith

RevokedIn-Grants :
    (cfg : Settings) (t : Store) (now : ℕ) (identity h : Text) (i : ℕ) (a : AuthenticatedUser)
    → RevokedIn i t.users
    → Grants cfg t now identity h a
    → a.id ≢ i
unfolding authenticated_user is_admissible
RevokedIn-Grants cfg t now identity h i a (u, found, dead) g same =
    let x = g.session in
    let v = g.user in
    let owner : x.user_id ≡ i =
      sym (find_user-id x.user_id t.users v g.found_user) ∙ sym (ap (λ b. b.id) g.answer) ∙ same in
    let one : v ≡ u =
      some-injective (sym g.found_user ∙ ap (λ j. find_user j t.users) owner ∙ found) in
    alive_or_dead v (and_left _ _ g.admissible) (ap (λ w. is_revoked w.state) one ∙ dead)

module _ (lib : Library) (s : Store) (now actor : ℕ) (identity : Text) (target : ℕ) where
  disable_account-RevokedIn :
      (disable_account lib now actor identity target s).0 ≡ ok tt
      → RevokedIn target (disable_account lib now actor identity target s).1.users
  unfolding disable_account set_revoked
  disable_account-RevokedIn e =
      transaction_ok (λ _ t. RevokedIn target t.users) _ s tt e
        (Ensures-owner_in_session s lib actor identity _ λ a _. Ensures-gets s _ _ (
          Ensures-or_raise s _ _ _ λ u found. Ensures-raise_if s _ _ _ λ _.
            Ensures-if s _ _ _ (λ dead. Ensures-pure s tt (u, found, dead))
              λ _. Ensures-disable_target _ s now a u λ _. (
                set_revoked now u,
                ground (
                  arith,
                  find_user-id target s.users u found,
                  find_user-update_where (λ v. v.id == u.id) (set_revoked now) (λ v. refl) target
                      s.users,
                ),
                refl,
              )))

  -- Once an account is disabled, no cookie is ever again accepted as that account, whatever calls
  -- follow.
  pub disabled_never_authenticates :
      (cfg : Settings) (cs : List Call) (later : ℕ) (token : Option Text) (who : Text)
      (a : AuthenticatedUser)
      → (disable_account lib now actor identity target s).0 ≡ ok tt
      → (authenticate lib cfg later token who
          (run lib cfg cs (disable_account lib now actor identity target s).1)).0
        ≡ ok (some a)
      → a.id ≢ target
  disabled_never_authenticates cfg cs later token who a disabled accepted =
      RevokedIn-Grants cfg _ later _ _ target a
        (RevokedIn-run lib cfg cs _ target (disable_account-RevokedIn disabled))
        (authenticate_ok lib cfg later token who _ a accepted)
