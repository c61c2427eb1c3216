-- ===== src/Auth/Secrets.antt =====
-- An enrollment secret is good for one activation, and the account it activates can log in.
use xauusd_bot.Base.{
  ℕ, ◌≡◌, ◌≢◌, refl, sym, subst, Bool, true, false, Option, none, some, List, Text, is_some, arith,
  false≢true,
}
use xauusd_bot.Auth.Types.{
  User, Enrollment, Reason, enrollment_already_used, Store, Settings, Library,
}
use xauusd_bot.Auth.Store.{Result, ok, err, find_secret, update_where}
use xauusd_bot.Auth.Accounts.{token_digest, audit}
use xauusd_bot.Auth.Enrollment.{
  is_consumable, consume, activate_account, activate_checked, activation_refused,
  activation_decided, activation_block, activate_with, activate_enrollment,
  record_enrollment_failure, activation_failure,
}
use xauusd_bot.Auth.Calls.{Call, run}
use xauusd_bot.Auth.Blocks.{
  Ensures, Ensures-gets, Ensures-mono, block_rules, transaction_ok, if_returns,
}
use xauusd_bot.Auth.Lookups.{find_secret-update_where}
use xauusd_bot.Auth.Revocation.{UsedIn, UsedIn-run}

-- Of a result: an activation that succeeded has used the secret up.
abbrev UsedIf : Text → Bool → Store → Type 0
UsedIf h r t = r ≡ true → UsedIn h t.enrollments

false_uses : (h : Text) (t : Store) → UsedIf h false t
false_uses h t e = cc

consumed_uses :
    (h : Text) (now : ℕ) (e : Enrollment) (es : List Enrollment)
    → find_secret h es ≡ some e
    → is_consumable e.id now e ≡ true
    → UsedIn h (update_where (is_consumable e.id now) (consume now) es)
unfolding consume
consumed_uses h now e es found open_ = (
  consume now e,
  ground (arith, find_secret-update_where (is_consumable e.id now) (consume now) (λ x. refl) h es),
  refl,
)

-- An enrollment that nothing speaks against is one that the update consumes.
failure-consumable :
    (now : ℕ) (identity : Text) (e : Enrollment) (user : Option User)
    → activation_failure now identity (some e) user ≡ none
    → is_consumable e.id now e ≡ true
unfolding activation_failure is_consumable
failure-consumable now identity e user h = ground arith

used-failure :
    (now : ℕ) (identity : Text) (e : Enrollment) (user : Option User)
    → is_some e.consumed_at ≡ true
    → activation_failure now identity (some e) user ≡ some enrollment_already_used
unfolding activation_failure
used-failure now identity e user h = ground arith

module _ (h : Text) (now : ℕ) (password_hash identity : Text) where
  activate_account-uses :
      (t : Store) (u : User)
      → UsedIn h t.enrollments
      → Ensures (UsedIf h) (activate_account now password_hash identity u) t
  unfolding activate_account audit
  activate_account-uses t u used =
      let kept : UsedIf h true t = λ _. used in search (block_rules, kept) depth 14

  activate_checked-uses :
      (s : Store) (e : Enrollment) (u : User)
      → find_secret h s.enrollments ≡ some e
      → is_consumable e.id now e ≡ true
      → Ensures (UsedIf h) (activate_checked now password_hash identity e u) s
  unfolding activate_checked audit
  activate_checked-uses s e u found open_ =
      search
        (
          block_rules,
          false_uses,
          activate_account-uses,
          consumed_uses h now e s.enrollments found open_,
        )
        depth 12

  activation_refused-uses :
      (s : Store) (user : Option User) (r : Reason)
      → Ensures (λ b _. b ≡ false) (activation_refused identity user r) s
  unfolding activation_refused audit
  activation_refused-uses s user r = search block_rules depth 8

  refused_uses :
      (s : Store) (user : Option User) (r : Reason)
      → Ensures (UsedIf h) (activation_refused identity user r) s
  refused_uses s user r = Ensures-mono _ _ _ s (activation_refused-uses s user r) λ b t e f. cc

  activation_decided-uses :
      (s : Store) (r : Option Reason) (e : Option Enrollment) (user : Option User)
      → find_secret h s.enrollments ≡ e
      → activation_failure now identity e user ≡ r
      → Ensures (UsedIf h) (activation_decided now password_hash identity r e user) s
  unfolding activation_decided
  activation_decided-uses s (some r) e user fe fr = refused_uses s user r
  activation_decided-uses s none (some e) (some u) fe fr =
      activate_checked-uses s e u fe (failure-consumable now identity e (some u) fr)
  activation_decided-uses s none (some e) none fe fr = refused_uses s none _
  activation_decided-uses s none none user fe fr = refused_uses s user _

pub recorded_refuses :
    (s : Store) (identity : Text) (r : Reason)
    → (record_enrollment_failure identity r s).0 ≢ ok true
unfolding record_enrollment_failure audit
recorded_refuses s identity r h =
    transaction_ok (λ b _. b ≡ true → ⊥) _ s true h (search (block_rules, false≢true) depth 8) refl

module _ (lib : Library) (salt now : ℕ) (secret password identity : Text) where
  activate_with-uses :
      (s : Store) (who : Text) (r : Result Text)
      → (activate_with lib now secret who r s).0 ≡ ok true
      → UsedIn (token_digest lib secret) (activate_with lib now secret who r s).1.enrollments
  unfolding activate_with activation_block
  activate_with-uses s who (ok p) e =
      transaction_ok (UsedIf (token_digest lib secret)) _ s true e
        (Ensures-gets s _ _
          (Ensures-gets s _ _ (activation_decided-uses _ now p who s _ _ _ refl refl)))
        refl
  activate_with-uses s who (err x) e = absurd (recorded_refuses s who _ e)

  activation-UsedIn :
      (s : Store)
      → (activate_enrollment lib salt now secret password identity s).0 ≡ ok true
      → UsedIn
          (token_digest lib secret)
          (activate_enrollment lib salt now secret password identity s).1.enrollments
  unfolding activate_enrollment
  activation-UsedIn s e =
      let (_, returned, same) = if_returns _ _ _ _ e (recorded_refuses s _ _) in
      subst (λ r. UsedIn (token_digest lib secret) r.1.enrollments) (sym same)
        (activate_with-uses s _ _ returned)

  activate_with-refuses :
      (s : Store) (who : Text) (r : Result Text)
      → UsedIn (token_digest lib secret) s.enrollments
      → (activate_with lib now secret who r s).0 ≢ ok true
  unfolding activate_with activation_block activation_decided
  activate_with-refuses s who (ok p) (e, found, used) h =
      transaction_ok (λ b _. b ≡ true → ⊥) _ s true h
        (Ensures-gets s _ _ (
          Ensures-gets s _ _ (
            rw (found, used-failure now who e _ used)
              (Ensures-mono _ _ _ s
                (activation_refused-uses (token_digest lib secret) now p who s _ _)
                λ b t f g. cc))))
        refl
  activate_with-refuses s who (err x) used h = recorded_refuses s who _ h

  activation_refused_again :
      (s : Store)
      → UsedIn (token_digest lib secret) s.enrollments
      → (activate_enrollment lib salt now secret password identity s).0 ≢ ok true
  unfolding activate_enrollment
  activation_refused_again s used e =
      let (_, returned, _) = if_returns _ _ _ _ e (recorded_refuses s _ _) in
      activate_with-refuses s _ _ used returned

-- A secret that has activated an account never activates one again, whatever calls lie between and
-- whoever presents it with whatever password.
pub secret_single_use :
    (lib : Library) (cfg : Settings) (cs : List Call) (s : Store) (salt now salt' later : ℕ)
    (secret password identity password' identity' : Text)
    → (activate_enrollment lib salt now secret password identity s).0 ≡ ok true
    → let t = run lib cfg cs (activate_enrollment lib salt now secret password identity s).1 in
      (activate_enrollment lib salt' later secret password' identity' t).0 ≢ ok true
secret_single_use lib cfg cs s salt now salt' later secret password identity password' identity' e =
    activation_refused_again lib salt' later secret password' identity' _
      (UsedIn-run lib cfg cs _ _ (activation-UsedIn lib salt now secret password identity s e))
