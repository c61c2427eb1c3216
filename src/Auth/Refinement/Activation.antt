-- ===== src/Auth/Refinement/Activation.antt =====
-- `activate_enrollment` changes the tables in one of the ways of `Change`.
use xauusd_bot.Base.{ℕ, refl, Option, none, some, List, Text}
use xauusd_bot.Auth.Types.{User, Audit, Enrollment, Reason, Store, Settings, Library}
use xauusd_bot.Auth.Store.{Result, ok, err, update_where}
use xauusd_bot.Auth.Accounts.{audit}
use xauusd_bot.Auth.Enrollment.{
  activate_account, activate_checked, activation_refused, activation_decided, activation_block,
  activate_enrollment, record_enrollment_failure, is_consumable, is_activatable, consume, activate,
  activate_with,
}
use xauusd_bot.Auth.Changes.{Change, keep, enroll, consume_where}
use xauusd_bot.Auth.Blocks.{Ensures, block_rules}
use xauusd_bot.Auth.Refinement.{if-Change, transaction-Change}

module _ (lib : Library) (cfg : Settings) (s : Store) where
  enrolled :
      (i now : ℕ) (password_hash identity : Text) (j : ℕ) (audits : List Audit)
      → Change cfg s (record s {
        users = update_where (is_activatable j identity) (activate now password_hash) s.users;
        enrollments = update_where (is_consumable i now) (consume now) s.enrollments;
        audits = audits;
      })
  enrolled i now password_hash identity j audits =
      enroll i now password_hash identity j refl refl refl

  consumed :
      (i now : ℕ) (audits : List Audit)
      → Change cfg s (record s {
        enrollments = update_where (is_consumable i now) (consume now) s.enrollments;
        audits = audits;
      })
  consumed i now audits = consume_where i now refl refl refl

  activate_account-Change :
      (i now : ℕ) (password_hash identity : Text) (u : User)
      → Ensures
          (λ _ t. Change cfg s t)
          (activate_account now password_hash identity u)
          (record s {
            enrollments = update_where (is_consumable i now) (consume now) s.enrollments;
          })
  unfolding activate_account audit
  activate_account-Change i now password_hash identity u = search (block_rules, enrolled i) depth 14

  activate_checked-Change :
      (now : ℕ) (password_hash identity : Text) (e : Enrollment) (u : User)
      → Ensures (λ _ t. Change cfg s t) (activate_checked now password_hash identity e u) s
  unfolding activate_checked audit
  activate_checked-Change now password_hash identity e u =
      search (block_rules, consumed e.id, activate_account-Change) depth 12

  activation_refused-Change :
      (identity : Text) (user : Option User) (failure : Reason)
      → Ensures (λ _ t. Change cfg s t) (activation_refused identity user failure) s
  unfolding activation_refused audit
  activation_refused-Change identity user failure = search (block_rules, keep) depth 8

  activation_decided-Change :
      (now : ℕ) (password_hash identity : Text) (failure : Option Reason) (e : Option Enrollment)
      (user : Option User)
      → Ensures
          (λ _ t. Change cfg s t)
          (activation_decided now password_hash identity failure e user)
          s
  unfolding activation_decided
  activation_decided-Change now password_hash identity (some r) e user =
      activation_refused-Change identity user r
  activation_decided-Change now password_hash identity none (some e) (some u) =
      activate_checked-Change now password_hash identity e u
  activation_decided-Change now password_hash identity none (some e) none =
      activation_refused-Change identity none _
  activation_decided-Change now password_hash identity none none user =
      activation_refused-Change identity user _

  activation_block-Change :
      (now : ℕ) (secret password_hash identity : Text)
      → Ensures (λ _ t. Change cfg s t) (activation_block lib now secret password_hash identity) s
  unfolding activation_block
  activation_block-Change now secret password_hash identity =
      search (block_rules, activation_decided-Change) depth 8

  record_enrollment_failure-Change :
      (identity : Text) (failure : Reason)
      → Change cfg s (record_enrollment_failure identity failure s).1
  unfolding record_enrollment_failure audit
  record_enrollment_failure-Change identity failure =
      transaction-Change cfg _ s (search (block_rules, keep) depth 8)

  hash_result-Change :
      (r : Result Text) (now : ℕ) (secret identity : Text)
      → Change cfg s (activate_with lib now secret identity r s).1
  unfolding activate_with
  hash_result-Change (ok password_hash) now secret identity =
      transaction-Change cfg _ s (activation_block-Change now secret password_hash identity)
  hash_result-Change (err e) now secret identity = record_enrollment_failure-Change identity _

  pub activate_enrollment-Change :
      (salt now : ℕ) (secret password identity : Text)
      → Change cfg s (activate_enrollment lib salt now secret password identity s).1
  unfolding activate_enrollment
  activate_enrollment-Change salt now secret password identity =
      if-Change cfg _ _ _ (record_enrollment_failure-Change _ _) (hash_result-Change _ now secret _)
