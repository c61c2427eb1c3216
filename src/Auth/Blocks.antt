-- ===== src/Auth/Blocks.antt =====
-- What a block has done when it does not raise: one rule for each kind of step in it.
use xauusd_bot.Base.{
  ◌≡◌, refl, subst, Bool, true, false, Option, none, some, ◌∷◌, if◌then◌else◌, arith,
}
use xauusd_bot.Auth.Types.{User, Session, Enrollment, Audit, Store}
use xauusd_bot.Auth.Store.{
  Error, integrity_error, Result, ok, err, Tx, ◌>>=◌, ◌>>◌, pure, gets, modify, or_raise, raise_if,
  find_token, find_secret, commit, transaction, user_clash, session_clash, enrollment_clash,
  insert_user, insert_session, insert_enrollment, add_audit,
}
use xauusd_bot.Auth.Accounts.{on_integrity}
use xauusd_bot.Auth.Changes.{IsNew}

pub ok-injective : {A : Type 0} {a b : A} → ok a ≡ ok b → a ≡ b
ok-injective h = cc

ok≢err : {A : Type 0} {a : A} {e : Error} → err e ≡ ok a → ⊥
ok≢err h = cc

abbrev pub Holds {ℓ} : {A : Type 0} → (A → Store → Type ℓ) → Result (A × Store) → Type ℓ
Holds P (ok (a, t)) = P a t
Holds P (err e) = Unit

-- `P` holds of the value and the store of the block `m` begun at `s`, unless it raises.
pub record Ensures {ℓ} {A : Type 0} (P : A → Store → Type ℓ) (m : Tx A) (s : Store) : Type ℓ where
  pub at : Holds P (m s)

user_clash-IsNew : (u : User) (s : Store) → user_clash u s ≡ false → IsNew s u
unfolding user_clash
user_clash-IsNew u s h = record { fresh = ground arith; one_owner = ground arith }

session_clash-fresh :
    (x : Session) (s : Store)
    → session_clash x s ≡ false
    → find_token x.token_hash s.sessions ≡ none
unfolding session_clash
session_clash-fresh x s h = ground arith

enrollment_clash-fresh :
    (x : Enrollment) (s : Store)
    → enrollment_clash x s ≡ false
    → find_secret x.token_hash s.enrollments ≡ none
unfolding enrollment_clash
enrollment_clash-fresh x s h = ground arith

module _ {ℓ} {B : Type 0} {P : B → Store → Type ℓ} where
  pub Ensures-pure : (s : Store) (b : B) → P b s → Ensures P (pure b) s
  unfolding pure
  Ensures-pure s b h = record { at = h }

  pub Ensures-raise_if :
      (s : Store) (b : Bool) (e : Error) (k : Tx B)
      → (b ≡ false → Ensures P k s)
      → Ensures P (raise_if b e >> k) s
  unfolding raise_if ◌>>◌
  Ensures-raise_if s true e k h = record { at = tt }
  Ensures-raise_if s false e k h = record { at = (h refl).at }

  pub Ensures-or_raise :
      {A : Type 0} (s : Store) (o : Option A) (e : Error) (f : A → Tx B)
      → ((a : A) → o ≡ some a → Ensures P (f a) s)
      → Ensures P (or_raise o e >>= f) s
  unfolding or_raise ◌>>=◌
  Ensures-or_raise s none e f h = record { at = tt }
  Ensures-or_raise s (some a) e f h = record { at = (h a refl).at }

  pub Ensures-gets :
      {A : Type 0} (s : Store) (g : Store → A) (f : A → Tx B)
      → Ensures P (f (g s)) s
      → Ensures P (gets g >>= f) s
  unfolding gets ◌>>=◌
  Ensures-gets s g f h = record { at = h.at }

  pub Ensures-read : (s : Store) (g : Store → B) → P (g s) s → Ensures P (gets g) s
  unfolding gets
  Ensures-read s g h = record { at = h }

  pub Ensures-modify :
      (s : Store) (g : Store → Store) (k : Tx B) → Ensures P k (g s) → Ensures P (modify g >> k) s
  unfolding modify ◌>>◌
  Ensures-modify s g k h = record { at = h.at }

  pub Ensures-if :
      (s : Store) (b : Bool) (m n : Tx B)
      → (b ≡ true → Ensures P m s)
      → (b ≡ false → Ensures P n s)
      → Ensures P (if b then m else n) s
  Ensures-if s true m n h k = h refl
  Ensures-if s false m n h k = k refl

  Ensures-guard :
      (s t : Store) (b : Bool) (m : Tx (Unit {0})) (k : Tx B)
      → m s ≡ (if b then err integrity_error else ok (tt, t))
      → (b ≡ false → Ensures P k t)
      → Ensures P (m >> k) s
  unfolding ◌>>◌
  Ensures-guard s t true m k e h = record { at = rw (e, ◌>>◌) tt }
  Ensures-guard s t false m k e h = record { at = rw (e, ◌>>◌) (h refl).at }

  pub Ensures-insert_user :
      (s : Store) (u : User) (k : Tx B)
      → (IsNew s u → Ensures P k (record s { users = u ∷ s.users }))
      → Ensures P (insert_user u >> k) s
  unfolding insert_user
  Ensures-insert_user s u k h =
      Ensures-guard s _ (user_clash u s) (insert_user u) k refl (λ e. h (user_clash-IsNew u s e))

  pub Ensures-insert_session :
      (s : Store) (x : Session) (k : Tx B)
      → (find_token x.token_hash s.sessions ≡ none
          → Ensures P k (record s { sessions = x ∷ s.sessions }))
      → Ensures P (insert_session x >> k) s
  unfolding insert_session
  Ensures-insert_session s x k h =
      Ensures-guard s _ (session_clash x s) (insert_session x) k refl
        (λ e. h (session_clash-fresh x s e))

  pub Ensures-insert_enrollment :
      (s : Store) (x : Enrollment) (k : Tx B)
      → (find_secret x.token_hash s.enrollments ≡ none
          → Ensures P k (record s { enrollments = x ∷ s.enrollments }))
      → Ensures P (insert_enrollment x >> k) s
  unfolding insert_enrollment
  Ensures-insert_enrollment s x k h =
      Ensures-guard s _ (enrollment_clash x s) (insert_enrollment x) k refl
        (λ e. h (enrollment_clash-fresh x s e))

  -- The audit trail grows, and the three tables stay.
  pub Ensures-add_audit :
      (s : Store) (a : Audit) (k : Tx B)
      → Ensures P k (record s { audits = a ∷ s.audits })
      → Ensures P (add_audit a >> k) s
  unfolding add_audit ◌>>◌
  Ensures-add_audit s a k h = record { at = h.at }

module _ {ℓ} {P : Unit {0} → Store → Type ℓ} where
  pub Ensures-add_audit_last :
      (s : Store) (a : Audit)
      → P tt (record s { audits = a ∷ s.audits })
      → Ensures P (add_audit a) s
  unfolding add_audit
  Ensures-add_audit_last s a h = record { at = h }

-- A block inside a block: what it ensures is that the rest ensures `P`.
module _ {ℓ} {A B : Type 0} {P : B → Store → Type ℓ} where
  pub Ensures-bind :
      (s : Store) (m : Tx A) (f : A → Tx B)
      → Ensures (λ a t. Ensures P (f a) t) m s
      → Ensures P (m >>= f) s
  unfolding ◌>>=◌
  Ensures-bind s m f h = record { at = go (m s) h.at }
    where
      go :
          (r : Result (A × Store))
          → Holds (λ a t. Ensures P (f a) t) r
          → Holds P (elim r as (λ _. Result (B × Store)) [ ok (a, t) ↦ f a t | err e ↦ err e ])
      go (ok (a, t)) e = e.at
      go (err x) e = tt

  pub Ensures-then :
      (s : Store) (m : Tx A) (k : Tx B) → Ensures (λ _ t. Ensures P k t) m s → Ensures P (m >> k) s
  unfolding ◌>>◌
  Ensures-then s m k h = record { at = go (m s) h.at }
    where
      go :
          (r : Result (A × Store))
          → Holds (λ _ t. Ensures P k t) r
          → Holds P (elim r as (λ _. Result (B × Store)) [ ok (_, t) ↦ k t | err e ↦ err e ])
      go (ok (a, t)) e = e.at
      go (err x) e = tt

pub Ensures-mono {ℓ κ} :
    {A : Type 0} (P : A → Store → Type ℓ) (Q : A → Store → Type κ) (m : Tx A) (s : Store)
    → Ensures P m s
    → ((a : A) (t : Store) → P a t → Q a t)
    → Ensures Q m s
Ensures-mono {A} P Q m s h k = record { at = go (m s) h.at }
  where
    go : (r : Result (A × Store)) → Holds P r → Holds Q r
    go (ok (a, t)) e = k a t e
    go (err x) e = tt

-- A committed block leaves a store of which its postcondition holds, or the old one.
pub commit_lem {ℓ} :
    {A : Type 0} (Q : Store → Type ℓ) (m : Tx A) (s : Store)
    → Q s
    → Ensures (λ _ t. Q t) m s
    → Q (transaction m s).1
unfolding transaction
commit_lem {A} Q m s same h = go (m s) h.at
  where
    go : (r : Result (A × Store)) → Holds (λ _ t. Q t) r → Q (commit s r).1
    go (ok (a, t)) e = e
    go (err x) e = same

-- A method that returns has done what its block ensures.
pub transaction_ok {ℓ} :
    {A : Type 0} (P : A → Store → Type ℓ) (m : Tx A) (s : Store) (a : A)
    → (transaction m s).0 ≡ ok a
    → Ensures P m s
    → P a (transaction m s).1
unfolding transaction
transaction_ok {A} P m s a e h = go (m s) e h.at
  where
    go : (r : Result (A × Store)) → (commit s r).0 ≡ ok a → Holds P r → P a (commit s r).1
    go (ok (b, t)) e h = subst (λ c. P c t) (cc) h
    go (err x) e h = absurd (ok≢err e)

-- A method that returns a value which its early return does not.
pub if_returns :
    {A : Type 0} (b : Bool) (x y : Result A × Store) (r : Result A)
    → (if◌then◌else◌ {A = Result A × Store} b x y).0 ≡ r
    → (x.0 ≡ r → ⊥)
    → (b ≡ false) × (y.0 ≡ r) × (if◌then◌else◌ {A = Result A × Store} b x y ≡ y)
if_returns true x y r e h = absurd (h e)
if_returns false x y r e h = (refl, e, refl)

pub on_integrity_lem : {A : Type 0} (e : Error) (r : Result A × Store) → (on_integrity e r).1 ≡ r.1
on_integrity_lem e r = ground arith

pub ruleset block_rules = (
  Ensures-pure, Ensures-raise_if, Ensures-or_raise, Ensures-gets, Ensures-read, Ensures-modify,
  Ensures-if, Ensures-insert_user, Ensures-insert_session, Ensures-insert_enrollment,
  Ensures-add_audit, Ensures-add_audit_last,
)
