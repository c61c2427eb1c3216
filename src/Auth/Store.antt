-- ===== src/Auth/Store.antt =====
-- Sessions of persistence/database.py: a block commits as a whole or is rolled back, and the
-- unique constraints of persistence/orm.py are tested where a row is added.
use xauusd_bot.Base.{
  ℕ, ◌+◌, Bool, true, false, ◌&&◌, ◌||◌, Option, none, some, List, [], ◌∷◌, Text, text_eq, ◌==◌,
  if◌then◌else◌, is_some,
}
use xauusd_bot.Auth.Types.{User, Session, Enrollment, Audit, Store, is_owner}

pub data Error : Type 0 where
  value_error permission_error runtime_error lookup_error integrity_error : Error

pub data Result (A : Type 0) : Type 0 where
  ok : A → Result A
  err : Error → Result A

-- The body of `with self.database.session() as session`.
abbrev pub Tx : Type 0 → Type 0
Tx A = Store → Result (A × Store)

infixl 5 ◌>>=◌ ◌>>◌
unfoldable pub ◌>>=◌ : {A B : Type 0} → Tx A → (A → Tx B) → Tx B
◌>>=◌ m f s = elim (m s) [ ok (a, s') ↦ f a s' | err e ↦ err e ]

unfoldable pub ◌>>◌ : {A B : Type 0} → Tx A → Tx B → Tx B
◌>>◌ m k s = elim (m s) [ ok (_, s') ↦ k s' | err e ↦ err e ]

module _ {A : Type 0} where
  unfoldable pub pure : A → Tx A
  pure a s = ok (a, s)

  unfoldable pub gets : (Store → A) → Tx A
  gets f s = ok (f s, s)

  unfoldable pub or_raise : Option A → Error → Tx A
  or_raise none e s = err e
  or_raise (some a) e s = ok (a, s)

  -- What is left of a block that began at a store.
  abbrev pub commit : Store → Result (A × Store) → Result A × Store
  commit s (ok (a, t)) = (ok a, t)
  commit s (err e) = (err e, s)

  -- `Database.session`: an exception rolls the block back and leaves the function.
  unfoldable pub transaction : Tx A → Store → Result A × Store
  transaction m s = commit s (m s)

unfoldable pub raise_if : Bool → Error → Tx (Unit {0})
raise_if true e s = err e
raise_if false e s = ok (tt, s)

unfoldable pub modify : (Store → Store) → Tx (Unit {0})
modify f s = ok (tt, f s)

-- `session.get(AuthUserRecord, id)`
unfoldable pub find_user : ℕ → List User → Option User
find_user i [] = none
find_user i (u ∷ us) = if u.id == i then some u else find_user i us

-- `select(AuthUserRecord).where(normalized_login == …)`
unfoldable pub find_login : Text → List User → Option User
find_login l [] = none
find_login l (u ∷ us) = if text_eq u.normalized_login l then some u else find_login l us

-- `select(AuthUserRecord.id).where(role == OWNER).limit(1)`
unfoldable pub has_owner : List User → Bool
has_owner [] = false
has_owner (u ∷ us) = is_owner u.role || has_owner us

unfoldable pub find_session : ℕ → List Session → Option Session
find_session i [] = none
find_session i (x ∷ xs) = if x.id == i then some x else find_session i xs

-- `select(AuthSessionRecord).where(token_hash == …)`
unfoldable pub find_token : Text → List Session → Option Session
find_token h [] = none
find_token h (x ∷ xs) = if text_eq x.token_hash h then some x else find_token h xs

-- `select(AuthEnrollmentRecord).where(token_hash == …)`
unfoldable pub find_secret : Text → List Enrollment → Option Enrollment
find_secret h [] = none
find_secret h (x ∷ xs) = if text_eq x.token_hash h then some x else find_secret h xs

unfoldable pub has_enrollment : ℕ → List Enrollment → Bool
has_enrollment i [] = false
has_enrollment i (x ∷ xs) = x.id == i || has_enrollment i xs

-- The primary key, `uq_auth_users_normalized_login` and `uq_auth_users_single_owner`.
unfoldable pub user_clash : User → Store → Bool
user_clash u s =
    is_some (find_user u.id s.users)
    || (is_some (find_login u.normalized_login s.users) || (is_owner u.role && has_owner s.users))

unfoldable pub insert_user : User → Tx (Unit {0})
insert_user u s =
    if user_clash u s then err integrity_error else ok (tt, record s { users = u ∷ s.users })

-- The primary key and `uq_auth_sessions_token_hash`.
unfoldable pub session_clash : Session → Store → Bool
session_clash x s =
    is_some (find_session x.id s.sessions) || is_some (find_token x.token_hash s.sessions)

unfoldable pub insert_session : Session → Tx (Unit {0})
insert_session x s =
    if session_clash x s
    then err integrity_error
    else ok (tt, record s { sessions = x ∷ s.sessions })

-- The primary key and `uq_auth_enrollments_token_hash`.
unfoldable pub enrollment_clash : Enrollment → Store → Bool
enrollment_clash x s =
    has_enrollment x.id s.enrollments || is_some (find_secret x.token_hash s.enrollments)

unfoldable pub insert_enrollment : Enrollment → Tx (Unit {0})
insert_enrollment x s =
    if enrollment_clash x s
    then err integrity_error
    else ok (tt, record s { enrollments = x ∷ s.enrollments })

-- `session.add(AuthAuditRecord(…))`
unfoldable pub add_audit : Audit → Tx (Unit {0})
add_audit a s = ok (tt, record s { audits = a ∷ s.audits })

-- `update(…).where(p).values(…)`, and the `rowcount` that it reports.
module _ {A : Type 0} where
  unfoldable pub update_where : (A → Bool) → (A → A) → List A → List A
  update_where p f [] = []
  update_where p f (x ∷ xs) = (if p x then f x else x) ∷ update_where p f xs

  unfoldable pub count_where : (A → Bool) → List A → ℕ
  count_where p [] = 0
  count_where p (x ∷ xs) = (if p x then 1 else 0) + count_where p xs

  unfoldable pub select_where : (A → Bool) → List A → List A
  select_where p [] = []
  select_where p (x ∷ xs) = let rest = select_where p xs in if p x then x ∷ rest else rest

  -- `order_by`, by a test that says whether the first may stand before the second.
  unfoldable pub insert_by : (A → A → Bool) → A → List A → List A
  insert_by le x [] = x ∷ []
  insert_by le x (y ∷ ys) = if le x y then x ∷ y ∷ ys else y ∷ insert_by le x ys

  unfoldable pub order_by : (A → A → Bool) → List A → List A
  order_by le [] = []
  order_by le (x ∷ xs) = insert_by le x (order_by le xs)
