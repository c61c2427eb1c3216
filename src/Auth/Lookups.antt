-- ===== src/Auth/Lookups.antt =====
-- The lookups of the tables under an insertion and under an update.
use xauusd_bot.Base.{
  ℕ, ◌≡◌, refl, Bool, true, false, Option, none, some, List, [], ◌∷◌, Text, text_eq, text_eq→eq, ap,
  ◌∙◌, sym, none≢some, Bool-cases, inl, inr, if◌then◌else◌, arith,
}
use xauusd_bot.Auth.Types.{User, Session, Enrollment}
use xauusd_bot.Auth.Store.{find_user, find_token, find_secret, has_owner, update_where}

-- A key that a lookup misses differs from one that it finds.
pub text_eq_of_miss {ℓ} :
    {A : Type ℓ} (f : Text → Option A) (a h : Text) {x : A}
    → f a ≡ none
    → f h ≡ some x
    → text_eq a h ≡ false
text_eq_of_miss f a h miss found = elim (Bool-cases (text_eq a h)) [
  | inl e ↦ absurd (none≢some (sym miss ∙ ap f (text_eq→eq a h e) ∙ found))
  | inr e ↦ e
]

pub find_user-id : (i : ℕ) (us : List User) (u : User) → find_user i us ≡ some u → u.id ≡ i
unfolding find_user
find_user-id i [] u h = cc
find_user-id i (v ∷ us) u h = ground (arith, find_user-id i us u)

pub find_user_self :
    (i : ℕ) (us : List User) (u : User) → find_user i us ≡ some u → find_user u.id us ≡ some u
find_user_self i us u h = ap (λ j. find_user j us) (find_user-id i us u h) ∙ h

pub find_token-hash :
    (h : Text) (xs : List Session) (x : Session)
    → find_token h xs ≡ some x
    → text_eq x.token_hash h ≡ true
unfolding find_token
find_token-hash h [] x e = cc
find_token-hash h (y ∷ xs) x e = ground (arith, find_token-hash h xs x)

pub find_secret-hash :
    (h : Text) (xs : List Enrollment) (x : Enrollment)
    → find_secret h xs ≡ some x
    → text_eq x.token_hash h ≡ true
unfolding find_secret
find_secret-hash h [] x e = cc
find_secret-hash h (y ∷ xs) x e = ground (arith, find_secret-hash h xs x)

-- An update that keeps the ids finds the updated row.
module _ (p : User → Bool) (f : User → User) (keeps : (u : User) → (f u).id ≡ u.id) where
  abbrev pub updated_user : Option User → Option User
  updated_user none = none
  updated_user (some u) = some (if p u then f u else u)

  pub find_user-update_where :
      (i : ℕ) (us : List User) → find_user i (update_where p f us) ≡ updated_user (find_user i us)
  unfolding find_user update_where
  find_user-update_where i [] = refl
  find_user-update_where i (u ∷ us) = ground (arith, keeps u, find_user-update_where i us)

module _ (p : Session → Bool) (f : Session → Session)
    (keeps : (x : Session) → (f x).token_hash ≡ x.token_hash) where
  abbrev pub updated_session : Option Session → Option Session
  updated_session none = none
  updated_session (some x) = some (if p x then f x else x)

  pub find_token-update_where :
      (h : Text) (xs : List Session)
      → find_token h (update_where p f xs) ≡ updated_session (find_token h xs)
  unfolding find_token update_where
  find_token-update_where h [] = refl
  find_token-update_where h (x ∷ xs) = ground (arith, keeps x, find_token-update_where h xs)

module _ (p : Enrollment → Bool) (f : Enrollment → Enrollment)
    (keeps : (x : Enrollment) → (f x).token_hash ≡ x.token_hash) where
  abbrev pub updated_enrollment : Option Enrollment → Option Enrollment
  updated_enrollment none = none
  updated_enrollment (some x) = some (if p x then f x else x)

  pub find_secret-update_where :
      (h : Text) (xs : List Enrollment)
      → find_secret h (update_where p f xs) ≡ updated_enrollment (find_secret h xs)
  unfolding find_secret update_where
  find_secret-update_where h [] = refl
  find_secret-update_where h (x ∷ xs) = ground (arith, keeps x, find_secret-update_where h xs)

-- An update that keeps the roles keeps what is known of the OWNER.
pub has_owner-update_where :
    (p : User → Bool) (f : User → User)
    → ((u : User) → (f u).role ≡ u.role)
    → (us : List User) → has_owner (update_where p f us) ≡ has_owner us
unfolding has_owner update_where
has_owner-update_where p f keeps [] = refl
has_owner-update_where p f keeps (u ∷ us) =
    ground (arith, keeps u, has_owner-update_where p f keeps us)
