-- ===== src/Auth/Invariant.antt =====
-- What holds of the tables between two calls.
use xauusd_bot.Base.{
  ℕ, ◌≤◌, ◌≡◌, refl, Bool, true, false, ◌&&◌, none, some, List, [], ◌∷◌, Text, ◌==◌, if◌then◌else◌,
  All, All-mono, arith, ap, ◌∙◌, Bool-cases, inl, inr,
}
use xauusd_bot.Auth.Types.{User, Session, Store, Settings, is_owner, is_active}
use xauusd_bot.Auth.Store.{find_user, find_login, has_owner, update_where}
use xauusd_bot.Auth.Enrollment.{is_activatable, activate}
use xauusd_bot.Auth.Sessions.{revoke_at, touched, touch, idle_expiry}
use xauusd_bot.Auth.Administration.{is_live_of, set_revoked}
use xauusd_bot.Auth.Changes.{
  Change, keep, add_user, invite, enroll, consume_where, disable, open_session, revoke_where,
  touch_where, IsNew, IsOpened,
}
use xauusd_bot.Auth.Lookups.{
  find_user-update_where, has_owner-update_where, find_user-id, updated_user,
}

-- No two users have one id, and at most one of them is the OWNER.
abbrev pub UniqueIds : List User → Type 0
UniqueIds [] = Unit {0}
UniqueIds (u ∷ us) = (find_user u.id us ≡ none) × UniqueIds us

abbrev pub OneOwner : List User → Type 0
OneOwner [] = Unit {0}
OneOwner (u ∷ us) = (is_owner u.role && has_owner us ≡ false) × OneOwner us

-- The user with this id is there and ACTIVE.
abbrev pub ActiveIn : List User → ℕ → Type 0
ActiveIn us i = (u : User) × (find_user i us ≡ some u) × (is_active u.state ≡ true)

-- A session never idles past its absolute expiry, and is revoked unless its user is ACTIVE.
pub record SessionIsValid (us : List User) (x : Session) : Type 0 where
  pub bounded : x.idle_expires_at ≤ x.absolute_expires_at
  pub owned : x.revoked_at ≡ none → ActiveIn us x.user_id

pub record TablesAreValid (us : List User) (xs : List Session) : Type 0 where
  pub ids : UniqueIds us
  pub owner : OneOwner us
  pub sessions : All (SessionIsValid us) xs

abbrev pub IsValid : Store → Type 0
IsValid s = TablesAreValid s.users s.sessions

module _ (p : User → Bool) (f : User → User) where
  UniqueIds-update_where :
      ((u : User) → (f u).id ≡ u.id)
      → (us : List User) → UniqueIds us
      → UniqueIds (update_where p f us)
  unfolding update_where
  UniqueIds-update_where keeps [] h = tt
  UniqueIds-update_where keeps (u ∷ us) h = ground (
    arith,
    keeps u,
    find_user-update_where p f keeps u.id us,
    UniqueIds-update_where keeps us h.1,
  )

  OneOwner-update_where :
      ((u : User) → (f u).role ≡ u.role)
      → (us : List User) → OneOwner us
      → OneOwner (update_where p f us)
  unfolding update_where
  OneOwner-update_where keeps [] h = tt
  OneOwner-update_where keeps (u ∷ us) h =
      ground
        (arith, keeps u, has_owner-update_where p f keeps us, OneOwner-update_where keeps us h.1)

-- A user found by name is found by id.
pub find_login-find_user :
    (l : Text) (us : List User) (u : User)
    → UniqueIds us
    → find_login l us ≡ some u
    → find_user u.id us ≡ some u
unfolding find_login find_user
find_login-find_user l [] u h e = cc
find_login-find_user l (v ∷ us) u h e = ground (arith, find_login-find_user l us u h.1)

pub All-update_where {κ μ} :
    {A : Type 0} (P : A → Type κ) (Q : A → Type μ) (p : A → Bool) (f : A → A)
    → ((x : A) → P x → p x ≡ true → Q (f x))
    → ((x : A) → P x → p x ≡ false → Q x)
    → (xs : List A) → All P xs
    → All Q (update_where p f xs)
unfolding update_where
All-update_where P Q p f h k [] a = tt
All-update_where P Q p f h k (x ∷ xs) a = elim (Bool-cases (p x)) [
  | inl e ↦ (rw e (h x a.0 e), All-update_where P Q p f h k xs a.1)
  | inr e ↦ (rw e (k x a.0 e), All-update_where P Q p f h k xs a.1)
]

ActiveIn-add :
    (u : User) (us : List User) (i : ℕ)
    → find_user u.id us ≡ none
    → ActiveIn us i
    → ActiveIn (u ∷ us) i
unfolding find_user
ActiveIn-add u us i fresh (v, found, live) = (v, ground (arith), live)

ActiveIn-enroll :
    (j now : ℕ) (password_hash identity : Text) (us : List User) (i : ℕ)
    → ActiveIn us i
    → ActiveIn (update_where (is_activatable j identity) (activate now password_hash) us) i
unfolding activate
ActiveIn-enroll j now password_hash identity us i (v, found, live) = (
  if is_activatable j identity v then activate now password_hash v else v,
  find_user-update_where _ _ (λ u. refl) i us ∙ ap (updated_user _ _ (λ u. refl)) found,
  ground arith,
)

-- Disabling another user leaves this one.
ActiveIn-disable :
    (j now : ℕ) (us : List User) (i : ℕ)
    → (i == j) ≡ false
    → ActiveIn us i
    → ActiveIn (update_where (λ v. v.id == j) (set_revoked now) us) i
unfolding set_revoked
ActiveIn-disable j now us i other (v, found, live) = (
  v,
  ground (
    arith,
    find_user-id i us v found,
    find_user-update_where (λ v. v.id == j) (set_revoked now) (λ u. refl) i us,
  ),
  live,
)

SessionIsValid-mono :
    (us vs : List User) (x : Session)
    → ((i : ℕ) → ActiveIn us i → ActiveIn vs i)
    → SessionIsValid us x
    → SessionIsValid vs x
SessionIsValid-mono us vs x h v = record {
  bounded = v.bounded;
  owned = λ e. h x.user_id (v.owned e);
}

sessions_mono :
    (us vs : List User) (xs : List Session)
    → ((i : ℕ) → ActiveIn us i → ActiveIn vs i)
    → All (SessionIsValid us) xs
    → All (SessionIsValid vs) xs
sessions_mono us vs xs h = All-mono _ _ xs (λ x. SessionIsValid-mono us vs x h)

revoke_at-IsValid :
    (us vs : List User) (now : ℕ) (x : Session)
    → SessionIsValid us x
    → SessionIsValid vs (revoke_at now x)
unfolding revoke_at
revoke_at-IsValid us vs now x v = record { bounded = v.bounded; owned = λ e. cc }

touched-IsValid :
    (cfg : Settings) (us : List User) (now : ℕ) (x : Session)
    → SessionIsValid us x
    → SessionIsValid us (touched cfg now x)
unfolding touched touch idle_expiry
touched-IsValid cfg us now x v = record {
  bounded = ground (arith, v.bounded);
  owned = λ e. ground (arith, v.owned);
}

-- A session of another user, or a dead one, when this user is disabled.
spared-IsValid :
    (j now : ℕ) (us : List User) (x : Session)
    → SessionIsValid us x
    → is_live_of j x ≡ false
    → SessionIsValid (update_where (λ v. v.id == j) (set_revoked now) us) x
unfolding is_live_of
spared-IsValid j now us x v dead = record {
  bounded = v.bounded;
  owned = λ e. ActiveIn-disable j now us x.user_id (ground arith) (v.owned e);
}

opened-IsValid :
    (cfg : Settings) (s : Store) (l : Text) (x : Session) (u : User)
    → UniqueIds s.users
    → IsOpened cfg s l x u
    → SessionIsValid s.users x
opened-IsValid cfg s l x u ids o = record {
  bounded = o.bounded;
  owned = λ _. (
    u,
    ap (λ i. find_user i s.users) o.user ∙ find_login-find_user l s.users u ids o.found,
    o.is_active_user,
  );
}

enrolled-IsValid :
    (j now : ℕ) (password_hash identity : Text) (us : List User) (xs : List Session)
    → TablesAreValid us xs
    → TablesAreValid (update_where (is_activatable j identity) (activate now password_hash) us) xs
unfolding activate
enrolled-IsValid j now password_hash identity us xs v = record {
  ids = UniqueIds-update_where _ _ (λ u. refl) us v.ids;
  owner = OneOwner-update_where _ _ (λ u. refl) us v.owner;
  sessions = sessions_mono us _ xs (ActiveIn-enroll j now password_hash identity us) v.sessions;
}

disabled-IsValid :
    (j now : ℕ) (us : List User) (xs : List Session)
    → TablesAreValid us xs
    → TablesAreValid
        (update_where (λ v. v.id == j) (set_revoked now) us)
        (update_where (is_live_of j) (revoke_at now) xs)
unfolding set_revoked
disabled-IsValid j now us xs v = record {
  ids = UniqueIds-update_where _ _ (λ u. refl) us v.ids;
  owner = OneOwner-update_where _ _ (λ u. refl) us v.owner;
  sessions =
      All-update_where _ _ _ _ (λ x vx _. revoke_at-IsValid us _ now x vx)
        (λ x vx e. spared-IsValid j now us x vx e) xs v.sessions;
}

added-IsValid :
    (s : Store) (u : User) → IsNew s u → IsValid s → TablesAreValid (u ∷ s.users) s.sessions
added-IsValid s u new v = record {
  ids = (new.fresh, v.ids);
  owner = (new.one_owner, v.owner);
  sessions =
      sessions_mono s.users _ s.sessions (λ i. ActiveIn-add u s.users i new.fresh) v.sessions;
}

-- Every change of the tables keeps the invariant.
pub Change-IsValid : (cfg : Settings) (s t : Store) → Change cfg s t → IsValid s → IsValid t
Change-IsValid cfg s t (keep a b c) v = rw (a, b) v
Change-IsValid cfg s t (add_user u new a b c) v = rw (a, b) (added-IsValid s u new v)
Change-IsValid cfg s t (invite u e new issue a b c) v = rw (a, b) (added-IsValid s u new v)
Change-IsValid cfg s t (enroll i now h identity j a b c) v =
    rw (a, b) (enrolled-IsValid j now h identity s.users s.sessions v)
Change-IsValid cfg s t (consume_where i now a b c) v = rw (a, b) v
Change-IsValid cfg s t (disable u now found role a b c) v =
    rw (a, b) (disabled-IsValid u.id now s.users s.sessions v)
Change-IsValid cfg s t (open_session l x u o a b c) v =
    rw (a, b)
      (record {
        ids = v.ids;
        owner = v.owner;
        sessions = (opened-IsValid cfg s l x u v.ids o, v.sessions);
      })
Change-IsValid cfg s t (revoke_where p now a b c) v =
    rw (a, b)
      (record {
        ids = v.ids;
        owner = v.owner;
        sessions =
            All-update_where _ _ _ _ (λ x vx _. revoke_at-IsValid s.users _ now x vx) (λ x vx _. vx)
              s.sessions v.sessions;
      })
Change-IsValid cfg s t (touch_where p now a b c) v =
    rw (a, b)
      (record {
        ids = v.ids;
        owner = v.owner;
        sessions =
            All-update_where _ _ _ _ (λ x vx _. touched-IsValid cfg s.users now x vx) (λ x vx _. vx)
              s.sessions v.sessions;
      })
