-- ===== src/Auth/Authority.antt =====
-- Who may administer accounts: what `_owner_in_session` lets through.
use xauusd_bot.Base.{
  ℕ, ◌≡◌, refl, subst, sym, true, false, some, Text, text_eq, is_empty, arith, Option-cases,
  Bool-cases, inl, inr,
}
use xauusd_bot.Auth.Types.{is_owner, is_active, User, Store, Library}
use xauusd_bot.Auth.Store.{
  permission_error, err, Tx, ◌>>=◌, ◌>>◌, gets, or_raise, raise_if, pure, find_user,
}
use xauusd_bot.Auth.Accounts.{owner_in_session, is_unauthorized, normalize_login}
use xauusd_bot.Auth.Blocks.{
  Ensures, Ensures-gets, Ensures-or_raise, Ensures-raise_if, Ensures-pure, Ensures-bind,
  Ensures-then, Ensures-mono,
}

-- The account that `_owner_in_session` lets through.
pub record IsOwner (lib : Library) (s : Store) (actor_id : ℕ) (identity : Text) (u : User)
    : Type 0 where
  pub found : find_user actor_id s.users ≡ some u
  pub role : is_owner u.role ≡ true
  pub state : is_active u.state ≡ true
  pub named : is_empty (normalize_login lib identity) ≡ false
  pub bound : text_eq u.bound_tailscale_login (normalize_login lib identity) ≡ true

owner_in_session-IsOwner :
    (lib : Library) (s : Store) (actor_id : ℕ) (identity : Text)
    → Ensures
        (λ u t. IsOwner lib s actor_id identity u × (t ≡ s))
        (owner_in_session lib actor_id identity)
        s
unfolding owner_in_session is_unauthorized
owner_in_session-IsOwner lib s actor_id identity = Ensures-gets s _ _ (
    Ensures-or_raise s _ _ _ λ u found. Ensures-raise_if s _ _ _ λ checked. Ensures-pure s u (
      record {
        found = found;
        role = ground arith;
        state = ground arith;
        named = ground arith;
        bound = ground arith;
      },
      refl,
    ))

module _ {ℓ} {B : Type 0} {P : B → Store → Type ℓ} where
  pub Ensures-owner_in_session :
      (s : Store) (lib : Library) (actor_id : ℕ) (identity : Text) (f : User → Tx B)
      → ((u : User) → IsOwner lib s actor_id identity u → Ensures P (f u) s)
      → Ensures P (owner_in_session lib actor_id identity >>= f) s
  Ensures-owner_in_session s lib actor_id identity f h = Ensures-bind s _ f (
      Ensures-mono _ _ _ s (owner_in_session-IsOwner lib s actor_id identity)
        λ u t e. subst (λ t. Ensures P (f u) t) (sym e.1) (h u e.0))

  pub Ensures-owner_in_session_then :
      (s : Store) (lib : Library) (actor_id : ℕ) (identity : Text) (k : Tx B)
      → ((u : User) → IsOwner lib s actor_id identity u → Ensures P k s)
      → Ensures P (owner_in_session lib actor_id identity >> k) s
  Ensures-owner_in_session_then s lib actor_id identity k h = Ensures-then s _ k (
      Ensures-mono _ _ _ s (owner_in_session-IsOwner lib s actor_id identity)
        λ u t e. subst (λ t. Ensures P k t) (sym e.1) (h u e.0))

-- Everybody else is refused.
authorized-IsOwner :
    (lib : Library) (s : Store) (actor_id : ℕ) (identity : Text) (u : User)
    → find_user actor_id s.users ≡ some u
    → is_unauthorized (normalize_login lib identity) u ≡ false
    → IsOwner lib s actor_id identity u
unfolding is_unauthorized
authorized-IsOwner lib s actor_id identity u found h = record {
  found = found;
  role = ground arith;
  state = ground arith;
  named = ground arith;
  bound = ground arith;
}

pub owner_in_session_err :
    (lib : Library) (s : Store) (actor_id : ℕ) (identity : Text)
    → ((u : User) → ¬ IsOwner lib s actor_id identity u)
    → owner_in_session lib actor_id identity s ≡ err permission_error
unfolding owner_in_session ◌>>=◌ ◌>>◌ gets or_raise raise_if pure
owner_in_session_err lib s actor_id identity stranger =
    elim (Option-cases (find_user actor_id s.users)) [
      | inl e ↦ rw e refl
      | inr (u, e) ↦ elim (Bool-cases (is_unauthorized (normalize_login lib identity) u)) [
        | inl bad ↦ rw (e, bad) refl
        | inr good ↦ absurd (stranger u (authorized-IsOwner lib s actor_id identity u e good))
      ]
    ]
