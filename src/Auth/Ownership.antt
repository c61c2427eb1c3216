-- ===== src/Auth/Ownership.antt =====
-- Who administers accounts, and that the OWNER stays.
use xauusd_bot.Base.{
  ℕ, ◌≡◌, refl, ap, Bool, true, false, Option, some, List, ◌∷◌, Text, ◌==◌, if◌then◌else◌, arith,
}
use xauusd_bot.Auth.Types.{User, Store, Settings, Library, is_owner, is_active, Role}
use xauusd_bot.Auth.Store.{
  Error, permission_error, value_error, Result, ok, err, Tx, ◌>>=◌, ◌>>◌, find_user, update_where,
  transaction,
}
use xauusd_bot.Auth.Accounts.{list_accounts, on_integrity, hashed}
use xauusd_bot.Auth.Enrollment.{
  InvitationDraw, invitation_block, create_invitation, is_activatable, activate,
}
use xauusd_bot.Auth.Administration.{
  set_revoked, disable_account, list_account_sessions, revoke_account_session,
  revoke_all_account_sessions,
}
use xauusd_bot.Auth.Calls.{Call, run}
use xauusd_bot.Auth.Changes.{
  Change, keep, add_user, invite, enroll, consume_where, disable, open_session, revoke_where,
  touch_where, IsNew,
}
use xauusd_bot.Auth.Authority.{IsOwner, owner_in_session_err}
use xauusd_bot.Auth.Lookups.{find_user-id, find_user-update_where}
use xauusd_bot.Auth.Revocation.{run_keeps}

-- The user with this id is an ACTIVE OWNER.
abbrev pub OwnerIn : ℕ → List User → Type 0
OwnerIn i us =
    (u : User) × (find_user i us ≡ some u) × (is_owner u.role ≡ true) × (is_active u.state ≡ true)

OwnerIn-add :
    (i : ℕ) (s : Store) (u : User) → IsNew s u → OwnerIn i s.users → OwnerIn i (u ∷ s.users)
unfolding find_user
OwnerIn-add i s u new (v, found, role, live) = (v, ground (arith, new.fresh), role, live)

OwnerIn-enroll :
    (i j now : ℕ) (h identity : Text) (us : List User)
    → OwnerIn i us
    → OwnerIn i (update_where (is_activatable j identity) (activate now h) us)
unfolding activate
OwnerIn-enroll i j now h identity us (v, found, role, live) = (
  if is_activatable j identity v then activate now h v else v,
  ground
      (arith, find_user-update_where (is_activatable j identity) (activate now h) (λ u. refl) i us),
  ground arith,
  ground arith,
)

OwnerIn-disable :
    (i now : ℕ) (w : User) (us : List User)
    → find_user w.id us ≡ some w
    → is_owner w.role ≡ false
    → OwnerIn i us
    → OwnerIn i (update_where (λ v. v.id == w.id) (set_revoked now) us)
unfolding set_revoked
OwnerIn-disable i now w us fw rw_ (v, found, role, live) = (
  v,
  ground (
    arith,
    find_user-id i us v found,
    find_user-update_where (λ v. v.id == w.id) (set_revoked now) (λ u. refl) i us,
  ),
  role,
  live,
)

OwnerIn-Change :
    (cfg : Settings) (i : ℕ) (s t : Store) → Change cfg s t → OwnerIn i s.users → OwnerIn i t.users
OwnerIn-Change cfg i s t (keep a b c) v = rw a v
OwnerIn-Change cfg i s t (add_user u new a b c) v = rw a (OwnerIn-add i s u new v)
OwnerIn-Change cfg i s t (invite u e new issue a b c) v = rw a (OwnerIn-add i s u new v)
OwnerIn-Change cfg i s t (enroll k now h identity j a b c) v =
    rw a (OwnerIn-enroll i j now h identity s.users v)
OwnerIn-Change cfg i s t (consume_where k now a b c) v = rw a v
OwnerIn-Change cfg i s t (disable u now found role a b c) v =
    rw a (OwnerIn-disable i now u s.users found role v)
OwnerIn-Change cfg i s t (open_session l x u o a b c) v = rw a v
OwnerIn-Change cfg i s t (revoke_where p now a b c) v = rw a v
OwnerIn-Change cfg i s t (touch_where p now a b c) v = rw a v

-- An ACTIVE OWNER is found under the same id as an ACTIVE OWNER after every history of calls: no
-- method disables, demotes or deletes it.
pub owner_stays :
    (lib : Library) (cfg : Settings) (cs : List Call) (s : Store) (i : ℕ)
    → OwnerIn i s.users
    → OwnerIn i (run lib cfg cs s).users
owner_stays lib cfg cs s i = run_keeps lib cfg _ (OwnerIn-Change cfg i) cs s

module _ {A B : Type 0} (m : Tx A) (s : Store) (e : Error) (fails : m s ≡ err e) where
  transaction-bind_err : (f : A → Tx B) → transaction (m >>= f) s ≡ (err e, s)
  unfolding transaction ◌>>=◌
  transaction-bind_err f = rw (fails, ◌>>=◌)

  transaction-then_err : (k : Tx B) → transaction (m >> k) s ≡ (err e, s)
  unfolding transaction ◌>>◌
  transaction-then_err k = rw (fails, ◌>>◌)

hashed_unchanged :
    {A : Type 0} (bad : Bool) (r : Result Text) (run : Text → Store → Result A × Store) (s : Store)
    → ((h : Text) → (run h s).1 ≡ s)
    → (hashed bad r run s).1 ≡ s
unfolding hashed
hashed_unchanged true r run s h = refl
hashed_unchanged false (ok p) run s h = h p
hashed_unchanged false (err x) run s h = refl

module _ (lib : Library) (s : Store) (actor : ℕ) (identity : Text)
    (stranger : (u : User) → ¬ IsOwner lib s actor identity u) where
  -- To anybody but the ACTIVE OWNER under its bound identity, listing the accounts, listing or
  -- revoking sessions and disabling an account answer with a permission error and change nothing,
  -- and an invitation changes nothing.
  pub only_owner_administers :
      (now target i : ℕ) (draw : InvitationDraw) (login : Text) (role : Option Role) (bound : Text)
      → (list_accounts lib actor identity s ≡ (err permission_error, s))
        × (list_account_sessions lib actor identity target s ≡ (err permission_error, s))
        × (disable_account lib now actor identity target s ≡ (err permission_error, s))
        × (revoke_account_session lib now actor identity target i s ≡ (err permission_error, s))
        × (revoke_all_account_sessions lib now actor identity target s ≡ (err permission_error, s))
        × ((create_invitation lib draw now actor identity login role bound s).1 ≡ s)
  unfolding list_accounts list_account_sessions disable_account revoke_account_session
      revoke_all_account_sessions create_invitation invitation_block
  only_owner_administers now target i draw login role bound =
      let refused = owner_in_session_err lib s actor identity stranger in
      (
        transaction-then_err _ s _ refused _,
        transaction-then_err _ s _ refused _,
        transaction-bind_err _ s _ refused _,
        transaction-bind_err _ s _ refused _,
        transaction-bind_err _ s _ refused _,
        hashed_unchanged _ _ _ s
            λ h. ap (λ r. (on_integrity value_error r).1) (transaction-bind_err _ s _ refused _),
      )
