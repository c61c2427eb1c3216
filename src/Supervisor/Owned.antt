-- ===== src/Supervisor/Owned.antt =====
-- services/supervisor.py: the processes that a stop ends are the component's own.
use xauusd_bot.Base.{
  ◌≡◌, refl, sym, ◌∙◌, ap, subst, Bool, true, false, ◌&&◌, ◌||◌, Option, none, some, List, [], ◌∷◌,
  Text, is_some, arith, Bool-cases, inl, inr, ◌⊎◌, false≢true, and_left, and_right,
}
use mathlib.Core.List.{Memᴰ}
use xauusd_bot.Supervisor.Types.{
  Pid, ProcessRecord, ProcessIdentity, Snapshot, Host, is_text, same_text, find_identity,
}
use xauusd_bot.Supervisor.Commands.{command_matches}
use xauusd_bot.Supervisor.Trees.{
  elem, add_pids, sorted_reverse, matching_descendants, still_holds, verified_pairs,
  verified_stored_pids,
}
use xauusd_bot.Supervisor.Descent.{Below, top}
use xauusd_bot.Supervisor.Reach.{eq_of_==, matching_descendants-Below}
use xauusd_bot.Supervisor.Pids.{elem-add_pid-cases, elem-add_pids, elem-sorted_reverse}
use xauusd_bot.Supervisor.Stop.{or_record_pid, owned_with, owned_by_pairs, owned_in}

or-cases : (a b : Bool) → a || b ≡ true → (a ≡ true) ⊎ (b ≡ true)
or-cases true b h = inl refl
or-cases false b h = inr h

or_left_false : (a b : Bool) → a || b ≡ false → a ≡ false
or_left_false true b h = h
or_left_false false b h = refl

module _ (host : Host) where
  -- A pid with its creation time in the record, that a process with this creation time has which
  -- runs the record's command.
  pub record IsStored (r : ProcessRecord) (snapshot : Snapshot) (p : Pid) : Type 0 where
    pub time : Option Text
    pub pair : Memᴰ (p, time) r.process_identities
    pub holds : still_holds host r.command time (find_identity p snapshot) ≡ true

  -- The process of the record's own pid runs its command and is as old as the record says.
  pub record IsRoot (r : ProcessRecord) (snapshot : Snapshot) (p : Pid) : Type 0 where
    pub identity : ProcessIdentity
    pub has_pid : r.pid ≡ some p
    pub found : find_identity p snapshot ≡ some identity
    pub runs_it : command_matches host identity.command_line r.command ≡ true
    pub known : is_text r.process_create_time ≡ true
    pub same_time : same_text identity.creation_time r.process_create_time ≡ true

  -- The processes that a stop may end: on Windows the verified tree of the record and its verified
  -- pairs, elsewhere the child that still runs.
  pub data IsOwned (r : ProcessRecord) (child : Option Pid) (snapshot : Snapshot) (p : Pid)
      : Type 0 where
    in_tree :
        {root : Pid}
        → host.is_windows ≡ true
        → IsRoot r snapshot root
        → Below host r.command snapshot root p
        → IsOwned r child snapshot p
    in_record : host.is_windows ≡ true → IsStored r snapshot p → IsOwned r child snapshot p
    as_child : host.is_windows ≡ false → child ≡ some p → IsOwned r child snapshot p

  IsStored-cases :
      (r : ProcessRecord) (q p : Pid) (time : Option Text) (snapshot : Snapshot) (rest : List Pid)
      → Memᴰ (q, time) r.process_identities
      → still_holds host r.command time (find_identity q snapshot) ≡ true
      → (elem p rest ≡ true → IsStored r snapshot p)
      → (q ≡ p) ⊎ (elem p rest ≡ true)
      → IsStored r snapshot p
  IsStored-cases r q p time snapshot rest m e later (inl same) =
      subst (λ x. IsStored r snapshot x) same (record { time = time; pair = m; holds = e })
  IsStored-cases r q p time snapshot rest m e later (inr held) = later held

  verified_pairs-IsStored :
      (r : ProcessRecord) (pairs : List (Pid × Option Text)) (snapshot : Snapshot) (p : Pid)
      → ((q : Pid × Option Text) → Memᴰ q pairs → Memᴰ q r.process_identities)
      → elem p (verified_pairs host r.command pairs snapshot) ≡ true
      → IsStored r snapshot p
  unfolding verified_pairs elem
  verified_pairs-IsStored r [] snapshot p within h = absurd (false≢true h)
  verified_pairs-IsStored r ((q, time) ∷ pairs) snapshot p within h =
      let later = verified_pairs-IsStored r pairs snapshot p (λ x m. within x (Memᴰ.tail m)) in
      elim (Bool-cases (still_holds host r.command time (find_identity q snapshot))) [
        | inl e ↦
            IsStored-cases r q p time snapshot _ (within (q, time) (Memᴰ.head refl)) e later
              (elem-add_pid-cases p q _ (rw e at h))
        | inr e ↦ later (rw e at h)
      ]

  verified_stored_pids-IsStored :
      (r : ProcessRecord) (snapshot : Snapshot) (p : Pid)
      → elem p (verified_stored_pids host r.command r snapshot) ≡ true
      → IsStored r snapshot p
  unfolding verified_stored_pids
  verified_stored_pids-IsStored r snapshot p h =
      verified_pairs-IsStored r r.process_identities snapshot p (λ q m. m) h

  or_record_pid-cases :
      (p x : Pid) (qs : List Pid)
      → elem x (or_record_pid p qs) ≡ true
      → (elem x qs ≡ true) ⊎ ((p ≡ x) × ((y : Pid) → elem y qs ≡ false))
  unfolding elem
  or_record_pid-cases p x [] h = inr (sym (eq_of_== x p (ground (arith, h))), λ y. refl)
  or_record_pid-cases p x (q ∷ qs) h = inl h

  -- The pids of owned_with are those that it is given and the stored ones, or the record's own.
  owned_with-cases :
      (r : ProcessRecord) (p x : Pid) (snapshot : Snapshot) (owned : List Pid)
      → elem x (owned_with host r p snapshot owned) ≡ true
      → ((elem x owned ≡ true) ⊎ IsStored r snapshot x)
        ⊎ ((p ≡ x) × ((y : Pid) → elem y owned ≡ false))
  unfolding owned_with
  owned_with-cases r p x snapshot owned h =
      let stored = verified_stored_pids host r.command r snapshot in
      let both : (y : Pid)
          → elem y (sorted_reverse (add_pids owned stored)) ≡ elem y owned || elem y stored =
        (λ y. elem-sorted_reverse y (add_pids owned stored) ∙ elem-add_pids y owned stored) in
      elim (or_record_pid-cases p x _ h) [
        | inl m ↦ elim (or-cases (elem x owned) (elem x stored) (sym (both x) ∙ m)) [
          | inl k ↦ inl (inl k)
          | inr k ↦ inl (inr (verified_stored_pids-IsStored r snapshot x k))
        ]
        | inr (e, never) ↦
            inr (e, λ y. or_left_false (elem y owned) (elem y stored) (sym (both y) ∙ never y))
      ]

  module _ (r : ProcessRecord) (kid : Option Pid) (snapshot : Snapshot) where
    unfoldable pub AreOwned : Option (List Pid) → Type 0
    AreOwned none = Unit
    AreOwned (some owned) = (x : Pid) → elem x owned ≡ true → IsOwned r kid snapshot x

    owned_by_pairs-AreOwned :
        (p : Pid) (owned : List Pid)
        → host.is_windows ≡ true
        → ((x : Pid) → elem x owned ≡ true → IsStored r snapshot x)
        → AreOwned (owned_by_pairs host r p snapshot owned)
    unfolding owned_by_pairs AreOwned elem
    owned_by_pairs-AreOwned p [] windows stored = tt
    owned_by_pairs-AreOwned p (q ∷ qs) windows stored = λ x h.
        elim (owned_with-cases r p x snapshot (q ∷ qs) h) [
          | inl (inl k) ↦ in_record windows (stored x k)
          | inl (inr k) ↦ in_record windows k
          | inr (e, never) ↦ absurd (ground (arith, never q))
        ]

    owned_with-AreOwned :
        (p x : Pid)
        → host.is_windows ≡ true
        → IsRoot r snapshot p
        → elem x (owned_with host r p snapshot (matching_descendants host r.command p snapshot))
          ≡ true
        → IsOwned r kid snapshot x
    owned_with-AreOwned p x windows root h =
        elim (owned_with-cases r p x snapshot (matching_descendants host r.command p snapshot) h) [
          | inl (inl k) ↦
              in_tree windows root ((matching_descendants-Below host r.command snapshot p x).0 k)
          | inl (inr k) ↦ in_record windows k
          | inr (e, never) ↦
              in_tree windows root
                (subst (λ y. Below host r.command snapshot p y) e (top (ap is_some root.found)))
        ]

    pub owned_in-AreOwned :
        (p : Pid) (found : Option ProcessIdentity)
        → host.is_windows ≡ true
        → r.pid ≡ some p
        → find_identity p snapshot ≡ found
        → AreOwned (owned_in host r p snapshot found)
    unfolding owned_in AreOwned
    owned_in-AreOwned p none windows at_pid e =
        owned_by_pairs-AreOwned p _ windows (verified_stored_pids-IsStored r snapshot)
    owned_in-AreOwned p (some i) windows at_pid e =
        elim (Bool-cases (command_matches host i.command_line r.command)) [
          | inr never ↦
              rw never
                (owned_by_pairs-AreOwned p _ windows (verified_stored_pids-IsStored r snapshot))
          | inl matched ↦
              elim (Bool-cases (
                is_text r.process_create_time && same_text i.creation_time r.process_create_time)) [
                  | inl same ↦
                      rw (matched, same)
                        (λ x. owned_with-AreOwned p x windows (record {
                          identity = i;
                          has_pid = at_pid;
                          found = e;
                          runs_it = matched;
                          known = and_left _ _ same;
                          same_time = and_right _ _ same;
                        }))
                  | inr differs ↦ rw (matched, differs) tt
                ]
        ]
