-- ===== src/Supervisor/Reach.antt =====
-- services/supervisor.py: `_matching_descendants` against the tree of processes that a snapshot
-- describes.
use xauusd_bot.Base.{
  ℕ, zero, suc, ◌<◌, ◌≡◌, refl, sym, subst, Bool, true, false, Option, none, some, List, [], ◌∷◌,
  Text, length, ◌==◌, is_some, All, arith, Bool-cases, inl, inr, ◌↔◌, ◌⊎◌,
}
use mathlib.Core.List.{Memᴰ}
use mathlib.Core.List.Memᴰ
use xauusd_bot.Supervisor.Types.{Pid, ProcessIdentity, Snapshot, Host, find_identity}
use xauusd_bot.Supervisor.Trees.{
  elem, parent_in, joins, sweep, sweeps, starting_set, matching_descendants,
}
use xauusd_bot.Supervisor.Descent.{
  outside, outside-length, IsWithin, Below, top, child, IsClosed, sweep_grows, sweeps-IsClosed,
  sweeps_enough,
}

pub eq_of_== : (p q : Pid) → p == q ≡ true → p ≡ q
eq_of_== p q h = ground (arith, h)

-- A pid that is in a set with one more.
elem-cases : (p q : Pid) (qs : List Pid) → elem p (q ∷ qs) ≡ true → (q ≡ p) ⊎ (elem p qs ≡ true)
unfolding elem
elem-cases p q qs h = ground (arith, h)

parent_in-some :
    (o : Option Pid) (ps : List Pid)
    → parent_in o ps ≡ true
    → (p : Pid) × (o ≡ some p) × (elem p ps ≡ true)
unfolding parent_in
parent_in-some none ps h = absurd (cc)
parent_in-some (some p) ps h = (p, refl, h)

module _ (P : ProcessIdentity → Type 0) where
  All-Memᴰ : (is : Snapshot) (i : ProcessIdentity) → All P is → Memᴰ i is → P i
  All-Memᴰ [] i a m = absurd (Memᴰ.not-nil m)
  All-Memᴰ (j ∷ is) i a (Memᴰ.head e) = subst P (sym e) a.0
  All-Memᴰ (j ∷ is) i a (Memᴰ.tail m) = All-Memᴰ is i a.1 m

module _ (host : Host) (command : List Text) (snapshot : Snapshot) (root : Pid) where
  abbrev AreBelow : List Pid → Type 0
  AreBelow ps = (p : Pid) → elem p ps ≡ true → Below host command snapshot root p

  joins-Below :
      (i : ProcessIdentity) (owned : List Pid)
      → Memᴰ i snapshot
      → joins host command i owned ≡ true
      → AreBelow owned
      → AreBelow (i.pid ∷ owned)
  unfolding joins
  joins-Below i owned m h below p found = elim (elem-cases p i.pid owned found) [
    | inl e ↦
        let (q, parent, held) = parent_in-some i.parent_pid owned (ground (arith, h)) in
        subst (λ r. Below host command snapshot root r) e
          (child i m parent (ground (arith, h)) (below q held))
    | inr e ↦ below p e
  ]

  sweep-Below :
      (is : Snapshot) (owned : List Pid) (c : Bool)
      → ((i : ProcessIdentity) → Memᴰ i is → Memᴰ i snapshot)
      → AreBelow owned
      → AreBelow (sweep host command is owned c).0
  unfolding sweep
  sweep-Below [] owned c within below = below
  sweep-Below (i ∷ is) owned c within below = elim (Bool-cases (joins host command i owned)) [
    | inl e ↦ rw e (
        sweep-Below is (i.pid ∷ owned) true (λ j m. within j (Memᴰ.tail m))
          (joins-Below i owned (within i (Memᴰ.head refl)) e below))
    | inr e ↦ rw e (sweep-Below is owned c (λ j m. within j (Memᴰ.tail m)) below)
  ]

  sweeps-Below :
      (n : ℕ) (owned : List Pid) → AreBelow owned → AreBelow (sweeps host command n snapshot owned)
  unfolding sweeps
  sweeps-Below zero owned below = below
  sweeps-Below (suc n) owned below =
      let next = sweep-Below snapshot owned false (λ i m. m) below in
      elim (Bool-cases (sweep host command snapshot owned false).1) [
        | inl e ↦ rw e (sweeps-Below n _ next)
        | inr e ↦ rw e next
      ]

  sweeps_grow : (n : ℕ) (owned : List Pid) → IsWithin owned (sweeps host command n snapshot owned)
  unfolding sweeps
  sweeps_grow zero owned p h = h
  sweeps_grow (suc n) owned p h =
      let next = sweep_grows host command snapshot owned false p h in
      elim (Bool-cases (sweep host command snapshot owned false).1) [
        | inl e ↦ rw e (sweeps_grow n _ p next)
        | inr e ↦ rw e next
      ]

  starting_set-Below : AreBelow (starting_set host command root snapshot)
  unfolding starting_set elem
  starting_set-Below p h = elim (Bool-cases (is_some (find_identity root snapshot))) [
    | inl e ↦
        subst (λ r. Below host command snapshot root r) (eq_of_== root p (ground (arith, h, e)))
          (top e)
    | inr e ↦ absurd (ground (arith, h, e))
  ]

  -- What is closed and holds the root holds all that is below it.
  closed-Below :
      (owned : List Pid)
      → IsClosed host command snapshot owned
      → (is_some (find_identity root snapshot) ≡ true → elem root owned ≡ true)
      → (p : Pid) → Below host command snapshot root p
      → elem p owned ≡ true
  unfolding joins parent_in
  closed-Below owned closed start p (top e) = start e
  closed-Below owned closed start p (child {p = q} i m parent runs below) =
      let held = closed-Below owned closed start q below in
      let left = All-Memᴰ (λ j. joins host command j owned ≡ false) snapshot i closed m in
      ground (arith, held, left, parent, runs)

  outside-starting_set :
      outside snapshot (starting_set host command root snapshot) < suc (length snapshot)
  outside-starting_set =
      let bound = outside-length snapshot (starting_set host command root snapshot) in
      omega (arith, bound)

  starting_set-root :
      is_some (find_identity root snapshot) ≡ true
      → elem root (starting_set host command root snapshot) ≡ true
  unfolding starting_set elem
  starting_set-root e = ground (arith, e)

  -- _matching_descendants is exactly the root, where the snapshot has it, and the processes that
  -- run the command below it, each the child of another of them.
  pub matching_descendants-Below :
      (p : Pid)
      → (elem p (matching_descendants host command root snapshot) ≡ true)
        ↔ Below host command snapshot root p
  unfolding matching_descendants
  matching_descendants-Below p = (
    sweeps-Below _ _ starting_set-Below p,
    closed-Below _ (sweeps-IsClosed host command _ snapshot _ outside-starting_set)
        (λ e. sweeps_grow _ _ root (starting_set-root e)) p,
  )

  -- The loop of _matching_descendants ends by its own test: after as many passes as the snapshot has
  -- processes, and one more, no further pass changes the set, however long it goes on.
  pub matching_descendants_end :
      (n : ℕ)
      → length snapshot < n
      → (sweeps host command n snapshot (starting_set host command root snapshot)
          ≡ matching_descendants host command root snapshot)
        × IsClosed host command snapshot (matching_descendants host command root snapshot)
  unfolding matching_descendants
  matching_descendants_end n h =
      let bound = outside-starting_set in
      (
        sweeps_enough host command n (suc (length snapshot)) snapshot _ (omega (arith, bound, h))
            bound,
        sweeps-IsClosed host command _ snapshot _ bound,
      )
