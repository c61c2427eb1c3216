-- ===== src/Supervisor/Descent.antt =====
-- services/supervisor.py: what the passes of `_matching_descendants` end with.
use xauusd_bot.Base.{
  ℕ, zero, suc, ◌≤◌, ◌<◌, ◌≡◌, refl, Bool, true, false, some, List, [], ◌∷◌, Text, length,
  if◌then◌else◌, is_some, All, arith, Bool-cases, inl, inr,
}
use mathlib.Core.List.{Memᴰ}
use xauusd_bot.Supervisor.Types.{Pid, ProcessIdentity, Snapshot, Host, find_identity}
use xauusd_bot.Supervisor.Commands.{command_matches}
use xauusd_bot.Supervisor.Trees.{elem, joins, sweep, sweeps}

-- The processes of a snapshot whose pid is not in a set.
abbrev pub outside : Snapshot → List Pid → ℕ
outside [] owned = 0
outside (i ∷ is) owned = let rest = outside is owned in if elem i.pid owned then rest else suc rest

abbrev pub IsWithin : List Pid → List Pid → Type 0
IsWithin ps qs = (p : Pid) → elem p ps ≡ true → elem p qs ≡ true

outside_mono : (is : Snapshot) (ps qs : List Pid) → IsWithin ps qs → outside is qs ≤ outside is ps
outside_mono [] ps qs h = omega arith
outside_mono (i ∷ is) ps qs h = ground (arith, outside_mono is ps qs h, h i.pid)

pub outside-length : (is : Snapshot) (ps : List Pid) → outside is ps ≤ length is
outside-length [] ps = omega arith
outside-length (i ∷ is) ps = ground (arith, outside-length is ps)

IsWithin-cons : (p : Pid) (ps : List Pid) → IsWithin ps (p ∷ ps)
unfolding elem
IsWithin-cons p ps q h = ground (arith, h)

pub elem_head : (p : Pid) (ps : List Pid) → elem p (p ∷ ps) ≡ true
unfolding elem
elem_head p ps = ground arith

module _ (host : Host) (command : List Text) where
  -- The processes below a root, each of which runs the command.
  pub data Below (snapshot : Snapshot) (root : Pid) : Pid → Type 0 where
    top : is_some (find_identity root snapshot) ≡ true → Below snapshot root root
    child :
        {p : Pid} (i : ProcessIdentity)
        → Memᴰ i snapshot
        → i.parent_pid ≡ some p
        → command_matches host i.command_line command ≡ true
        → Below snapshot root p
        → Below snapshot root i.pid

  -- No process is left that a pass would take.
  abbrev pub IsClosed : Snapshot → List Pid → Type 0
  IsClosed snapshot owned = All (λ i. joins host command i owned ≡ false) snapshot

  pub sweep_grows :
      (is : Snapshot) (owned : List Pid) (c : Bool)
      → IsWithin owned (sweep host command is owned c).0
  unfolding sweep
  sweep_grows [] owned c p h = h
  sweep_grows (i ∷ is) owned c p h = elim (Bool-cases (joins host command i owned)) [
    | inl e ↦ rw e (sweep_grows is (i.pid ∷ owned) true p (IsWithin-cons i.pid owned p h))
    | inr e ↦ rw e (sweep_grows is owned c p h)
  ]

  sweep_changed : (is : Snapshot) (owned : List Pid) → (sweep host command is owned true).1 ≡ true
  unfolding sweep
  sweep_changed [] owned = refl
  sweep_changed (i ∷ is) owned =
      ground (arith, sweep_changed is owned, sweep_changed is (i.pid ∷ owned))

  joins_is_new :
      (i : ProcessIdentity) (owned : List Pid)
      → joins host command i owned ≡ true
      → elem i.pid owned ≡ false
  unfolding joins
  joins_is_new i owned h = ground (arith, h)

  -- A pass that changes anything leaves fewer processes outside.
  sweep_shrinks :
      (is : Snapshot) (owned : List Pid)
      → (sweep host command is owned false).1 ≡ true
      → outside is (sweep host command is owned false).0 < outside is owned
  unfolding sweep
  sweep_shrinks [] owned h = cc
  sweep_shrinks (i ∷ is) owned h = elim (Bool-cases (joins host command i owned)) [
    | inl e ↦
        let grown = sweep_grows is (i.pid ∷ owned) true in
        let held = grown i.pid (elem_head i.pid owned) in
        let fewer =
          outside_mono is owned (sweep host command is (i.pid ∷ owned) true).0
            (λ q m. grown q (IsWithin-cons i.pid owned q m)) in
        rw (e, joins_is_new i owned e, held) (omega (arith, fewer))
    | inr e ↦
        let grown = sweep_grows is owned false i.pid in
        let fewer = sweep_shrinks is owned in ground (arith, e, h, grown, fewer)
  ]

  sweep_still :
      (is : Snapshot) (owned : List Pid)
      → (sweep host command is owned false).1 ≡ false
      → ((sweep host command is owned false).0 ≡ owned) × IsClosed is owned
  unfolding sweep
  sweep_still [] owned h = (refl, tt)
  sweep_still (i ∷ is) owned h = elim (Bool-cases (joins host command i owned)) [
    | inl e ↦ absurd (ground (arith, e, h, sweep_changed is (i.pid ∷ owned)))
    | inr e ↦
        let still = sweep_still is owned (ground (arith, e, h)) in (rw e still.0, (e, still.1))
  ]

  -- The loop ends by its own test, with nothing left to take.
  pub sweeps-IsClosed :
      (n : ℕ) (snapshot : Snapshot) (owned : List Pid)
      → outside snapshot owned < n
      → IsClosed snapshot (sweeps host command n snapshot owned)
  unfolding sweeps
  sweeps-IsClosed zero snapshot owned h = absurd (omega arith)
  sweeps-IsClosed (suc n) snapshot owned h =
      elim (Bool-cases (sweep host command snapshot owned false).1) [
        | inl e ↦
            let fewer = sweep_shrinks snapshot owned e in
            rw e (sweeps-IsClosed n snapshot _ (omega (arith, fewer)))
        | inr e ↦ let (same, closed) = sweep_still snapshot owned e in rw (e, same) closed
      ]

  -- More fuel gives the same.
  pub sweeps_enough :
      (n m : ℕ) (snapshot : Snapshot) (owned : List Pid)
      → outside snapshot owned < n
      → outside snapshot owned < m
      → sweeps host command n snapshot owned ≡ sweeps host command m snapshot owned
  unfolding sweeps
  sweeps_enough zero m snapshot owned h k = absurd (omega arith)
  sweeps_enough (suc n) zero snapshot owned h k = absurd (omega arith)
  sweeps_enough (suc n) (suc m) snapshot owned h k =
      elim (Bool-cases (sweep host command snapshot owned false).1) [
        | inl e ↦
            let fewer = sweep_shrinks snapshot owned e in
            rw e (sweeps_enough n m snapshot _ (omega (arith, fewer)) (omega (arith, fewer)))
        | inr e ↦ rw e
      ]
