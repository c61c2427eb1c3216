-- ===== src/Supervisor/Trees.antt =====
-- services/supervisor.py: sets of pids, the tree of processes below a root, the roots of a command
-- and the stored identities that still hold.
use xauusd_bot.Base.{
  ℕ, zero, suc, Bool, true, false, not, ◌&&◌, ◌||◌, Option, none, some, List, [], ◌∷◌, Text, length,
  leb, ◌==◌, if◌then◌else◌, is_some,
}
use xauusd_bot.Supervisor.Types.{
  Pid, ProcessRecord, ProcessIdentity, Snapshot, Host, is_text, same_text, find_identity,
}
use xauusd_bot.Supervisor.Commands.{command_matches}

-- `pid in pids`
unfoldable pub elem : Pid → List Pid → Bool
elem p [] = false
elem p (q ∷ qs) = p == q || elem p qs

-- `parent_pid in pids`, where a parent may be `None`.
unfoldable pub parent_in : Option Pid → List Pid → Bool
parent_in none pids = false
parent_in (some p) pids = elem p pids

-- `pids.add(pid)`
unfoldable pub add_pid : Pid → List Pid → List Pid
add_pid p pids = if elem p pids then pids else p ∷ pids

-- `pids.update(others)`
unfoldable pub add_pids : List Pid → List Pid → List Pid
add_pids pids [] = pids
add_pids pids (p ∷ ps) = add_pids (add_pid p pids) ps

unfoldable pub insert_sorted : Pid → List Pid → List Pid
insert_sorted p [] = p ∷ []
insert_sorted p (q ∷ qs) = if leb p q then p ∷ q ∷ qs else q ∷ insert_sorted p qs

-- `sorted(pids)`
unfoldable pub sorted : List Pid → List Pid
sorted [] = []
sorted (p ∷ ps) = insert_sorted p (sorted ps)

unfoldable pub reverse_onto : List Pid → List Pid → List Pid
reverse_onto [] qs = qs
reverse_onto (p ∷ ps) qs = reverse_onto ps (p ∷ qs)

-- `sorted(pids, reverse=True)`
unfoldable pub sorted_reverse : List Pid → List Pid
sorted_reverse pids = reverse_onto (sorted pids) []

module _ (host : Host) (command : List Text) where
  -- The test of one process in the loop of `_matching_descendants`.
  unfoldable pub joins : ProcessIdentity → List Pid → Bool
  joins i owned =
      parent_in i.parent_pid owned
      && not (elem i.pid owned)
      && command_matches host i.command_line command

  -- One pass over the snapshot: the pids, and `changed`.
  unfoldable pub sweep : Snapshot → List Pid → Bool → List Pid × Bool
  sweep [] owned changed = (owned, changed)
  sweep (i ∷ is) owned changed =
      if joins i owned then sweep is (i.pid ∷ owned) true else sweep is owned changed

  -- `while changed`, on fuel: a pass that changes anything takes a pid of the snapshot.
  unfoldable pub sweeps : ℕ → Snapshot → List Pid → List Pid
  sweeps zero snapshot owned = owned
  sweeps (suc fuel) snapshot owned =
      let (next, changed) = sweep snapshot owned false in
      let rest = sweeps fuel snapshot next in if changed then rest else next

  unfoldable pub starting_set : Pid → Snapshot → List Pid
  starting_set root snapshot = if is_some (find_identity root snapshot) then root ∷ [] else []

  -- `_matching_descendants`
  unfoldable pub matching_descendants : Pid → Snapshot → List Pid
  matching_descendants root snapshot =
      sweeps (suc (length snapshot)) snapshot (starting_set root snapshot)

  -- `matches` of `_matching_command_roots`
  unfoldable pub matching_pids : Snapshot → List Pid
  matching_pids [] = []
  matching_pids (i ∷ is) =
      let rest = matching_pids is in
      if command_matches host i.command_line command then add_pid i.pid rest else rest

  unfoldable pub parent_of : Option ProcessIdentity → Option Pid
  parent_of none = none
  parent_of (some i) = i.parent_pid

  unfoldable pub without_parent_in : Snapshot → List Pid → List Pid → List Pid
  without_parent_in snapshot matches [] = []
  without_parent_in snapshot matches (p ∷ ps) =
      let rest = without_parent_in snapshot matches ps in
      if parent_in (parent_of (find_identity p snapshot)) matches then rest else p ∷ rest

  -- `_matching_command_roots`
  unfoldable pub matching_command_roots : Snapshot → List Pid
  matching_command_roots snapshot =
      let matches = matching_pids snapshot in sorted (without_parent_in snapshot matches matches)

  -- The test of one stored pair in the loop of `_verified_stored_pids`.
  unfoldable pub still_holds : Option Text → Option ProcessIdentity → Bool
  still_holds creation_time none = false
  still_holds creation_time (some i) =
      command_matches host i.command_line command
      && is_text creation_time
      && same_text i.creation_time creation_time

  unfoldable pub verified_pairs : List (Pid × Option Text) → Snapshot → List Pid
  verified_pairs [] snapshot = []
  verified_pairs ((p, creation_time) ∷ pairs) snapshot =
      let rest = verified_pairs pairs snapshot in
      if still_holds creation_time (find_identity p snapshot) then add_pid p rest else rest

  -- `_verified_stored_pids`
  unfoldable pub verified_stored_pids : ProcessRecord → Snapshot → List Pid
  verified_stored_pids r snapshot = verified_pairs r.process_identities snapshot
