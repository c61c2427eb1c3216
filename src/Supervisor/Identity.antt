-- ===== src/Supervisor/Identity.antt =====
-- services/supervisor.py: new records, whether a record's process is still the one that was
-- started, and the identity that a record is brought up to date with.
use xauusd_bot.Base.{
  ℕ, Bool, true, false, ◌&&◌, ◌||◌, Option, none, some, List, [], ◌∷◌, Text, length, ltb, ◌==◌,
  if◌then◌else◌, is_some,
}
use xauusd_bot.Supervisor.Types.{
  Pid, stopped, ProcessRecord, ProcessIdentity, Snapshot, Host, is_pid, is_text, same_text,
  find_identity,
}
use xauusd_bot.Supervisor.Commands.{has_program, command_matches}
use xauusd_bot.Supervisor.Trees.{
  elem, add_pids, sorted, matching_descendants, matching_command_roots, verified_stored_pids,
}

abbrev pub is_any : List Pid → Bool
is_any [] = false
is_any (p ∷ ps) = true

-- `_process_snapshot`, of what Windows lists.
unfoldable pub process_snapshot : Host → Snapshot → Snapshot
process_snapshot host listed = if host.is_windows then listed else []

-- The record of a component that the registry does not have: `stop_component`'s own.
unfoldable pub blank_record : Text → ProcessRecord
blank_record component = record {
  component = component;
  pid = none;
  state = stopped;
  started_at = none;
  last_heartbeat = none;
  exit_code = none;
  desired_state = stopped;
  restart_count = 0;
  command = [];
  last_error = none;
  process_create_time = none;
  parent_pid = none;
  process_tree = [];
  process_identities = [];
}

-- `_new_record`
unfoldable pub new_record : Host → ℕ → Text → List Text → ProcessRecord
new_record host now component command = record (blank_record component) {
  last_heartbeat = some (host.isoformat now);
  command = command;
}

module _ (host : Host) where
  -- The two branches of `_record_matches_process` after the pid is looked up.
  unfoldable pub identity_matches : ProcessRecord → Snapshot → Option ProcessIdentity → Bool
  identity_matches r snapshot none = is_any (verified_stored_pids host r.command r snapshot)
  identity_matches r snapshot (some i) =
      if command_matches host i.command_line r.command
      then is_text r.process_create_time
        && is_text i.creation_time
        && same_text i.creation_time r.process_create_time
      else is_any (verified_stored_pids host r.command r snapshot)

  unfoldable pub identity_at : Option Pid → Snapshot → Option ProcessIdentity
  identity_at none snapshot = none
  identity_at (some p) snapshot = find_identity p snapshot

  -- `_record_matches_process`
  unfoldable pub record_matches_process : ProcessRecord → Snapshot → Bool
  record_matches_process r listed =
      let snapshot = process_snapshot host listed in
      is_pid r.pid
      && has_program r.command
      && host.is_windows
      && identity_matches r snapshot (identity_at r.pid snapshot)

  -- `_find_matching_processes`
  unfoldable pub find_matching_processes : List Text → Snapshot → List Pid
  find_matching_processes command listed =
      if host.is_windows && has_program command
      then matching_command_roots host command (process_snapshot host listed)
      else []

  -- `min(pids)`
  unfoldable pub least_of : Pid → List Pid → Pid
  least_of p [] = p
  least_of p (q ∷ qs) = let m = least_of q qs in if ltb m p then m else p

  -- `next((candidate for candidate, _ in process_identities if candidate in verified), default)`
  unfoldable pub first_stored : List (Pid × Option Text) → List Pid → Pid → Pid
  first_stored [] verified default = default
  first_stored ((p, time) ∷ pairs) verified default =
      if elem p verified then p else first_stored pairs verified default

  unfoldable pub stored_root : ProcessRecord → List Pid → Option Pid
  stored_root r [] = none
  stored_root r (p ∷ ps) = some (first_stored r.process_identities (p ∷ ps) (least_of p ps))

  unfoldable pub sole : List Pid → Option Pid
  sole (p ∷ []) = some p
  sole _ = none

  unfoldable pub or_else : Option Pid → Option Pid → Option Pid
  or_else none o = o
  or_else (some p) o = some p

  unfoldable pub pid_if_matches : Pid → List Text → Option ProcessIdentity → Option Pid
  pid_if_matches p command none = none
  pid_if_matches p command (some i) =
      if command_matches host i.command_line command then some p else none

  -- `root_pid` of `_refresh_identity`
  unfoldable pub root_of : ProcessRecord → Pid → List Text → Snapshot → Option Pid
  root_of r p command snapshot = or_else (pid_if_matches p command (find_identity p snapshot)) (
      or_else (stored_root r (verified_stored_pids host command r snapshot))
        (sole (matching_command_roots host command snapshot)))

  unfoldable pub creation_or : Option Text → Option ProcessIdentity → Option Text
  creation_or time none = time
  creation_or time (some i) = i.creation_time

  unfoldable pub parent_or : Option Pid → Option ProcessIdentity → Option Pid
  parent_or parent none = parent
  parent_or parent (some i) = i.parent_pid

  unfoldable pub or_root : Pid → List Pid → List Pid
  or_root p [] = p ∷ []
  or_root p (q ∷ qs) = q ∷ qs

  unfoldable pub with_creation :
      Pid → Option ProcessIdentity → List (Pid × Option Text) → List (Pid × Option Text)
  with_creation p none pairs = pairs
  with_creation p (some i) pairs = (p, i.creation_time) ∷ pairs

  -- The pairs of a pid and its creation time, of the pids that the snapshot has.
  unfoldable pub identities_of : Snapshot → List Pid → List (Pid × Option Text)
  identities_of snapshot [] = []
  identities_of snapshot (p ∷ ps) =
      with_creation p (find_identity p snapshot) (identities_of snapshot ps)

  unfoldable pub owned_from : ProcessRecord → Pid → List Text → Snapshot → List Pid
  owned_from r root command snapshot = sorted (
      add_pids (matching_descendants host command root snapshot)
        (verified_stored_pids host command r snapshot))

  unfoldable pub with_root :
      ProcessRecord → ℕ → List Text → Snapshot → Option Pid → Bool × ProcessRecord
  with_root r now command snapshot none = (false, r)
  with_root r now command snapshot (some root) =
      let identity = find_identity root snapshot in
      let named = record r { pid = some root; command = command } in
      let owned = owned_from named root command snapshot in
      (
        true,
        record named {
          process_create_time = creation_or r.process_create_time identity;
          parent_pid = parent_or r.parent_pid identity;
          process_tree = or_root root owned;
          process_identities = identities_of snapshot owned;
          last_heartbeat = some (host.isoformat now);
        },
      )

  -- `_refresh_identity`: whether the record has been brought up to date, and the record.
  unfoldable pub refresh_identity :
      ℕ → ProcessRecord → Pid → List Text → Snapshot → Bool × ProcessRecord
  refresh_identity now r p command listed =
      let snapshot = process_snapshot host listed in
      with_root r now command snapshot (root_of r p command snapshot)

  -- The test of `_wait_for_identity`
  unfoldable pub is_observed : Pid → List Text → Snapshot → Bool
  is_observed p command snapshot =
      is_some (pid_if_matches p command (find_identity p snapshot))
      || length (matching_command_roots host command snapshot) == 1

  unfoldable pub observes : Pid → List Text → List Snapshot → Bool
  observes p command [] = false
  observes p command (listed ∷ later) =
      is_observed p command (process_snapshot host listed) || observes p command later

  -- `_wait_for_identity`, with the snapshots up to the deadline.
  unfoldable pub wait_for_identity : Pid → List Text → List Snapshot → Bool
  wait_for_identity p command polls = host.is_windows && observes p command polls
