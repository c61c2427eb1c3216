-- ===== src/Supervisor/Stop.antt =====
-- services/supervisor.py: which processes a stop ends, and how it ends them.
-- `_suppress_os_error` lets a `subprocess.TimeoutExpired` through, of `taskkill.exe` and of the child.
use xauusd_bot.Base.{
  ℕ, ℤ, Bool, true, false, not, ◌&&◌, ◌||◌, Option, none, some, List, [], ◌∷◌, if◌then◌else◌,
  is_some,
}
use xauusd_bot.Supervisor.Types.{
  Pid, ProcessRecord, ProcessIdentity, Snapshot, Effect, killed, Host, is_text, same_text,
  find_identity,
}
use xauusd_bot.Supervisor.Commands.{command_matches}
use xauusd_bot.Supervisor.Trees.{
  elem, add_pids, sorted_reverse, matching_descendants, verified_stored_pids,
}
use xauusd_bot.Supervisor.Start.{runs}

-- What one look at the processes answers: `_process_snapshot()`, or `_pid_alive` of each pid.
pub record Look : Type 0 where
  pub listed : Snapshot
  pub alive : List Pid

-- How `child.wait(timeout=0)` ends: with the exit code, with an OSError, which is suppressed, or with
-- `subprocess.TimeoutExpired`, which is no OSError and leaves the call.
pub data Waited : Type 0 where
  exited : ℤ → Waited
  os_error timeout_expired : Waited

-- The answers to the questions of one call, in the order of the code: the polls of the child, what
-- of the owned processes is alive when a signal is sent, the pids whose `taskkill.exe` takes more
-- than its five seconds, the looks until the timeout, and the wait for the child.
pub record StopAnswers : Type 0 where
  pub now : ℕ
  pub owner_poll : Option ℤ
  pub idle_poll : Option ℤ
  pub owner_snapshot : Snapshot
  pub alive_then : List Pid
  pub taskkill_expires : Pid → Bool
  pub terminate_poll : Option ℤ
  pub looks : List Look
  pub last_look : Look
  pub wait : Waited

abbrev pub or_record_pid : Pid → List Pid → List Pid
or_record_pid p [] = p ∷ []
or_record_pid p (q ∷ qs) = q ∷ qs

abbrev pub idle_child : Option Pid → Option ℤ → List Pid
idle_child none poll = []
idle_child (some c) poll = if runs poll then c ∷ [] else []

module _ (host : Host) where
  -- `sorted(owned, reverse=True) if owned else [record.pid]`, the stored pids included.
  unfoldable pub owned_with : ProcessRecord → Pid → Snapshot → List Pid → List Pid
  owned_with r p snapshot owned =
      or_record_pid p
        (sorted_reverse (add_pids owned (verified_stored_pids host r.command r snapshot)))

  -- Where the process of the record's pid does not run its command.
  unfoldable pub owned_by_pairs : ProcessRecord → Pid → Snapshot → List Pid → Option (List Pid)
  owned_by_pairs r p snapshot [] = none
  owned_by_pairs r p snapshot (q ∷ qs) = some (owned_with r p snapshot (q ∷ qs))

  -- Windows' branch of `_verified_owned_pids`.
  unfoldable pub owned_in :
      ProcessRecord → Pid → Snapshot → Option ProcessIdentity → Option (List Pid)
  owned_in r p snapshot none =
      owned_by_pairs r p snapshot (verified_stored_pids host r.command r snapshot)
  owned_in r p snapshot (some i) =
      if command_matches host i.command_line r.command
      then if is_text r.process_create_time && same_text i.creation_time r.process_create_time
        then some (owned_with r p snapshot (matching_descendants host r.command p snapshot))
        else none
      else owned_by_pairs r p snapshot (verified_stored_pids host r.command r snapshot)

  unfoldable pub owned_of_record :
      StopAnswers → ProcessRecord → Option Pid → Option Pid → Option (List Pid)
  owned_of_record a r none child =
      if host.is_windows then none else some (idle_child child a.idle_poll)
  owned_of_record a r (some p) child =
      if host.is_windows
      then owned_in r p a.owner_snapshot (find_identity p a.owner_snapshot)
      else none

  -- `_verified_owned_pids`; `none` means that nothing may be ended.
  unfoldable pub verified_owned_pids : StopAnswers → ProcessRecord → Option Pid → Option (List Pid)
  verified_owned_pids a r none = owned_of_record a r r.pid none
  verified_owned_pids a r (some c) =
      if runs a.owner_poll && not host.is_windows
      then some (c ∷ [])
      else owned_of_record a r r.pid (some c)

  -- The loop of `_terminate_owned_processes`: the effects, the newest first, and whether a
  -- `TimeoutExpired` of `subprocess.run` leaves it, which is after the command has been given.
  unfoldable pub terminate_each :
      (Pid → Bool) → List Pid → List Pid → List Effect → List Effect × Bool
  terminate_each expires alive [] effects = (effects, false)
  terminate_each expires alive (p ∷ ps) effects =
      let rest =
        terminate_each expires alive ps
          (if host.is_windows || elem p alive then killed p ∷ effects else effects) in
      if host.is_windows && expires p then (killed p ∷ effects, true) else rest

  unfoldable pub terminate_child : StopAnswers → Option Pid → List Effect → List Effect
  terminate_child a none effects = effects
  terminate_child a (some c) effects =
      if runs a.terminate_poll && not host.is_windows then killed c ∷ effects else effects

  unfoldable pub terminate_last : StopAnswers → Option Pid → List Effect × Bool → List Effect × Bool
  terminate_last a child (effects, expired) =
      if expired then (effects, true) else (terminate_child a child effects, false)

  -- `_terminate_owned_processes`, and whether a `TimeoutExpired` leaves it.
  unfoldable pub terminate_owned_processes :
      StopAnswers → List Pid → Option Pid → List Effect → List Effect × Bool
  terminate_owned_processes a owned child effects =
      terminate_last a child (terminate_each a.taskkill_expires a.alive_then owned effects)

  unfoldable pub any_listed : List Pid → Snapshot → Bool
  any_listed [] snapshot = false
  any_listed (p ∷ ps) snapshot = is_some (find_identity p snapshot) || any_listed ps snapshot

  unfoldable pub any_alive : List Pid → List Pid → Bool
  any_alive [] alive = false
  any_alive (p ∷ ps) alive = elem p alive || any_alive ps alive

  -- `_pids_are_alive`
  unfoldable pub pids_are_alive : List Pid → Look → Bool
  pids_are_alive pids look =
      if host.is_windows then any_listed pids look.listed else any_alive pids look.alive

  -- `_wait_for_pids_to_exit`
  unfoldable pub wait_for_pids_to_exit : List Pid → List Look → Look → Bool
  wait_for_pids_to_exit pids [] last = not (pids_are_alive pids last)
  wait_for_pids_to_exit pids (look ∷ looks) last =
      not (pids_are_alive pids look) || wait_for_pids_to_exit pids looks last
