-- ===== src/Supervisor/Stopping.antt =====
-- services/supervisor.py: `stop_component` and `restart_component`. `_suppress_os_error` lets a
-- `subprocess.TimeoutExpired` through, of `taskkill.exe` and of the child.
use xauusd_bot.Base.{
  ℤ, Bool, true, false, Option, none, some, List, [], ◌∷◌, Text, if◌then◌else◌, dict_get, dict_set,
  dict_pop,
}
use xauusd_bot.Supervisor.Types.{
  Pid, State, LastError, stopped, stopping, degraded, unverified_not_terminated, stop_timeout,
  ProcessRecord, Supervisor, Host,
}
use xauusd_bot.Supervisor.Identity.{blank_record}
use xauusd_bot.Supervisor.Start.{StartAnswers, close_diagnostics, store, start_component}
use xauusd_bot.Supervisor.Stop.{
  StopAnswers, Waited, exited, os_error, terminate_owned_processes, timeout_expired,
  verified_owned_pids, wait_for_pids_to_exit,
}

abbrev pub or_blank : Text → Option ProcessRecord → ProcessRecord
or_blank component none = blank_record component
or_blank component (some r) = r

unfoldable pub want_stopped : ProcessRecord → ProcessRecord
want_stopped r = record r { desired_state = stopped }

-- A record without a process.
unfoldable pub clear_process : ProcessRecord → ProcessRecord
clear_process r = record r {
  pid = none;
  parent_pid = none;
  process_create_time = none;
  process_tree = [];
  process_identities = [];
}

-- What a call returns; `none` stands for a `TimeoutExpired` that leaves it.
abbrev pub returned : ProcessRecord × Supervisor → Option ProcessRecord × Supervisor
returned (r, s) = (some r, s)

module _ (host : Host) (a : StopAnswers) (component : Text) where
  unfoldable pub code_after : Waited → Option ℤ → Option (Option ℤ)
  code_after (exited code) kept = some (some code)
  code_after os_error kept = some kept
  code_after timeout_expired kept = none

  -- The exit code of the record after `child.wait(timeout=0)`, unless that leaves the call.
  unfoldable pub exit_code_of : Option Pid → ProcessRecord → Option (Option ℤ)
  exit_code_of none r = some r.exit_code
  exit_code_of (some c) r = code_after a.wait r.exit_code

  unfoldable pub stop_finished :
      Option (Option ℤ) → ProcessRecord → Supervisor → Option ProcessRecord × Supervisor
  stop_finished none r s = (none, s)
  stop_finished (some exit_code) r s = returned (
      store component false
        (record (clear_process r) {
          exit_code = exit_code;
          state = stopped;
          last_heartbeat = some (host.isoformat a.now);
          last_error = none;
        })
        (close_diagnostics component (record s { children = dict_pop component s.children })))

  unfoldable pub stop_degraded :
      LastError → ProcessRecord → Supervisor → Option ProcessRecord × Supervisor
  stop_degraded e r s =
      returned (store component false (record r { state = degraded; last_error = some e }) s)

  -- The end of the call, unless a `taskkill.exe` has left it.
  unfoldable pub stop_ended :
      (expired : Bool)
      → List Pid
      → Option Pid
      → ProcessRecord
      → Supervisor
      → Option ProcessRecord × Supervisor
  stop_ended expired owned child r s =
      if expired
      then (none, s)
      else if wait_for_pids_to_exit host owned a.looks a.last_look
      then stop_finished (exit_code_of child r) r s
      else stop_degraded stop_timeout r s

  unfoldable pub stop_owned :
      Option (List Pid)
      → Option Pid
      → ProcessRecord
      → Supervisor
      → Option ProcessRecord × Supervisor
  stop_owned none child r s = stop_degraded unverified_not_terminated r s
  stop_owned (some owned) child r s =
      let ended = terminate_owned_processes host a owned child s.effects in
      stop_ended ended.1 owned child r (record s { effects = ended.0 })

  abbrev pub has_no_process : Option Pid → Option Pid → Bool
  has_no_process none none = true
  has_no_process _ _ = false

  -- `records[component] = record` and the save of the intent to stop.
  unfoldable pub put_stopping : ProcessRecord → Supervisor → Supervisor
  put_stopping r s = record s { registry = dict_set component r s.registry }

  unfoldable pub stop_record :
      Option Pid → ProcessRecord → Supervisor → Option ProcessRecord × Supervisor
  stop_record child r s =
      if has_no_process r.pid child
      then returned
          (store component false (record r { state = stopped }) (close_diagnostics component s))
      else stop_owned (verified_owned_pids host a (record r { state = stopping }) child) child
          (record r { state = stopping }) (put_stopping (record r { state = stopping }) s)

  -- `self._lifecycle_context[component] = …` where the call has an operation id.
  unfoldable pub with_context : Option Text → Text → Supervisor → Supervisor
  with_context none operation s = s
  with_context (some operation_id) operation s = record s {
    lifecycle_context = dict_set component (operation_id, operation) s.lifecycle_context;
  }

  -- `stop_component`, inside the lock, which an exception releases too.
  unfoldable pub stop_component :
      (operation_id : Option Text) (lifecycle_operation : Text)
      → Supervisor
      → Option ProcessRecord × Supervisor
  stop_component operation_id operation s =
      stop_record (dict_get component s.children)
        (want_stopped (or_blank component (dict_get component s.registry)))
        (with_context operation_id operation s)

abbrev pub is_stopped : State → Bool
is_stopped stopped = true
is_stopped _ = false

-- `lifecycle_operation` where it is left out.
abbrev pub stop_word : Text
stop_word = 115 ∷ 116 ∷ 111 ∷ 112 ∷ []

unfoldable pub start_if_stopped :
    Host
    → StartAnswers
    → Text
    → List Text
    → Option ProcessRecord × Supervisor
    → Option ProcessRecord × Supervisor
start_if_stopped host start component command (none, s) = (none, s)
start_if_stopped host start component command (some r, s) =
    if is_stopped r.state
    then returned (start_component host start component command s)
    else (some r, s)

-- `restart_component`, inside the locks of its two calls.
unfoldable pub restart_component :
    Host
    → StopAnswers
    → StartAnswers
    → Text
    → List Text
    → Supervisor
    → Option ProcessRecord × Supervisor
restart_component host stop start component command s =
    start_if_stopped host start component command
      (stop_component host stop component none stop_word s)
