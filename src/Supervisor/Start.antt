-- ===== src/Supervisor/Start.antt =====
-- services/supervisor.py: `start_component`, with what the operating system answers on the way.
use xauusd_bot.Base.{
  ℕ, ℤ, Bool, true, false, not, ◌&&◌, ◌||◌, Option, none, some, List, [], ◌∷◌, Text, if◌then◌else◌,
  dict_get, dict_set, dict_pop, text_eq,
}
use xauusd_bot.Supervisor.Types.{
  Pid, running, degraded, error, LastError, identity_not_verified, different_command,
  live_pid_unverified, several_trees, matching_pid_unverified, spawned_unverified, launch_failed,
  ProcessRecord, Snapshot, spawned, Supervisor, Host, has_failed, is_pid, same_command,
}
use xauusd_bot.Supervisor.Trees.{parent_in}
use xauusd_bot.Supervisor.Identity.{
  new_record, record_matches_process, find_matching_processes, refresh_identity, wait_for_identity,
}

-- `subprocess.Popen`: the pid of the child, or the name of the exception.
pub data Popen : Type 0 where
  child_of : Pid → Popen
  popen_raises : Text → Popen

-- The answers to the questions of one call, in the order of the code; `none` for a poll is a child
-- that runs.
pub record StartAnswers : Type 0 where
  pub now : ℕ
  pub first_poll : Option ℤ
  pub second_poll : Option ℤ
  pub refresh_snapshot : Snapshot
  pub record_snapshot : Snapshot
  pub pid_alive : Bool
  pub matching_snapshot : Snapshot
  pub matched_record_snapshot : Snapshot
  pub popen : Popen
  pub identity_polls : List Snapshot
  pub retries : List Snapshot

-- `child.poll() is None`
abbrev pub runs : Option ℤ → Bool
runs none = true
runs (some code) = false

unfoldable pub want_running : ProcessRecord → ProcessRecord
want_running r = record r { desired_state = running }

unfoldable pub existing_running : Option ProcessRecord → Option ProcessRecord
existing_running none = none
existing_running (some r) = some (want_running r)

-- `_open_diagnostics` and `_close_diagnostics`, of the handles' components.
unfoldable pub close_diagnostics : Text → Supervisor → Supervisor
close_diagnostics component s = record s { diagnostic_handles = without s.diagnostic_handles }
  where
    without : List Text → List Text
    without [] = []
    without (c ∷ cs) = if text_eq component c then without cs else c ∷ without cs

unfoldable pub open_diagnostics : Text → Supervisor → Supervisor
open_diagnostics component s =
    let closed = close_diagnostics component s in
    record closed { diagnostic_handles = component ∷ closed.diagnostic_handles }

-- What every branch ends with: `_last_start_spawned`, the record and the registry.
unfoldable pub store : Text → Bool → ProcessRecord → Supervisor → ProcessRecord × Supervisor
store component did_spawn r s = (
  r,
  record s {
    last_start_spawned = dict_set component did_spawn s.last_start_spawned;
    registry = dict_set component r s.registry;
  },
)

unfoldable pub degrade : LastError → ProcessRecord → ProcessRecord
degrade e r = record r { desired_state = running; state = degraded; last_error = some e }

-- The record of a start whose identity was, or was not, verified.
unfoldable pub judged : Bool → ProcessRecord → ProcessRecord
judged true r = record r { state = running; last_error = none }
judged false r = record r { state = degraded; last_error = some identity_not_verified }

module _ (host : Host) (a : StartAnswers) (component : Text) (command : List Text) where
  -- `existing or self._new_record(component, command)`
  unfoldable pub existing_or_new : Option ProcessRecord → ProcessRecord
  existing_or_new none = want_running (new_record host a.now component command)
  existing_or_new (some r) = r

  -- The child that the supervisor holds runs this command.
  unfoldable pub keep_child : Pid → Option ProcessRecord → Supervisor → ProcessRecord × Supervisor
  keep_child child existing s =
      let (verified, r) =
        refresh_identity host a.now (existing_or_new existing) child command a.refresh_snapshot in
      store component false (judged (verified || not host.is_windows) r) s

  -- `while not verified and time.monotonic() < deadline`
  unfoldable pub refresh_until : Pid → List Snapshot → Bool × ProcessRecord → Bool × ProcessRecord
  refresh_until child [] (verified, r) = (verified, r)
  refresh_until child (listed ∷ later) (verified, r) =
      let rest = refresh_until child later (refresh_identity host a.now r child command listed) in
      if verified then (true, r) else rest

  abbrev restarts_of : Option ProcessRecord → ℕ
  restarts_of none = 0
  restarts_of (some r) = r.restart_count

  unfoldable pub error_kept : Option ProcessRecord → Option LastError
  error_kept none = none
  error_kept (some r) = if has_failed r.state then r.last_error else none

  unfoldable pub launched_record : Pid → Option ProcessRecord → ProcessRecord
  launched_record child existing = record (new_record host a.now component command) {
    pid = some child;
    state = running;
    started_at = some (host.isoformat a.now);
    desired_state = running;
    restart_count = restarts_of existing;
    last_error = error_kept existing;
  }

  unfoldable pub verified_launch : Pid → Option ProcessRecord → Bool × ProcessRecord
  verified_launch child existing =
      let observed = wait_for_identity host child command a.identity_polls in
      let first =
        refresh_identity host a.now (launched_record child existing) child command
          a.refresh_snapshot in
      if observed then refresh_until child a.retries first else first

  unfoldable pub degraded_unless : Bool → ProcessRecord → ProcessRecord
  degraded_unless true r = r
  degraded_unless false r = record r { state = degraded; last_error = some spawned_unverified }

  unfoldable pub launch : Popen → Option ProcessRecord → Supervisor → ProcessRecord × Supervisor
  launch (child_of child) existing s =
      let (verified, r) = verified_launch child existing in
      store component true (degraded_unless (verified || not host.is_windows) r) (record s {
        children = dict_set component child s.children;
        effects = spawned child ∷ s.effects;
      })
  launch (popen_raises name) existing s =
      store component false
        (record (existing_or_new existing) {
          desired_state = running;
          state = error;
          last_error = some (launch_failed name);
        })
        (close_diagnostics component s)

  -- `existing.pid in matches and not _record_matches_process(existing)`
  unfoldable pub is_doubtful : Option ProcessRecord → List Pid → Bool
  is_doubtful none matches = false
  is_doubtful (some r) matches =
      parent_in r.pid matches && not (record_matches_process host r a.matched_record_snapshot)

  -- The process that already runs the command is adopted.
  unfoldable pub adopt : Pid → Option ProcessRecord → Supervisor → ProcessRecord × Supervisor
  adopt root existing s =
      let (verified, r) =
        refresh_identity host a.now (record (existing_or_new existing) { pid = some root }) root
          command a.refresh_snapshot in
      store component false (record (judged verified r) { exit_code = none }) s

  unfoldable pub start_on_matches :
      List Pid → Option ProcessRecord → Supervisor → ProcessRecord × Supervisor
  start_on_matches [] existing s = launch a.popen existing (open_diagnostics component s)
  start_on_matches (p ∷ []) existing s =
      if is_doubtful existing (p ∷ [])
      then store component false (degrade matching_pid_unverified (existing_or_new existing)) s
      else adopt p existing s
  start_on_matches (p ∷ q ∷ ps) existing s =
      store component false (degrade several_trees (existing_or_new existing)) s

  -- `existing and existing.pid and existing.command == command and _record_matches_process(existing)`
  unfoldable pub record_holds : Option ProcessRecord → Bool
  record_holds none = false
  record_holds (some r) =
      is_pid r.pid
      && same_command r.command command
      && record_matches_process host r a.record_snapshot

  unfoldable pub record_is_alive : Option ProcessRecord → Bool
  record_is_alive none = false
  record_is_alive (some r) = is_pid r.pid && a.pid_alive

  abbrev pid_or_zero : Option Pid → Pid
  pid_or_zero none = 0
  pid_or_zero (some p) = p

  unfoldable pub keep_record : ProcessRecord → Supervisor → ProcessRecord × Supervisor
  keep_record r s =
      let (verified, next) =
        refresh_identity host a.now r (pid_or_zero r.pid) command a.refresh_snapshot in
      store component false
        (record next { desired_state = running; state = running; last_error = none }) s

  unfoldable pub start_on_record : Option ProcessRecord → Supervisor → ProcessRecord × Supervisor
  start_on_record existing s =
      if record_holds existing
      then keep_record (existing_or_new existing) s
      else if record_is_alive existing
      then store component false (degrade live_pid_unverified (existing_or_new existing)) s
      else start_on_matches (find_matching_processes host command a.matching_snapshot) existing s

  unfoldable pub has_command : Option ProcessRecord → Bool
  has_command none = true
  has_command (some r) = same_command r.command command

  unfoldable pub start_on_child :
      Option Pid → Option ProcessRecord → Supervisor → ProcessRecord × Supervisor
  start_on_child none existing s = start_on_record existing s
  start_on_child (some child) existing s =
      if runs a.first_poll && has_command existing
      then keep_child child existing s
      else if runs a.second_poll
      then store component false (degrade different_command (existing_or_new existing)) s
      else start_on_record existing s

  -- `start_component`, inside the lock.
  unfoldable pub start_component : Supervisor → ProcessRecord × Supervisor
  start_component s =
      start_on_child (dict_get component s.children)
        (existing_running (dict_get component s.registry))
        (record s { lifecycle_context = dict_pop component s.lifecycle_context })
