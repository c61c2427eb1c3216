-- ===== src/Supervisor/Monitor.antt =====
-- services/supervisor.py: `monitor_once`, which restarts what has crashed.
use xauusd_bot.Base.{
  ℕ, suc, ◌+◌, ℤ, Bool, true, not, ◌||◌, Option, none, some, List, [], ◌∷◌, ◌++◌, Text, length, ltb,
  leb, if◌then◌else◌, Dict, dict_get, dict_set, dict_pop, or_default,
}
use xauusd_bot.Supervisor.Types.{
  Pid, running, stopping, stopped, crashed, error, exited, restart_limit, ProcessRecord, Snapshot,
  Supervisor, Limits, Host, is_running,
}
use xauusd_bot.Supervisor.Identity.{new_record, find_matching_processes, refresh_identity, sole}
use xauusd_bot.Supervisor.Start.{StartAnswers, close_diagnostics, start_component, judged}
use xauusd_bot.Supervisor.Stopping.{clear_process}

-- The answers about one child; `none` for the start is a lock that another operation holds.
pub record MonitorAnswers : Type 0 where
  pub poll : Option ℤ
  pub refresh_snapshot : Snapshot
  pub survivors_snapshot : Snapshot
  pub start : Option StartAnswers

-- The local variables of the loop: `records`, `changed`, and the supervisor.
pub record Pass : Type 0 where
  pub records : Dict ProcessRecord
  pub changed : List ProcessRecord
  pub supervisor : Supervisor

-- A pass goes on, or an exception leaves it: then `records` is lost but for what was saved.
pub data Passing : Type 0 where
  goes_on : Pass → Passing
  raises : Supervisor → Passing

-- `now - item <= self.restart_window`, of all items.
unfoldable pub recent : Limits → ℕ → List ℕ → List ℕ
recent limits now [] = []
recent limits now (item ∷ items) =
    let rest = recent limits now items in
    if leb now (item + limits.restart_window) then item ∷ rest else rest

-- `_save`
unfoldable pub save : Dict ProcessRecord → Supervisor → Supervisor
save records s = record s { registry = records }

unfoldable pub put_record : Text → ProcessRecord → Pass → Pass
put_record component r p = record p { records = dict_set component r p.records }

unfoldable pub put_changed : Text → ProcessRecord → Pass → Pass
put_changed component r p = record p {
  records = dict_set component r p.records;
  changed = p.changed ++ r ∷ [];
}

-- `self._children.pop(component, None)`
unfoldable pub drop_child : Text → Supervisor → Supervisor
drop_child component s = record s { children = dict_pop component s.children }

unfoldable pub release : Text → Supervisor → Supervisor
release component s = close_diagnostics component (drop_child component s)

module _ (host : Host) (limits : Limits) (now : ℕ) (commands : Dict (List Text)) where
  module _ (a : MonitorAnswers) (component : Text) where
    -- The child runs.
    unfoldable pub monitor_live : Pid → ProcessRecord → Pass → Pass
    monitor_live child r p =
        let (verified, next) =
          refresh_identity host now r child (or_default r.command (dict_get component commands))
            a.refresh_snapshot in
        if is_running r.desired_state
        then put_record component
            (record (judged (verified || not host.is_windows) next) {
              last_heartbeat = some (host.isoformat now);
            })
            p
        else put_record component
            (record r { state = stopping; last_heartbeat = some (host.isoformat now) }) p

    -- The child has ended as it was asked to.
    unfoldable pub monitor_stopped : ℤ → ProcessRecord → Pass → Pass
    monitor_stopped code r p =
        put_changed component
          (record (clear_process r) { exit_code = some code; state = stopped; last_error = none })
          (record p { supervisor = release component p.supervisor })

    -- A launcher has ended, and the interpreter that it started goes on.
    unfoldable pub monitor_survivor : Pid → ProcessRecord → Pass → Pass
    monitor_survivor survivor r p =
        let (verified, next) =
          refresh_identity host now (record r { pid = some survivor }) survivor
            (or_default r.command (dict_get component commands)) a.refresh_snapshot in
        put_changed component
          (record next { state = running; last_heartbeat = some (host.isoformat now) })
          (record p { supervisor = drop_child component p.supervisor })

    unfoldable pub crash_record : ℤ → ProcessRecord → ProcessRecord
    crash_record code r = record r {
      exit_code = some code;
      pid = none;
      process_tree = [];
      process_identities = [];
      state = crashed;
      last_error = some (exited code);
    }

    -- `history` of the component at this time.
    unfoldable pub history_of : Supervisor → List ℕ
    history_of s = recent limits now (or_default [] (dict_get component s.restart_times))

    unfoldable pub with_history : List ℕ → Supervisor → Supervisor
    with_history history s = record s { restart_times = dict_set component history s.restart_times }

    abbrev pub count_restart : ProcessRecord → ProcessRecord
    count_restart r = record r { restart_count = suc r.restart_count }

    -- `changed.append(self.start_component(component, commands[component]))`
    unfoldable pub monitor_start : Option StartAnswers → List Text → ProcessRecord → Pass → Passing
    monitor_start none command r p = raises (save (dict_set component r p.records) p.supervisor)
    monitor_start (some answers) command r p =
        let (started, s) =
          start_component host answers component command
            (save (dict_set component r p.records) p.supervisor) in
        goes_on (record (put_record component r p) {
          changed = p.changed ++ started ∷ [];
          supervisor = s;
        })

    unfoldable pub monitor_restart :
        Bool → Option (List Text) → List ℕ → ProcessRecord → Pass → Passing
    monitor_restart true (some command) history r p =
        monitor_start a.start command (count_restart r)
          (record p { supervisor = with_history (history ++ now ∷ []) p.supervisor })
    monitor_restart _ _ history r p = goes_on (
        put_changed component (record r { state = error; last_error = some restart_limit })
          (record p { supervisor = with_history history p.supervisor }))

    -- The child has crashed.
    unfoldable pub monitor_crash : ℤ → ProcessRecord → Pass → Passing
    monitor_crash code r p =
        let history = history_of p.supervisor in
        monitor_restart (ltb (length history) limits.max_restarts) (dict_get component commands)
          history (crash_record code r) (record p { supervisor = release component p.supervisor })

    unfoldable pub monitor_survivors : Option Pid → ℤ → ProcessRecord → Pass → Passing
    monitor_survivors none code r p = monitor_crash code r p
    monitor_survivors (some survivor) code r p = goes_on (monitor_survivor survivor r p)

    unfoldable pub monitor_ended : ℤ → ProcessRecord → Pass → Passing
    monitor_ended code r p =
        if is_running r.desired_state
        then monitor_survivors
            (sole host (
              find_matching_processes host (or_default r.command (dict_get component commands))
                a.survivors_snapshot))
            code r p
        else goes_on (monitor_stopped code r p)

    unfoldable pub monitor_polled : Option ℤ → Pid → ProcessRecord → Pass → Passing
    monitor_polled none child r p = goes_on (monitor_live child r p)
    monitor_polled (some code) child r p = monitor_ended code r p

    -- `records.get(component) or self._new_record(component, commands[component])`, and the rest.
    unfoldable pub monitor_child : Option ProcessRecord → Option (List Text) → Pid → Pass → Passing
    monitor_child (some r) command child p = monitor_polled a.poll child r p
    monitor_child none (some command) child p =
        monitor_polled a.poll child (new_record host now component command) p
    monitor_child none none child p = raises p.supervisor

  unfoldable pub monitor_children : (Text → MonitorAnswers) → Dict Pid → Passing → Passing
  monitor_children answers children (raises s) = raises s
  monitor_children answers [] (goes_on p) = goes_on p
  monitor_children answers ((component, child) ∷ children) (goes_on p) =
      monitor_children answers children (
        monitor_child (answers component) component (dict_get component p.records)
          (dict_get component commands) child p)

  unfoldable pub save_pass : Passing → Option (List ProcessRecord) × Supervisor
  save_pass (goes_on p) = (some p.changed, save p.records p.supervisor)
  save_pass (raises s) = (none, s)

  -- `monitor_once`: the records that changed, and `none` where an exception leaves it.
  unfoldable pub monitor_once :
      (Text → MonitorAnswers) → Supervisor → Option (List ProcessRecord) × Supervisor
  monitor_once answers s = save_pass (
      monitor_children answers s.children
        (goes_on (record { records = s.registry; changed = []; supervisor = s })))
