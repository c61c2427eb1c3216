-- ===== src/Supervisor/Status.antt =====
-- services/supervisor.py: `status`, and `reconcile`, which is the same.
use xauusd_bot.Base.{
  ℕ, ℤ, Bool, not, ◌&&◌, ◌||◌, Option, none, some, [], ◌∷◌, Text, if◌then◌else◌, is_some, Dict,
  dict_get, dict_set,
}
use xauusd_bot.Supervisor.Types.{
  Pid, running, stopping, stopped, degraded, crashed, live_pid_unverified,
  stop_requested_unverified, no_longer_exists, exited, ProcessRecord, Snapshot, Supervisor, Host,
  is_running, is_live_state,
}
use xauusd_bot.Supervisor.Identity.{new_record, record_matches_process, refresh_identity}
use xauusd_bot.Supervisor.Start.{close_diagnostics, judged}
use xauusd_bot.Supervisor.Stopping.{clear_process}
use xauusd_bot.Supervisor.Monitor.{drop_child, release, save}

-- The answers about one child, in the order of the code.
pub record ChildAnswers : Type 0 where
  pub poll : Option ℤ
  pub record_snapshot : Snapshot
  pub refresh_snapshot : Snapshot

-- The answers about one record.
pub record RecordAnswers : Type 0 where
  pub record_snapshot : Snapshot
  pub pid_alive : Bool
  pub refresh_snapshot : Snapshot

module _ (host : Host) (now : ℕ) where
  unfoldable pub beat : ProcessRecord → ProcessRecord
  beat r = record r { last_heartbeat = some (host.isoformat now) }

  unfoldable pub status_live : ChildAnswers → Pid → ProcessRecord → ProcessRecord
  status_live a child r =
      let (verified, next) = refresh_identity host now r child r.command a.refresh_snapshot in
      if is_running r.desired_state
      then beat (judged (verified || not host.is_windows) next)
      else beat (record r { state = stopping })

  abbrev pub pid_or : Pid → Option Pid → Pid
  pid_or child none = child
  pid_or child (some p) = p

  -- `record` of a child that has ended with a code.
  unfoldable pub status_ended : ChildAnswers → ℤ → Pid → ProcessRecord → ProcessRecord
  status_ended a code child r =
      let (verified, next) =
        refresh_identity host now r (pid_or child r.pid) r.command a.refresh_snapshot in
      if not (is_running r.desired_state)
      then record (clear_process r) { exit_code = some code; state = stopped }
      else if record_matches_process host r a.record_snapshot
      then beat (record next { state = running })
      else record r {
        exit_code = some code;
        state = crashed;
        last_error = some (exited code);
        pid = none;
        process_tree = [];
        process_identities = [];
      }

  -- Whether the log of an ended child stays open: a process of its record goes on.
  unfoldable pub status_release : ChildAnswers → Text → ProcessRecord → Supervisor → Supervisor
  status_release a component r s =
      if is_running r.desired_state && record_matches_process host r a.record_snapshot
      then drop_child component s
      else release component s

  abbrev pub or_new : Text → Option ProcessRecord → ProcessRecord
  or_new component none = new_record host now component []
  or_new component (some r) = r

  unfoldable pub status_child :
      ChildAnswers
      → Option ℤ
      → Text
      → Pid
      → ProcessRecord
      → Dict ProcessRecord × Supervisor
      → Dict ProcessRecord × Supervisor
  status_child a none component child r (records, s) =
      (dict_set component (status_live a child r) records, s)
  status_child a (some code) component child r (records, s) =
      (dict_set component (status_ended a code child r) records, status_release a component r s)

  -- The loop over the children.
  unfoldable pub status_children :
      (Text → ChildAnswers)
      → Dict Pid
      → Dict ProcessRecord × Supervisor
      → Dict ProcessRecord × Supervisor
  status_children answers [] (records, s) = (records, s)
  status_children answers ((component, child) ∷ children) (records, s) =
      status_children answers children (
        status_child (answers component) (answers component).poll component child
          (or_new component (dict_get component records)) (records, s))

  -- A record that is to stop.
  unfoldable pub settle_stop : RecordAnswers → ProcessRecord → ProcessRecord
  settle_stop a r =
      if record_matches_process host r a.record_snapshot
      then record r { state = stopping }
      else if a.pid_alive
      then record r { state = degraded; last_error = some stop_requested_unverified }
      else record (clear_process r) { state = stopped }

  -- A record that is to run.
  unfoldable pub settle_run : RecordAnswers → Pid → ProcessRecord → ProcessRecord
  settle_run a p r =
      let (verified, next) = refresh_identity host now r p r.command a.refresh_snapshot in
      if record_matches_process host r a.record_snapshot
      then beat (record next { state = running })
      else if a.pid_alive
      then record r { state = degraded; last_error = some live_pid_unverified }
      else if is_live_state r.state
      then record (clear_process r) { state = stopped; last_error = some no_longer_exists }
      else r

  -- A record whose process is not a child of this supervisor.
  unfoldable pub settle : RecordAnswers → Option Pid → ProcessRecord → ProcessRecord
  settle a none r = r
  settle a (some p) r = if is_running r.desired_state then settle_run a p r else settle_stop a r

  -- The branches that close the log.
  unfoldable pub settle_closes : RecordAnswers → ProcessRecord → Bool
  settle_closes a r =
      is_some r.pid
      && not (record_matches_process host r a.record_snapshot)
      && not a.pid_alive
      && (not (is_running r.desired_state) || is_live_state r.state)

  -- The loop over the records.
  unfoldable pub settle_records :
      (Text → RecordAnswers) → Dict ProcessRecord → Supervisor → Dict ProcessRecord × Supervisor
  settle_records answers [] s = ([], s)
  settle_records answers ((component, r) ∷ records) s =
      let is_child = is_some (dict_get component s.children) in
      let closed =
        if not is_child && settle_closes (answers component) r
        then close_diagnostics component s
        else s in
      let (rest, t) = settle_records answers records closed in
      ((component, if is_child then r else settle (answers component) r.pid r) ∷ rest, t)

  unfoldable pub save_status : Dict ProcessRecord × Supervisor → Dict ProcessRecord × Supervisor
  save_status (records, s) = (records, save records s)

  unfoldable pub settle_loop :
      (Text → RecordAnswers) → Dict ProcessRecord × Supervisor → Dict ProcessRecord × Supervisor
  settle_loop answers (records, s) = save_status (settle_records answers records s)

  -- `status`, and `reconcile`
  unfoldable pub status :
      (Text → ChildAnswers) → (Text → RecordAnswers) → Supervisor → Dict ProcessRecord × Supervisor
  status child_answers record_answers s =
      settle_loop record_answers (status_children child_answers s.children (s.registry, s))
