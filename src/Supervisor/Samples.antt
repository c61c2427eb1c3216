-- ===== src/Supervisor/Samples.antt =====
-- services/supervisor.py: a launcher and its interpreter, and what a system answers about them.
use xauusd_bot.Base.{ℕ, pos, true, false, none, some, List, [], ◌∷◌, Text, Dict}
use xauusd_bot.Supervisor.Types.{
  running, stopped, ProcessRecord, ProcessIdentity, Snapshot, killed, Supervisor, Limits, Host,
}
use xauusd_bot.Supervisor.Identity.{blank_record}
use xauusd_bot.Supervisor.Start.{StartAnswers, child_of}
use xauusd_bot.Supervisor.Stop.{StopAnswers, os_error}
use xauusd_bot.Supervisor.Monitor.{MonitorAnswers, Pass}
use xauusd_bot.Supervisor.Listing.{Row, snapshot_of_rows}
use xauusd_bot.Supervisor.Lock.{Attempt}

abbrev pub windows : Host
windows = record { is_windows = true; casefold = λ t. t; isoformat = λ t. t ∷ [] }

abbrev pub api : Text
api = 97 ∷ 112 ∷ 105 ∷ []

-- `p a`
abbrev pub command : List Text
command = (112 ∷ []) ∷ (97 ∷ []) ∷ []

abbrev pub command_line : Text
command_line = 112 ∷ 32 ∷ 97 ∷ []

abbrev pub launcher : ProcessIdentity
launcher = record {
  pid = 4;
  parent_pid = none;
  creation_time = some (49 ∷ []);
  executable = none;
  command_line = command_line;
}

abbrev pub interpreter : ProcessIdentity
interpreter = record launcher { pid = 7; parent_pid = some 4; creation_time = some (50 ∷ []) }

abbrev pub snapshot : Snapshot
snapshot = interpreter ∷ launcher ∷ []

abbrev pub api_record : ProcessRecord
api_record = record (blank_record api) {
  pid = some 4;
  state = running;
  desired_state = running;
  command = command;
  process_create_time = some (49 ∷ []);
}

abbrev pub registered : Supervisor
registered = record {
  registry = (api, api_record) ∷ [];
  children = [];
  diagnostic_handles = [];
  restart_times = [];
  last_start_spawned = [];
  lifecycle_context = [];
  effects = [];
}

abbrev pub empty_supervisor : Supervisor
empty_supervisor = record registered { registry = [] }

abbrev pub stop_answers : StopAnswers
stop_answers = record {
  now = 9;
  owner_poll = none;
  idle_poll = none;
  owner_snapshot = snapshot;
  alive_then = [];
  taskkill_expires = λ p. false;
  terminate_poll = none;
  looks = record { listed = snapshot; alive = [] } ∷ [];
  last_look = record { listed = []; alive = [] };
  wait = os_error;
}

abbrev pub start_answers : StartAnswers
start_answers = record {
  now = 9;
  first_poll = none;
  second_poll = none;
  refresh_snapshot = snapshot;
  record_snapshot = [];
  pid_alive = false;
  matching_snapshot = [];
  matched_record_snapshot = [];
  popen = child_of 4;
  identity_polls = [] ∷ snapshot ∷ [];
  retries = [];
}

abbrev pub limits : Limits
limits = record { max_restarts = 3; restart_window = 600000000 }

abbrev pub commands : Dict (List Text)
commands = (api, command) ∷ []

abbrev pub crash_answers : MonitorAnswers
crash_answers = record {
  poll = some (pos 1);
  refresh_snapshot = [];
  survivors_snapshot = [];
  start = some start_answers;
}

abbrev pub watching : Supervisor
watching = record registered { children = (api, 4) ∷ []; restart_times = (api, 5 ∷ []) ∷ [] }

abbrev pub pass : Pass
pass = record { records = watching.registry; changed = []; supervisor = watching }

abbrev pub unwanted : Supervisor
unwanted = record watching { registry = (api, record api_record { desired_state = stopped }) ∷ [] }

abbrev pub attempt : Attempt
attempt = record {
  before_read = λ f. f;
  is_alive = λ p. false;
  before_unlink = λ f. f;
  unlinks = true;
  meanwhile = λ f. f;
}

abbrev pub row_of : ℕ → Row
row_of p = record {
  process_id = some p;
  parent_process_id = some 0;
  creation_date = some (49 ∷ []);
  executable_path = none;
  command_line = some command_line;
}

-- The row of the supervisor itself, which runs the same command, and the launcher's.
abbrev pub rows : List Row
rows = row_of 8 ∷ row_of 4 ∷ []

-- A supervisor that once ended a process with the pid that it has now.
abbrev pub ended_before : Supervisor
ended_before = record registered { effects = killed 8 ∷ [] }

abbrev pub answers_of_rows : StopAnswers
answers_of_rows = record stop_answers { owner_snapshot = snapshot_of_rows 8 rows [] }
