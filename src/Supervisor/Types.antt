-- ===== src/Supervisor/Types.antt =====
-- services/supervisor.py: the records of the registry, the identities of processes and the
-- supervisor's own state.
use xauusd_bot.Base.{
  ℕ, ℤ, zero, suc, Bool, true, false, not, ◌&&◌, Option, none, some, List, [], ◌∷◌, Text, text_eq,
  ◌==◌, if◌then◌else◌, is_empty, Dict,
}

abbrev pub Pid : Type 0
Pid = ℕ

-- The values of `state` and `desired_state`.
pub data State : Type 0 where
  running starting stopping stopped degraded crashed error : State
  other : Text → State

-- The texts of `last_error`; those of the code, or another that the registry holds.
pub data LastError : Type 0 where
  identity_not_verified different_command live_pid_unverified several_trees : LastError
  matching_pid_unverified spawned_unverified unverified_not_terminated : LastError
  stop_timeout restart_limit stop_requested_unverified no_longer_exists : LastError
  launch_failed : Text → LastError
  exited : ℤ → LastError
  other_error : Text → LastError

pub record ProcessRecord : Type 0 where
  pub component : Text
  pub pid : Option Pid
  pub state : State
  pub started_at : Option Text
  pub last_heartbeat : Option Text
  pub exit_code : Option ℤ
  pub desired_state : State
  pub restart_count : ℕ
  pub command : List Text
  pub last_error : Option LastError
  pub process_create_time : Option Text
  pub parent_pid : Option Pid
  pub process_tree : List Pid
  pub process_identities : List (Pid × Option Text)

pub record ProcessIdentity : Type 0 where
  pub pid : Pid
  pub parent_pid : Option Pid
  pub creation_time : Option Text
  pub executable : Option Text
  pub command_line : Text

-- The values of `_process_snapshot()`, whose keys are the pids.
abbrev pub Snapshot : Type 0
Snapshot = List ProcessIdentity

-- What the operating system was told to do.
pub data Effect : Type 0 where
  spawned killed : Pid → Effect

-- `ProcessSupervisor` with the registry file; a child is its pid, and an open log is its component.
pub record Supervisor : Type 0 where
  pub registry : Dict ProcessRecord
  pub children : Dict Pid
  pub diagnostic_handles : List Text
  pub restart_times : Dict (List ℕ)
  pub last_start_spawned : Dict Bool
  pub lifecycle_context : Dict (Text × Text)
  pub effects : List Effect

-- `max_restarts` and `restart_window`, the latter in microseconds.
pub record Limits : Type 0 where
  pub max_restarts : ℕ
  pub restart_window : ℕ

-- `os.name == "nt"`, `str.casefold` and `datetime.isoformat`.
pub record Host : Type 0 where
  pub is_windows : Bool
  pub casefold : Text → Text
  pub isoformat : ℕ → Text

unfoldable pub is_running : State → Bool
is_running running = true
is_running _ = false

-- `state in {"RUNNING", "STARTING", "STOPPING"}`
unfoldable pub is_live_state : State → Bool
is_live_state running = true
is_live_state starting = true
is_live_state stopping = true
is_live_state _ = false

-- `state in {"CRASHED", "ERROR"}`
unfoldable pub has_failed : State → Bool
has_failed crashed = true
has_failed error = true
has_failed _ = false

-- Truth of an optional text and of an optional pid: neither `None` nor empty, nor 0.
unfoldable pub is_text : Option Text → Bool
is_text none = false
is_text (some t) = not (is_empty t)

unfoldable pub is_pid : Option Pid → Bool
is_pid none = false
is_pid (some zero) = false
is_pid (some (suc n)) = true

-- `a == b` of optional texts.
unfoldable pub same_text : Option Text → Option Text → Bool
same_text none none = true
same_text (some a) (some b) = text_eq a b
same_text _ _ = false

-- `a == b` of commands.
unfoldable pub same_command : List Text → List Text → Bool
same_command [] [] = true
same_command (a ∷ xs) (b ∷ ys) = text_eq a b && same_command xs ys
same_command _ _ = false

-- `snapshot.get(pid)`
unfoldable pub find_identity : Pid → Snapshot → Option ProcessIdentity
find_identity p [] = none
find_identity p (i ∷ is) = if i.pid == p then some i else find_identity p is
