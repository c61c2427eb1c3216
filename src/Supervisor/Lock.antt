-- ===== src/Supervisor/Lock.antt =====
-- services/supervisor.py: `SupervisorOperationLock`, a file that holds the pid of its owner, with what
-- others do to the file between the steps of `__enter__`.
use xauusd_bot.Base.{
  ◌≡◌, Bool, true, false, not, ◌&&◌, Option, none, some, List, [], ◌∷◌, if◌then◌else◌, ltb,
}
use xauusd_bot.Supervisor.Types.{Pid}

-- The lock file: there is none, or it holds a pid or something else, as in the moment in which it has
-- been made and is still empty.
pub data LockFile : Type 0 where
  absent : LockFile
  unreadable : LockFile
  held_by : Pid → LockFile

-- What one attempt that finds a file meets: what others make of the file before it is read, between
-- that and the `unlink`, and between that and the next attempt; the processes that are alive; and
-- whether `unlink` succeeds.
pub record Attempt : Type 0 where
  pub before_read : LockFile → LockFile
  pub is_alive : Pid → Bool
  pub before_unlink : LockFile → LockFile
  pub unlinks : Bool
  pub meanwhile : LockFile → LockFile

-- The end of `__enter__`: it returns, or it says that an operation is in progress. The last is a call
-- that has not ended after the attempts that are given.
pub data Entering : Type 0 where
  entered : Entering
  in_progress : Entering
  still_trying : Entering

-- `_pid_alive`
unfoldable pub pid_alive : (Pid → Bool) → Pid → Bool
pid_alive is_alive p = ltb 0 p && is_alive p

-- `owner is None or not _pid_alive(owner)`, which takes no account of who has made an empty file.
unfoldable pub is_stale : Attempt → LockFile → Bool
is_stale attempt absent = true
is_stale attempt unreadable = true
is_stale attempt (held_by p) = not (pid_alive attempt.is_alive p)

unfoldable pub unlinked : Attempt → LockFile → LockFile
unlinked attempt file = if attempt.unlinks then absent else file

-- The file after the pid is written to it, unless others have left something else at its path since
-- it was made.
unfoldable pub written : Pid → Option LockFile → LockFile
written self none = held_by self
written self (some other) = other

-- What stands at the path when the next attempt begins.
unfoldable pub next_file : Attempt → LockFile → LockFile
next_file attempt file =
    attempt.meanwhile (unlinked attempt (attempt.before_unlink (attempt.before_read file)))

-- `__enter__` of this process, with an attempt for each time that it calls itself; `replaced` is what
-- others leave at the path of the new file before its pid is written.
unfoldable pub enter : Pid → Option LockFile → List Attempt → LockFile → Entering × LockFile
enter self replaced attempts absent = (entered, written self replaced)
enter self replaced [] file = (still_trying, file)
enter self replaced (attempt ∷ attempts) file =
    let again = enter self replaced attempts (next_file attempt file) in
    if is_stale attempt (attempt.before_read file)
    then again
    else (in_progress, attempt.before_read file)

-- `__exit__`: `owned` is whether `__enter__` has made the file.
unfoldable pub exit : (owned unlinks : Bool) → LockFile → LockFile
exit owned unlinks file = if owned && unlinks then absent else file

-- What was read names no process that is alive then: nothing, no pid, or a pid that is not alive.
pub data NamesNoLive (is_alive : Pid → Bool) : LockFile → Type 0 where
  no_file : NamesNoLive is_alive absent
  no_pid : NamesNoLive is_alive unreadable
  no_process : (p : Pid) → pid_alive is_alive p ≡ false → NamesNoLive is_alive (held_by p)

-- Each attempt but the last read something that named no live process, and the last found no file.
pub data WasFree : List Attempt → LockFile → Type 0 where
  was_absent : (attempts : List Attempt) → WasFree attempts absent
  was_stale :
      (attempt : Attempt) (attempts : List Attempt) (file : LockFile)
      → NamesNoLive attempt.is_alive (attempt.before_read file)
      → WasFree attempts (next_file attempt file)
      → WasFree (attempt ∷ attempts) file

module _ (self : Pid) (replaced : Option LockFile) where
  abbrev IsEntry : List Attempt → LockFile → Entering × LockFile → Type 0
  IsEntry attempts file w = w.0 ≡ entered → WasFree attempts file × (w.1 ≡ written self replaced)
