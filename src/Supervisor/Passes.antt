-- ===== src/Supervisor/Passes.antt =====
-- services/supervisor.py: a crashed launcher that is watched, and a lock file.
use xauusd_bot.Supervisor.Opened.{opened}
use xauusd_bot.Base.{none, ◌≡◌, refl, sym, subst, some, [], ◌∷◌, ◌⊎◌, AllValues, arith}
use xauusd_bot.Supervisor.Types.{is_running, spawned}
use mathlib.Core.List.{Memᴰ}
use xauusd_bot.Supervisor.Monitor.{monitor_child, monitor_once}
use xauusd_bot.Supervisor.Restarts.{supervisor_of, IsLimited}
use xauusd_bot.Supervisor.Runs.{monitors, stops, perform_all, perform_all-IsLimited}
use xauusd_bot.Supervisor.Quiet.{
  IsRestart, monitor_child-IsRestart, IsUnwanted, monitor_once_is_quiet,
}
use xauusd_bot.Supervisor.Lock.{
  unreadable, held_by, entered, is_stale, unlinked, next_file, written, enter,
}
use xauusd_bot.Supervisor.Samples.{
  stop_answers, windows, api, command, api_record, limits, commands, crash_answers, watching, pass,
  unwanted, attempt,
}

one_restarts :
    (supervisor_of (
      monitor_child windows limits 9 commands crash_answers api
        (some api_record)
        (some command)
        4
        pass)).effects
    ≡ spawned 4 ∷ []
unfolding opened
one_restarts = refl

monitor_child-IsRestart_example :
    Memᴰ (spawned 4) []
    ⊎ IsRestart windows limits 9 commands crash_answers api api_record pass (spawned 4)
monitor_child-IsRestart_example =
    monitor_child-IsRestart windows limits 9 commands crash_answers api api_record pass
      (some command) 4 (spawned 4)
      (subst (λ es. Memᴰ (spawned 4) es) (sym one_restarts) (Memᴰ.head refl))

perform_all-IsLimited_example : IsLimited limits (
    perform_all windows limits
      (monitors 9 commands (λ c. crash_answers) ∷ stops stop_answers api none [] ∷ [])
      watching)
perform_all-IsLimited_example =
    perform_all-IsLimited windows limits
      (monitors 9 commands (λ c. crash_answers) ∷ stops stop_answers api none [] ∷ []) watching
      (omega arith, tt)

none_wanted : AllValues (IsUnwanted windows limits 9 commands) unwanted.registry
unfolding is_running
none_wanted = (refl, tt)

monitor_once_is_quiet_example :
    (monitor_once windows limits 9 commands (λ c. crash_answers) unwanted).1.effects ≡ []
monitor_once_is_quiet_example =
    monitor_once_is_quiet windows limits 9 commands (λ c. crash_answers) unwanted none_wanted

-- The empty file of a live owner, in the moment in which its pid is not yet written, is taken away.
empty_file_test : enter 8 none (attempt ∷ []) unreadable ≡ (entered, held_by 8)
unfolding enter is_stale unlinked next_file written
empty_file_test = refl
