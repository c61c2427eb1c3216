-- ===== src/Supervisor/Examples.antt =====
-- services/supervisor.py: a launcher and its interpreter, started and stopped.
use xauusd_bot.Supervisor.Opened.{opened}
use xauusd_bot.Supervisor.Start.{start_component, existing_running}
use xauusd_bot.Supervisor.Trees.{starting_set, elem, matching_descendants, sweeps}
use xauusd_bot.Base.{◌≡◌, refl, sym, subst, true, none, [], ◌∷◌, ◌⊎◌, ◌↔◌, dict_get, arith}
use mathlib.Core.List.{Memᴰ}
use xauusd_bot.Supervisor.Types.{stopped, stopping, spawned, killed}
use xauusd_bot.Supervisor.Descent.{Below, IsClosed}
use xauusd_bot.Supervisor.Reach.{matching_descendants-Below, matching_descendants_end}
use xauusd_bot.Supervisor.Stopping.{stop_component}
use xauusd_bot.Supervisor.Ending.{EndsOwned, stop_component-EndsOwned}
use xauusd_bot.Supervisor.Spawning.{Spawns, start_component-Spawns}
use xauusd_bot.Supervisor.Settled.{IsSettled, stop_component-IsSettled}
use xauusd_bot.Supervisor.Listing.{stop_component_spares_itself}
use xauusd_bot.Supervisor.Stop.{StopAnswers}
use xauusd_bot.Supervisor.Samples.{
  api_record, windows, api, command, snapshot, registered, empty_supervisor, stop_answers,
  start_answers, rows, ended_before, answers_of_rows,
}

matching_descendants-Below_example :
    (elem 7 (matching_descendants windows command 4 snapshot) ≡ true)
    ↔ Below windows command snapshot 4 7
matching_descendants-Below_example = matching_descendants-Below windows command snapshot 4 7

matching_descendants_end_example :
    (sweeps windows command 5 snapshot (starting_set windows command 4 snapshot)
      ≡ matching_descendants windows command 4 snapshot)
    × IsClosed windows command snapshot (matching_descendants windows command 4 snapshot)
matching_descendants_end_example =
    matching_descendants_end windows command snapshot 4 5 (omega arith)

both_end :
    (stop_component windows stop_answers api none [] registered).1.effects
    ≡ killed 4 ∷ killed 7 ∷ []
unfolding opened
both_end = refl

one_starts :
    (start_component windows start_answers api command empty_supervisor).1.effects ≡ spawned 4 ∷ []
unfolding opened
one_starts = refl

stop_component-EndsOwned_example :
    Memᴰ (killed 7) [] ⊎ EndsOwned windows stop_answers api registered (killed 7)
stop_component-EndsOwned_example =
    stop_component-EndsOwned windows stop_answers api none [] registered (killed 7)
      (subst (λ es. Memᴰ (killed 7) es) (sym both_end) (Memᴰ.tail (Memᴰ.head refl)))

start_component-Spawns_example :
    Memᴰ (spawned 4) []
    ⊎ Spawns windows start_answers api command none (existing_running none) (spawned 4)
unfolding dict_get
start_component-Spawns_example =
    start_component-Spawns windows start_answers api command empty_supervisor (spawned 4)
      (subst (λ es. Memᴰ (spawned 4) es) (sym one_starts) (Memᴰ.head refl))

-- `taskkill.exe` does not answer for the interpreter, which is the first.
abbrev late_answers : StopAnswers
late_answers = record stop_answers { taskkill_expires = λ p. true }

stop_left_test : stop_component windows late_answers api none [] registered ≡ (
  none,
  record registered {
    registry = (api, record api_record { desired_state = stopped; state = stopping }) ∷ [];
    effects = killed 7 ∷ [];
  },
)
unfolding opened
stop_left_test = refl

stop_component-IsSettled_example :
    IsSettled windows late_answers api registered
      (stop_component windows late_answers api none [] registered)
stop_component-IsSettled_example =
    stop_component-IsSettled windows late_answers api registered none []

spared_test :
    (stop_component windows answers_of_rows api none [] ended_before).1.effects
    ≡ killed 4 ∷ killed 8 ∷ []
unfolding opened
spared_test = refl

stop_component_spares_itself_example : Memᴰ (killed 8) (killed 8 ∷ [])
stop_component_spares_itself_example =
    stop_component_spares_itself windows answers_of_rows api none [] ended_before 8 rows refl refl
      (subst (λ es. Memᴰ (killed 8) es) (sym spared_test) (Memᴰ.tail (Memᴰ.head refl)))
