-- ===== src/Supervisor/Quiet.antt =====
-- services/supervisor.py: what `monitor_once` starts, and what it leaves alone.
use xauusd_bot.Base.{
  ℕ, ◌≡◌, refl, sym, ◌∙◌, subst, ℤ, Bool, true, false, Option, none, some, List, [], ◌∷◌, Text,
  length, ltb, inl, inr, ◌⊎◌, if_case, Dict, dict_get, AllValues, AllValues-dict_set,
  AllValues-dict_get, false≢true,
}
use mathlib.Core.List.{Memᴰ}
use xauusd_bot.Supervisor.Types.{
  Pid, ProcessRecord, Effect, spawned, Supervisor, Limits, Host, is_running,
}
use xauusd_bot.Supervisor.Identity.{blank_record, new_record}
use xauusd_bot.Supervisor.Stopping.{clear_process}
use xauusd_bot.Supervisor.Start.{StartAnswers, close_diagnostics}
use xauusd_bot.Supervisor.Spawning.{start_component-Spawns}
use xauusd_bot.Supervisor.Monitor.{
  MonitorAnswers, Pass, Passing, goes_on, raises, save, put_record, put_changed, drop_child,
  release, monitor_live, monitor_stopped, history_of, with_history, monitor_start, monitor_restart,
  monitor_crash, monitor_ended, monitor_polled, monitor_child, monitor_children, save_pass,
  monitor_once,
}
use xauusd_bot.Supervisor.Restarts.{supervisor_of, monitor_polled-cases}

module _ (host : Host) (limits : Limits) (now : ℕ) (commands : Dict (List Text)) where
  module _ (a : MonitorAnswers) (component : Text) (r : ProcessRecord) (p : Pass) where
    -- The child has ended, the record wants it to run, its command is known, and it has been
    -- restarted less often within the window than the limit.
    pub record IsRestart (e : Effect) : Type 0 where
      pub code : ℤ
      pub pid : Pid
      pub command : List Text
      pub is_spawn : e ≡ spawned pid
      pub ended : a.poll ≡ some code
      pub wanted : is_running r.desired_state ≡ true
      pub known : dict_get component commands ≡ some command
      pub below :
          ltb
            (length (history_of host limits now commands a component p.supervisor))
            limits.max_restarts
          ≡ true

    monitor_start-IsRestart :
        (answers : Option StartAnswers) (code : ℤ) (command : List Text) (next : ProcessRecord)
        (q : Pass) (e : Effect)
        → ((pid : Pid) → e ≡ spawned pid → IsRestart e)
        → q.supervisor.effects ≡ p.supervisor.effects
        → Memᴰ e
            (supervisor_of
              (monitor_start host limits now commands a component answers command next q)).effects
        → Memᴰ e p.supervisor.effects ⊎ IsRestart e
    unfolding monitor_start save put_record
    monitor_start-IsRestart none code command next q e restart same m =
        inl (subst (λ es. Memᴰ e es) same m)
    monitor_start-IsRestart (some answers) code command next q e restart same m =
        elim (start_component-Spawns host answers component command _ e m) [
          | inl k ↦ inl (subst (λ es. Memᴰ e es) same k)
          | inr (pid, new, popen, absent) ↦ inr (restart pid new)
        ]

    monitor_restart-IsRestart :
        (b : Bool) (known : Option (List Text)) (history : List ℕ) (code : ℤ) (next : ProcessRecord)
        (q : Pass) (e : Effect)
        → a.poll ≡ some code
        → is_running r.desired_state ≡ true
        → dict_get component commands ≡ known
        → ltb
            (length (history_of host limits now commands a component p.supervisor))
            limits.max_restarts
          ≡ b
        → q.supervisor.effects ≡ p.supervisor.effects
        → Memᴰ e
            (supervisor_of
              (monitor_restart host limits now commands a component b known history next q)).effects
        → Memᴰ e p.supervisor.effects ⊎ IsRestart e
    unfolding monitor_restart with_history put_changed
    monitor_restart-IsRestart true (some command) history code next q e ended wanted known below
          same m =
        monitor_start-IsRestart a.start code command _ _ e
          (λ pid new. record {
            code = code;
            pid = pid;
            command = command;
            is_spawn = new;
            ended = ended;
            wanted = wanted;
            known = known;
            below = below;
          })
          same m
    monitor_restart-IsRestart true none history code next q e ended wanted known below same m =
        inl (subst (λ es. Memᴰ e es) same m)
    monitor_restart-IsRestart false known history code next q e ended wanted _ below same m =
        inl (subst (λ es. Memᴰ e es) same m)

    -- The loop of monitor_once starts a process for a child only where the child has ended, its
    -- record wants it to run, its command is known, and it has been restarted fewer than max_restarts
    -- times within the window before now.
    pub monitor_child-IsRestart :
        (command : Option (List Text)) (child : Pid) (e : Effect)
        → Memᴰ e
            (supervisor_of
              (monitor_child host limits now commands a component (some r) command child p)).effects
        → Memᴰ e p.supervisor.effects ⊎ IsRestart e
    unfolding monitor_child monitor_crash release drop_child close_diagnostics
    monitor_child-IsRestart command child e =
        monitor_polled-cases host limits now commands a component
          (λ w. Memᴰ e (supervisor_of w).effects → Memᴰ e p.supervisor.effects ⊎ IsRestart e) a.poll
          child r p (λ q spares m. inl (subst (λ es. Memᴰ e es) spares.effects m))
          (λ code ended wanted m.
            monitor_restart-IsRestart _ _ _ code _ _ e ended wanted refl refl refl m)

  -- No record of the pass wants its component to run, and nothing has been started or ended.
  abbrev pub IsUnwanted : ProcessRecord → Type 0
  IsUnwanted r = is_running r.desired_state ≡ false

  abbrev IsQuiet : Supervisor → Passing → Type 0
  IsQuiet s (goes_on q) = AllValues IsUnwanted q.records × (q.supervisor.effects ≡ s.effects)
  IsQuiet s (raises t) = t.effects ≡ s.effects

  monitor_polled-IsQuiet :
      (a : MonitorAnswers) (component : Text) (poll : Option ℤ) (child : Pid) (r : ProcessRecord)
      (s : Supervisor) (p : Pass)
      → IsUnwanted r
      → IsQuiet s (goes_on p)
      → IsQuiet s (monitor_polled host limits now commands a component poll child r p)
  unfolding monitor_polled monitor_live monitor_ended monitor_stopped put_record put_changed
      drop_child release close_diagnostics clear_process
  monitor_polled-IsQuiet a component none child r s p unwanted quiet =
      if_case (λ q. IsQuiet s (goes_on q)) (is_running r.desired_state) _ _
        (λ e. absurd (false≢true (sym unwanted ∙ e)))
        (λ e. (AllValues-dict_set IsUnwanted component _ p.records unwanted quiet.0, quiet.1))
  monitor_polled-IsQuiet a component (some code) child r s p unwanted quiet =
      if_case (IsQuiet s) (is_running r.desired_state) _ _
        (λ e. absurd (false≢true (sym unwanted ∙ e)))
        (λ e. (AllValues-dict_set IsUnwanted component _ p.records unwanted quiet.0, quiet.1))

  monitor_child-IsQuiet :
      (a : MonitorAnswers) (component : Text) (found : Option ProcessRecord)
      (command : Option (List Text)) (child : Pid) (s : Supervisor) (p : Pass)
      → dict_get component p.records ≡ found
      → IsQuiet s (goes_on p)
      → IsQuiet s (monitor_child host limits now commands a component found command child p)
  unfolding monitor_child new_record blank_record is_running
  monitor_child-IsQuiet a component (some r) command child s p e quiet =
      monitor_polled-IsQuiet a component a.poll child r s p
        (AllValues-dict_get IsUnwanted component r p.records quiet.0 e) quiet
  monitor_child-IsQuiet a component none (some command) child s p e quiet =
      monitor_polled-IsQuiet a component a.poll child (new_record host now component command) s p
        refl quiet
  monitor_child-IsQuiet a component none none child s p e quiet = quiet.1

  monitor_children-IsQuiet :
      (answers : Text → MonitorAnswers) (children : Dict Pid) (s : Supervisor) (w : Passing)
      → IsQuiet s w
      → IsQuiet s (monitor_children host limits now commands answers children w)
  unfolding monitor_children
  monitor_children-IsQuiet answers children s (raises t) quiet = quiet
  monitor_children-IsQuiet answers [] s (goes_on p) quiet = quiet
  monitor_children-IsQuiet answers ((component, child) ∷ children) s (goes_on p) quiet =
      let found = dict_get component p.records in
      let command = dict_get component commands in
      monitor_children-IsQuiet answers children s
        (monitor_child host limits now commands (answers component) component found command child p)
        (monitor_child-IsQuiet (answers component) component found command child s p refl quiet)

  save_pass-IsQuiet :
      (s : Supervisor) (w : Passing)
      → IsQuiet s w
      → (save_pass host limits now commands w).1.effects ≡ s.effects
  unfolding save_pass save
  save_pass-IsQuiet s (goes_on p) quiet = quiet.1
  save_pass-IsQuiet s (raises t) quiet = quiet

  -- Where no record of the registry wants its component to run, a whole call of monitor_once starts
  -- nothing and ends nothing, whatever it observes of the children that the supervisor holds.
  pub monitor_once_is_quiet :
      (answers : Text → MonitorAnswers) (s : Supervisor)
      → AllValues IsUnwanted s.registry
      → (monitor_once host limits now commands answers s).1.effects ≡ s.effects
  unfolding monitor_once
  monitor_once_is_quiet answers s unwanted =
      save_pass-IsQuiet s _ (monitor_children-IsQuiet answers s.children s _ (unwanted, refl))
