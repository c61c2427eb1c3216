-- ===== src/Supervisor/Runs.antt =====
-- services/supervisor.py: any sequence of calls of one supervisor.
use xauusd_bot.Base.{
  ℕ, ℤ, ◌≤◌, ◌≡◌, refl, sym, ◌∙◌, subst, not, ◌&&◌, Option, none, some, List, [], ◌∷◌, Text, length,
  if_case, is_some, Dict, dict_get, AllValues,
}
use xauusd_bot.Supervisor.Types.{Pid, ProcessRecord, Supervisor, Limits, Host}
use xauusd_bot.Supervisor.Start.{StartAnswers, store, close_diagnostics, start_component}
use xauusd_bot.Supervisor.Stop.{StopAnswers, terminate_owned_processes, wait_for_pids_to_exit}
use xauusd_bot.Supervisor.Stopping.{
  or_blank, want_stopped, stop_finished, stop_degraded, stop_owned, has_no_process, stop_record,
  with_context, put_stopping, stop_ended, stop_component, start_if_stopped, restart_component,
  is_stopped, stop_word,
}
use xauusd_bot.Supervisor.Monitor.{MonitorAnswers, drop_child, release, save, monitor_once}
use xauusd_bot.Supervisor.Status.{
  ChildAnswers, RecordAnswers, status_release, status_child, status_children, settle_closes,
  settle_records, settle_loop, save_status, status, or_new,
}
use xauusd_bot.Supervisor.Spawning.{start_component-restart_times}
use xauusd_bot.Supervisor.Restarts.{IsLimited, monitor_once-IsLimited}

module _ (host : Host) (a : StopAnswers) (component : Text) where
  stop_finished-restart_times :
      (exit_code : Option (Option ℤ)) (r : ProcessRecord) (s : Supervisor)
      → (stop_finished host a component exit_code r s).1.restart_times ≡ s.restart_times
  unfolding stop_finished store close_diagnostics
  stop_finished-restart_times none r s = refl
  stop_finished-restart_times (some exit_code) r s = refl

  stop_owned-restart_times :
      (owned : Option (List Pid)) (child : Option Pid) (r : ProcessRecord) (s : Supervisor)
      → (stop_owned host a component owned child r s).1.restart_times ≡ s.restart_times
  unfolding stop_owned stop_ended stop_degraded store
  stop_owned-restart_times none child r s = refl
  stop_owned-restart_times (some owned) child r s =
      let IsSame : Option ProcessRecord × Supervisor → Type 0 =
        λ w. w.1.restart_times ≡ s.restart_times in
      if_case IsSame (terminate_owned_processes host a owned child s.effects).1 _ _ (λ left. refl)
        (λ done.
          if_case IsSame (wait_for_pids_to_exit host owned a.looks a.last_look) _ _
            (λ e. stop_finished-restart_times _ r _) (λ e. refl))

  with_context-restart_times :
      (operation_id : Option Text) (operation : Text) (s : Supervisor)
      → (with_context host a component operation_id operation s).restart_times ≡ s.restart_times
  unfolding with_context
  with_context-restart_times none operation s = refl
  with_context-restart_times (some i) operation s = refl

  stop_component-restart_times :
      (operation_id : Option Text) (operation : Text) (s : Supervisor)
      → (stop_component host a component operation_id operation s).1.restart_times ≡ s.restart_times
  unfolding stop_component stop_record put_stopping store close_diagnostics
  stop_component-restart_times operation_id operation s =
      let same = with_context-restart_times operation_id operation s in
      if_case (λ (w : Option ProcessRecord × Supervisor). w.1.restart_times ≡ s.restart_times)
        (has_no_process host a component
          (want_stopped (or_blank component (dict_get component s.registry))).pid
          (dict_get component s.children))
        _ _ (λ e. same) (λ e. stop_owned-restart_times _ _ _ _ ∙ same)

module _ (host : Host) (now : ℕ) where
  status_child-restart_times :
      (a : ChildAnswers) (poll : Option ℤ) (component : Text) (child : Pid) (r : ProcessRecord)
      (records : Dict ProcessRecord) (s : Supervisor)
      → (status_child host now a poll component child r (records, s)).1.restart_times
        ≡ s.restart_times
  unfolding status_child status_release drop_child release close_diagnostics
  status_child-restart_times a none component child r records s = refl
  status_child-restart_times a (some code) component child r records s =
      if_case (λ (t : Supervisor). t.restart_times ≡ s.restart_times) _ _ _ (λ e. refl) (λ e. refl)

  status_children-restart_times :
      (answers : Text → ChildAnswers) (children : Dict Pid) (records : Dict ProcessRecord)
      (s : Supervisor)
      → (status_children host now answers children (records, s)).1.restart_times ≡ s.restart_times
  unfolding status_children
  status_children-restart_times answers [] records s = refl
  status_children-restart_times answers ((component, child) ∷ children) records s =
      let next =
        status_child host now (answers component) (answers component).poll component child
          (or_new host now component (dict_get component records)) (records, s) in
      status_children-restart_times answers children next.0 next.1
      ∙ status_child-restart_times (answers component) (answers component).poll component child _
          records s

  settle_records-restart_times :
      (answers : Text → RecordAnswers) (records : Dict ProcessRecord) (s : Supervisor)
      → (settle_records host now answers records s).1.restart_times ≡ s.restart_times
  unfolding settle_records close_diagnostics
  settle_records-restart_times answers [] s = refl
  settle_records-restart_times answers ((component, r) ∷ records) s =
      settle_records-restart_times answers records _
      ∙ if_case (λ (t : Supervisor). t.restart_times ≡ s.restart_times)
          (not (is_some (dict_get component s.children))
            && settle_closes host now (answers component) r)
          _ _ (λ e. refl) (λ e. refl)

  status-restart_times :
      (child_answers : Text → ChildAnswers) (record_answers : Text → RecordAnswers) (s : Supervisor)
      → (status host now child_answers record_answers s).1.restart_times ≡ s.restart_times
  unfolding status settle_loop save_status save
  status-restart_times child_answers record_answers s =
      let (records, t) = status_children host now child_answers s.children (s.registry, s) in
      settle_records-restart_times record_answers records t
      ∙ status_children-restart_times child_answers s.children s.registry s

-- A call of the supervisor, with what the system answers.
pub data Operation : Type 0 where
  starts : StartAnswers → Text → List Text → Operation
  stops : StopAnswers → Text → Option Text → Text → Operation
  restarts : StopAnswers → StartAnswers → Text → List Text → Operation
  monitors : ℕ → Dict (List Text) → (Text → MonitorAnswers) → Operation
  looks_at : ℕ → (Text → ChildAnswers) → (Text → RecordAnswers) → Operation

module _ (host : Host) (limits : Limits) where
  unfoldable pub perform : Operation → Supervisor → Supervisor
  perform (starts a component command) s = (start_component host a component command s).1
  perform (stops a component operation_id operation) s =
      (stop_component host a component operation_id operation s).1
  perform (restarts stop start component command) s =
      (restart_component host stop start component command s).1
  perform (monitors now commands answers) s = (monitor_once host limits now commands answers s).1
  perform (looks_at now child_answers record_answers) s =
      (status host now child_answers record_answers s).1

  unfoldable pub perform_all : List Operation → Supervisor → Supervisor
  perform_all [] s = s
  perform_all (o ∷ os) s = perform_all os (perform o s)

  start_if_stopped-restart_times :
      (start : StartAnswers) (component : Text) (command : List Text) (r : Option ProcessRecord)
      (s : Supervisor)
      → (start_if_stopped host start component command (r, s)).1.restart_times ≡ s.restart_times
  unfolding start_if_stopped
  start_if_stopped-restart_times start component command none s = refl
  start_if_stopped-restart_times start component command (some r) s =
      if_case (λ (w : Option ProcessRecord × Supervisor). w.1.restart_times ≡ s.restart_times)
        (is_stopped r.state) _ _ (λ e. start_component-restart_times host start component command s)
        (λ e. refl)

  same_times-IsLimited :
      (s t : Supervisor)
      → t.restart_times ≡ s.restart_times
      → IsLimited limits s
      → IsLimited limits t
  same_times-IsLimited s t e limited =
      subst (λ times. AllValues (λ xs. length xs ≤ limits.max_restarts) times) (sym e) limited

  perform-IsLimited :
      (o : Operation) (s : Supervisor) → IsLimited limits s → IsLimited limits (perform o s)
  unfolding perform restart_component
  perform-IsLimited (starts a component command) s limited =
      same_times-IsLimited s (perform (starts a component command) s)
        (start_component-restart_times host a component command s) limited
  perform-IsLimited (stops a component operation_id operation) s limited =
      same_times-IsLimited s (perform (stops a component operation_id operation) s)
        (stop_component-restart_times host a component operation_id operation s) limited
  perform-IsLimited (restarts stop start component command) s limited =
      let stopped_ = stop_component host stop component none stop_word s in
      same_times-IsLimited s (perform (restarts stop start component command) s)
        (start_if_stopped-restart_times start component command stopped_.0 stopped_.1
          ∙ stop_component-restart_times host stop component none stop_word s)
        limited
  perform-IsLimited (monitors now commands answers) s limited =
      monitor_once-IsLimited host limits now commands answers s limited
  perform-IsLimited (looks_at now child_answers record_answers) s limited =
      same_times-IsLimited s (perform (looks_at now child_answers record_answers) s)
        (status-restart_times host now child_answers record_answers s) limited

  -- Over any sequence of starts, stops, restarts, passes of monitor_once and looks at the status, the
  -- list of each component's recent restarts stays within max_restarts, whatever the system answers
  -- and also where an exception leaves a pass.
  pub perform_all-IsLimited :
      (os : List Operation) (s : Supervisor)
      → IsLimited limits s
      → IsLimited limits (perform_all os s)
  unfolding perform_all
  perform_all-IsLimited [] s limited = limited
  perform_all-IsLimited (o ∷ os) s limited =
      perform_all-IsLimited os (perform o s) (perform-IsLimited o s limited)
