-- ===== src/Supervisor/Restarts.antt =====
-- services/supervisor.py: when `monitor_once` restarts a component, and how often.
use xauusd_bot.Base.{
  ℕ, suc, ◌≤◌, ◌≡◌, refl, sym, ap, subst, ℤ, Bool, true, false, Option, none, some, List, [], ◌∷◌,
  ◌++◌, Text, length, ltb, inl, inr, if_case, arith, Option-cases, Dict, dict_get, or_default,
  AllValues, AllValues-dict_set, AllValues-dict_get,
}
use xauusd_bot.Supervisor.Types.{Pid, ProcessRecord, Supervisor, Limits, Host, is_running}
use xauusd_bot.Supervisor.Start.{StartAnswers, close_diagnostics}
use xauusd_bot.Supervisor.Spawning.{start_component-restart_times}
use xauusd_bot.Supervisor.Monitor.{
  MonitorAnswers, Pass, Passing, goes_on, raises, recent, save, put_record, put_changed, drop_child,
  release, monitor_live, monitor_stopped, monitor_survivor, history_of, with_history, monitor_start,
  monitor_restart, monitor_crash, monitor_survivors, monitor_ended, monitor_polled, monitor_child,
  monitor_children, save_pass, monitor_once,
}

abbrev pub supervisor_of : Passing → Supervisor
supervisor_of (goes_on p) = p.supervisor
supervisor_of (raises s) = s

length-recent :
    (limits : Limits) (now : ℕ) (items : List ℕ) → length (recent limits now items) ≤ length items
unfolding recent
length-recent limits now [] = omega arith
length-recent limits now (item ∷ items) = ground (arith, length-recent limits now items)

length-snoc : (items : List ℕ) (now : ℕ) → length (items ++ now ∷ []) ≡ suc (length items)
length-snoc [] now = refl
length-snoc (item ∷ items) now = ap suc (length-snoc items now)

-- No component has more recorded restarts than the limit.
abbrev pub IsLimited : Limits → Supervisor → Type 0
IsLimited limits s = AllValues (λ times. length times ≤ limits.max_restarts) s.restart_times

module _ (host : Host) (limits : Limits) (now : ℕ) (commands : Dict (List Text)) where
  module _ (a : MonitorAnswers) (component : Text) where
    history-length :
        (s : Supervisor)
        → IsLimited limits s
        → length (history_of host limits now commands a component s) ≤ limits.max_restarts
    unfolding history_of recent
    history-length s limited =
        let bound = length-recent limits now (or_default [] (dict_get component s.restart_times)) in
        elim (Option-cases (dict_get component s.restart_times)) [
          | inl e ↦ rw e (omega arith)
          | inr (times, e) ↦
              let own =
                AllValues-dict_get (λ xs. length xs ≤ limits.max_restarts) component times
                  s.restart_times limited e in
              rw e (omega (arith, own, length-recent limits now times))
        ]

    monitor_start-IsLimited :
        (answers : Option StartAnswers) (command : List Text) (r : ProcessRecord) (p : Pass)
        → IsLimited limits p.supervisor
        → IsLimited limits
            (supervisor_of (monitor_start host limits now commands a component answers command r p))
    unfolding monitor_start save put_record
    monitor_start-IsLimited none command r p limited = limited
    monitor_start-IsLimited (some answers) command r p limited =
        subst (λ times. AllValues (λ xs. length xs ≤ limits.max_restarts) times)
          (sym (start_component-restart_times host answers component command _)) limited

    with_history-IsLimited :
        (history : List ℕ) (s : Supervisor)
        → length history ≤ limits.max_restarts
        → IsLimited limits s
        → IsLimited limits (with_history host limits now commands a component history s)
    unfolding with_history
    with_history-IsLimited history s h limited =
        AllValues-dict_set (λ xs. length xs ≤ limits.max_restarts) component history s.restart_times
          h limited

    monitor_restart-IsLimited :
        (b : Bool) (command : Option (List Text)) (history : List ℕ) (r : ProcessRecord) (p : Pass)
        → b ≡ ltb (length history) limits.max_restarts
        → length history ≤ limits.max_restarts
        → IsLimited limits p.supervisor
        → IsLimited limits (
            supervisor_of
              (monitor_restart host limits now commands a component b command history r p))
    unfolding monitor_restart put_changed
    monitor_restart-IsLimited true (some command) history r p below h limited =
        monitor_start-IsLimited a.start command _ _ (
          with_history-IsLimited _ p.supervisor (ground (arith, below, length-snoc history now))
            limited)
    monitor_restart-IsLimited true none history r p below h limited =
        with_history-IsLimited history p.supervisor h limited
    monitor_restart-IsLimited false command history r p below h limited =
        with_history-IsLimited history p.supervisor h limited

    -- What a child that is not restarted leaves alone.
    pub record Spares (p q : Pass) : Type 0 where
      pub effects : q.supervisor.effects ≡ p.supervisor.effects
      pub times : q.supervisor.restart_times ≡ p.supervisor.restart_times

    monitor_survivors-cases :
        (P : Passing → Type 0) (survivor : Option Pid) (code : ℤ) (r : ProcessRecord) (p : Pass)
        → ((q : Pass) → Spares p q → P (goes_on q))
        → P (monitor_crash host limits now commands a component code r p)
        → P (monitor_survivors host limits now commands a component survivor code r p)
    unfolding monitor_survivors monitor_survivor put_changed drop_child
    monitor_survivors-cases P none code r p spared crashed = crashed
    monitor_survivors-cases P (some survivor) code r p spared crashed =
        spared _ (record { effects = refl; times = refl })

    -- A child is left as it is, or it has crashed and is wanted.
    pub monitor_polled-cases :
        (P : Passing → Type 0) (poll : Option ℤ) (child : Pid) (r : ProcessRecord) (p : Pass)
        → ((q : Pass) → Spares p q → P (goes_on q))
        → ((code : ℤ)
            → poll ≡ some code
            → is_running r.desired_state ≡ true
            → P (monitor_crash host limits now commands a component code r p))
        → P (monitor_polled host limits now commands a component poll child r p)
    unfolding monitor_polled monitor_live monitor_ended monitor_survivors monitor_survivor
        monitor_stopped put_record put_changed drop_child release close_diagnostics
    monitor_polled-cases P none child r p spared crashed = spared _ (
        if_case (Spares p) (is_running r.desired_state) _ _
          (λ e. record { effects = refl; times = refl })
          (λ e. record { effects = refl; times = refl }))
    monitor_polled-cases P (some code) child r p spared crashed =
        if_case P (is_running r.desired_state) _ _
          (λ wanted. monitor_survivors-cases P _ code r p spared (crashed code refl wanted))
          (λ e. spared _ (record { effects = refl; times = refl }))

    monitor_crash-IsLimited :
        (code : ℤ) (r : ProcessRecord) (p : Pass)
        → IsLimited limits p.supervisor
        → IsLimited limits
            (supervisor_of (monitor_crash host limits now commands a component code r p))
    unfolding monitor_crash release drop_child close_diagnostics
    monitor_crash-IsLimited code r p limited =
        monitor_restart-IsLimited _ (dict_get component commands) _ _ _ refl
          (history-length p.supervisor limited) limited

    monitor_polled-IsLimited :
        (child : Pid) (r : ProcessRecord) (p : Pass)
        → IsLimited limits p.supervisor
        → IsLimited limits
            (supervisor_of (monitor_polled host limits now commands a component a.poll child r p))
    monitor_polled-IsLimited child r p limited =
        monitor_polled-cases (λ w. IsLimited limits (supervisor_of w)) a.poll child r p
          (λ q spares.
            subst (λ times. AllValues (λ xs. length xs ≤ limits.max_restarts) times)
              (sym spares.times) limited)
          (λ code e wanted. monitor_crash-IsLimited code r p limited)

    monitor_child-IsLimited :
        (found : Option ProcessRecord) (command : Option (List Text)) (child : Pid) (p : Pass)
        → IsLimited limits p.supervisor
        → IsLimited limits (
            supervisor_of
              (monitor_child host limits now commands a component found command child p))
    unfolding monitor_child
    monitor_child-IsLimited (some r) command child p limited =
        monitor_polled-IsLimited child r p limited
    monitor_child-IsLimited none (some command) child p limited =
        monitor_polled-IsLimited child _ p limited
    monitor_child-IsLimited none none child p limited = limited

  monitor_children-IsLimited :
      (answers : Text → MonitorAnswers) (children : Dict Pid) (w : Passing)
      → IsLimited limits (supervisor_of w)
      → IsLimited limits
          (supervisor_of (monitor_children host limits now commands answers children w))
  unfolding monitor_children
  monitor_children-IsLimited answers children (raises s) limited = limited
  monitor_children-IsLimited answers [] (goes_on p) limited = limited
  monitor_children-IsLimited answers ((component, child) ∷ children) (goes_on p) limited =
      let found = dict_get component p.records in
      let command = dict_get component commands in
      monitor_children-IsLimited answers children
        (monitor_child host limits now commands (answers component) component found command child p)
        (monitor_child-IsLimited (answers component) component found command child p limited)

  save_pass-IsLimited :
      (w : Passing)
      → IsLimited limits (supervisor_of w)
      → IsLimited limits (save_pass host limits now commands w).1
  unfolding save_pass save
  save_pass-IsLimited (goes_on p) limited = limited
  save_pass-IsLimited (raises s) limited = limited

  -- monitor_once keeps the list of each component's recent restarts within max_restarts, whatever
  -- the children, the clock and the starts answer, and also where an exception leaves it.
  pub monitor_once-IsLimited :
      (answers : Text → MonitorAnswers) (s : Supervisor)
      → IsLimited limits s
      → IsLimited limits (monitor_once host limits now commands answers s).1
  unfolding monitor_once
  monitor_once-IsLimited answers s limited =
      save_pass-IsLimited _ (monitor_children-IsLimited answers s.children _ limited)
