-- ===== src/Supervisor/Settled.antt =====
-- services/supervisor.py: what a stop leaves of a component.
use xauusd_bot.Base.{
  negated, ◌≡◌, refl, sym, ◌∙◌, ap, ℤ, true, false, not, ◌||◌, Option, none, some, List, [], ◌∷◌,
  Text, inl, inr, ◌⊎◌, if_case, Bool-cases, dict_get, dict_get-dict_set, dict_get-dict_pop,
}
use mathlib.Core.List.{Memᴰ}
use xauusd_bot.Supervisor.Types.{
  Pid, stopped, stopping, degraded, LastError, ProcessRecord, Supervisor, Host,
}
use xauusd_bot.Supervisor.Start.{store, close_diagnostics}
use xauusd_bot.Supervisor.Stop.{
  Look, StopAnswers, verified_owned_pids, terminate_owned_processes, pids_are_alive,
  wait_for_pids_to_exit,
}
use xauusd_bot.Supervisor.Stopping.{
  or_blank, want_stopped, clear_process, stop_finished, stop_degraded, stop_ended, stop_owned,
  has_no_process, put_stopping, stop_record, with_context, exit_code_of, stop_component,
}
use xauusd_bot.Supervisor.Ending.{stopping_record}

module _ (host : Host) (pids : List Pid) (last : Look) where
  -- At some look until the timeout, or at the last, no one of the pids was there.
  abbrev pub AreSeenGone : List Look → Type 0
  AreSeenGone looks =
      (look : Look) × (Memᴰ look looks ⊎ (look ≡ last)) × (pids_are_alive host pids look ≡ false)

  later_look : (look : Look) (looks : List Look) → AreSeenGone looks → AreSeenGone (look ∷ looks)
  later_look look looks (seen, inl m, e) = (seen, inl (Memᴰ.tail m), e)
  later_look look looks (seen, inr is_last, e) = (seen, inr is_last, e)

  wait_for_pids_to_exit-AreSeenGone :
      (looks : List Look) → wait_for_pids_to_exit host pids looks last ≡ true → AreSeenGone looks
  unfolding wait_for_pids_to_exit
  wait_for_pids_to_exit-AreSeenGone [] h = (last, inr refl, negated _ h)
  wait_for_pids_to_exit-AreSeenGone (look ∷ looks) h =
      elim (Bool-cases (pids_are_alive host pids look)) [
        | inl e ↦ later_look look looks (
            wait_for_pids_to_exit-AreSeenGone looks
              (sym (ap (λ b. not b || wait_for_pids_to_exit host pids looks last) e) ∙ h))
        | inr e ↦ (look, inl (Memᴰ.head refl), e)
      ]

module _ (host : Host) (a : StopAnswers) (component : Text) (s : Supervisor) where
  -- There was nothing to stop, or the processes verified as the component's have been seen gone.
  abbrev pub IsGone : Type 0
  IsGone =
      (((stopping_record component s).pid ≡ none) × (dict_get component s.children ≡ none))
      ⊎ ((owned : List Pid) × (verified_owned_pids host a (stopping_record component s)
              (dict_get component s.children)
            ≡ some owned)
          × AreSeenGone host owned a.last_look a.looks)

  -- The three ends of a stop, by what is returned, what the registry has and which children are held.
  pub data IsEnd (w : Option ProcessRecord × Supervisor) (kept : ProcessRecord) : Type 0 where
    is_stopped :
        w.0 ≡ some kept
        → kept.state ≡ stopped
        → kept.pid ≡ none
        → dict_get component w.1.children ≡ none
        → IsGone
        → IsEnd w kept
    is_degraded : w.0 ≡ some kept → kept.state ≡ degraded → w.1.children ≡ s.children → IsEnd w kept
    is_left : w.0 ≡ none → kept.state ≡ stopping → w.1.children ≡ s.children → IsEnd w kept

  -- What the registry has of the component wants it STOPPED and is one of the three ends.
  pub record IsSettled (w : Option ProcessRecord × Supervisor) : Type 0 where
    pub kept : ProcessRecord
    pub registered : dict_get component w.1.registry ≡ some kept
    pub wants : kept.desired_state ≡ stopped
    pub ends : IsEnd w kept

  -- The registry has the intent to stop, and the children are those before the call.
  record Intends (r : ProcessRecord) (t : Supervisor) : Type 0 where
    registered : dict_get component t.registry ≡ some r
    wants : r.desired_state ≡ stopped
    state : r.state ≡ stopping
    children : t.children ≡ s.children

  stop_degraded-IsSettled :
      (e : LastError) (r : ProcessRecord) (t : Supervisor)
      → Intends r t
      → IsSettled (stop_degraded host a component e r t)
  unfolding stop_degraded store
  stop_degraded-IsSettled e r t intent = record {
    kept = record r { state = degraded; last_error = some e };
    registered = dict_get-dict_set component _ t.registry;
    wants = intent.wants;
    ends = is_degraded refl refl intent.children;
  }

  left-IsSettled : (r : ProcessRecord) (t : Supervisor) → Intends r t → IsSettled (none, t)
  left-IsSettled r t intent = record {
    kept = r;
    registered = intent.registered;
    wants = intent.wants;
    ends = is_left refl intent.state intent.children;
  }

  stop_finished-IsSettled :
      (exit_code : Option (Option ℤ)) (r : ProcessRecord) (t : Supervisor)
      → Intends r t
      → IsGone
      → IsSettled (stop_finished host a component exit_code r t)
  unfolding stop_finished store close_diagnostics clear_process
  stop_finished-IsSettled none r t intent gone = left-IsSettled r t intent
  stop_finished-IsSettled (some exit_code) r t intent gone = record {
    kept = _;
    registered = dict_get-dict_set component _ t.registry;
    wants = intent.wants;
    ends = is_stopped refl refl refl (dict_get-dict_pop component t.children) gone;
  }

  stop_owned-IsSettled :
      (owned : Option (List Pid)) (r : ProcessRecord) (t : Supervisor)
      → verified_owned_pids host a (stopping_record component s) (dict_get component s.children)
        ≡ owned
      → Intends r t
      → IsSettled (stop_owned host a component owned (dict_get component s.children) r t)
  unfolding stop_owned stop_ended
  stop_owned-IsSettled none r t given intent = stop_degraded-IsSettled _ r t intent
  stop_owned-IsSettled (some owned) r t given intent =
      let child = dict_get component s.children in
      let ended = terminate_owned_processes host a owned child t.effects in
      let next : Supervisor = record t { effects = ended.0 } in
      let same : Intends r next = record {
        registered = intent.registered;
        wants = intent.wants;
        state = intent.state;
        children = intent.children;
      } in
      if_case IsSettled ended.1 _ _ (λ left. left-IsSettled r next same)
        (λ done.
          if_case IsSettled (wait_for_pids_to_exit host owned a.looks a.last_look) _ _
            (λ e. stop_finished-IsSettled (exit_code_of host a component child r) r next same (
              inr
                (owned, given, wait_for_pids_to_exit-AreSeenGone host owned a.last_look a.looks e)))
            (λ e. stop_degraded-IsSettled _ r next same))

  has_no_process-none :
      (p child : Option Pid)
      → has_no_process host a component p child ≡ true
      → (p ≡ none) × (child ≡ none)
  has_no_process-none none none h = (refl, refl)
  has_no_process-none none (some c) h = absurd (cc)
  has_no_process-none (some p) child h = absurd (cc)

  with_context-children :
      (operation_id : Option Text) (operation : Text)
      → (with_context host a component operation_id operation s).children ≡ s.children
  unfolding with_context
  with_context-children none operation = refl
  with_context-children (some i) operation = refl

  -- After stop_component, also where a TimeoutExpired of taskkill or of the wait for the child leaves
  -- it, the registry has the component with the desired state STOPPED, and either it returns the
  -- component STOPPED, with no pid and no child, which it does only where the component had neither
  -- before or its verified processes have been seen gone; or it returns the component DEGRADED, with
  -- the children as they were; or the exception leaves it, with the component STOPPING and the
  -- children as they were.
  pub stop_component-IsSettled :
      (operation_id : Option Text) (operation : Text)
      → IsSettled (stop_component host a component operation_id operation s)
  unfolding stop_component stop_record put_stopping want_stopped store close_diagnostics
  stop_component-IsSettled operation_id operation =
      let r = want_stopped (or_blank component (dict_get component s.registry)) in
      let child = dict_get component s.children in
      let same = with_context-children operation_id operation in
      if_case IsSettled (has_no_process host a component r.pid child) _ _
        (λ idle.
          let (no_pid, no_child) = has_no_process-none r.pid child idle in
          record {
            kept = record r { state = stopped };
            registered = dict_get-dict_set component _ _;
            wants = refl;
            ends =
                is_stopped refl refl no_pid (ap (dict_get component) same ∙ no_child)
                  (inl (no_pid, no_child));
          })
        (λ busy. stop_owned-IsSettled _ (stopping_record component s) _ refl (record {
          registered = dict_get-dict_set component _ _;
          wants = refl;
          state = refl;
          children = same;
        }))
