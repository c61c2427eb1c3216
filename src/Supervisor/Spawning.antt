-- ===== src/Supervisor/Spawning.antt =====
-- services/supervisor.py: `start_component` starts a process only where none is found.
use xauusd_bot.Base.{
  ◌≡◌, refl, subst, false, ◌&&◌, Option, none, some, List, [], ◌∷◌, Text, inl, inr, ◌⊎◌, if_case,
  dict_get,
}
use mathlib.Core.List.{Memᴰ}
use xauusd_bot.Supervisor.Types.{Pid, ProcessRecord, Effect, spawned, Supervisor, Host}
use xauusd_bot.Supervisor.Identity.{find_matching_processes}
use xauusd_bot.Supervisor.Start.{
  StartAnswers, Popen, child_of, popen_raises, runs, existing_running, close_diagnostics,
  open_diagnostics, store, keep_child, launch, is_doubtful, adopt, start_on_matches, record_holds,
  record_is_alive, keep_record, start_on_record, has_command, start_on_child, start_component,
}

module _ (host : Host) (a : StartAnswers) (component : Text) (command : List Text) where
  -- Nothing that runs the component is found.
  pub record IsAbsent (child : Option Pid) (existing : Option ProcessRecord) : Type 0 where
    pub child_ended : (c : Pid) → child ≡ some c → runs a.second_poll ≡ false
    pub record_fails : record_holds host a component command existing ≡ false
    pub record_ended : record_is_alive host a component command existing ≡ false
    pub none_matches : find_matching_processes host command a.matching_snapshot ≡ []

  -- A start writes the record and nothing else, or launches a process where there is none.
  module _ (P : ProcessRecord × Supervisor → Type 0) (existing : Option ProcessRecord)
      (t : Supervisor) (stores : (r : ProcessRecord) → P (store component false r t)) where
    start_on_matches-cases :
        (matches : List Pid)
        → (matches ≡ []
            → P (launch host a component command a.popen existing (open_diagnostics component t)))
        → P (start_on_matches host a component command matches existing t)
    unfolding start_on_matches adopt
    start_on_matches-cases [] launches = launches refl
    start_on_matches-cases (p ∷ []) launches =
        if_case P (is_doubtful host a component command existing (p ∷ [])) _ _ (λ b. stores _)
          (λ b. stores _)
    start_on_matches-cases (p ∷ q ∷ ps) launches = stores _

    start_on_record-cases :
        (child : Option Pid)
        → ((c : Pid) → child ≡ some c → runs a.second_poll ≡ false)
        → (IsAbsent child existing
            → P (launch host a component command a.popen existing (open_diagnostics component t)))
        → P (start_on_record host a component command existing t)
    unfolding start_on_record keep_record
    start_on_record-cases child ended launches =
        if_case P (record_holds host a component command existing) _ _ (λ b. stores _)
          (λ fails.
            if_case P (record_is_alive host a component command existing) _ _ (λ b. stores _)
              (λ gone. start_on_matches-cases _ (λ none_left. launches (record {
                child_ended = ended;
                record_fails = fails;
                record_ended = gone;
                none_matches = none_left;
              }))))

    pub start_on_child-cases :
        (child : Option Pid)
        → (IsAbsent child existing
            → P (launch host a component command a.popen existing (open_diagnostics component t)))
        → P (start_on_child host a component command child existing t)
    unfolding start_on_child keep_child
    start_on_child-cases none launches = start_on_record-cases none (λ c h. absurd (cc)) launches
    start_on_child-cases (some c) launches =
        if_case P (runs a.first_poll && has_command host a component command existing) _ _
          (λ b. stores _)
          (λ b.
            if_case P (runs a.second_poll) _ _ (λ d. stores _)
              (λ ended. start_on_record-cases (some c) (λ d h. ended) launches))

  abbrev pub Spawns : Option Pid → Option ProcessRecord → Effect → Type 0
  Spawns child existing e =
      (p : Pid) × (e ≡ spawned p) × (a.popen ≡ child_of p) × IsAbsent child existing

  launch-Spawns :
      (how : Popen) (child : Option Pid) (existing : Option ProcessRecord) (s t : Supervisor)
      (e : Effect)
      → a.popen ≡ how
      → t.effects ≡ s.effects
      → IsAbsent child existing
      → Memᴰ e (launch host a component command how existing t).1.effects
      → Memᴰ e s.effects ⊎ Spawns child existing e
  unfolding launch store close_diagnostics
  launch-Spawns (child_of p) child existing s t e how same absent (Memᴰ.head new) =
      inr (p, new, how, absent)
  launch-Spawns (child_of p) child existing s t e how same absent (Memᴰ.tail m) =
      inl (subst (λ es. Memᴰ e es) same m)
  launch-Spawns (popen_raises name) child existing s t e how same absent m =
      inl (subst (λ es. Memᴰ e es) same m)

  -- The only effect that start_component has is to start one process, and it has it only where the
  -- supervisor's child has ended, the record's process is neither verified nor alive, and
  -- _find_matching_processes finds no process of the command; that looks on Windows alone, at a
  -- command with a program, in the snapshot that it gets, and finds none elsewhere or where the
  -- snapshot fails.
  pub start_component-Spawns :
      (s : Supervisor) (e : Effect)
      → Memᴰ e (start_component host a component command s).1.effects
      → Memᴰ e s.effects
        ⊎ Spawns
            (dict_get component s.children)
            (existing_running (dict_get component s.registry))
            e
  unfolding start_component store open_diagnostics close_diagnostics
  start_component-Spawns s e =
      start_on_child-cases
        (λ w.
          Memᴰ e w.1.effects
          → Memᴰ e s.effects
            ⊎ Spawns (dict_get component s.children)
                (existing_running (dict_get component s.registry)) e)
        _ _ (λ r m. inl m) _ (λ absent. launch-Spawns a.popen _ _ s _ e refl refl absent)

  launch-restart_times :
      (how : Popen) (existing : Option ProcessRecord) (t : Supervisor)
      → (launch host a component command how existing t).1.restart_times ≡ t.restart_times
  unfolding launch store close_diagnostics
  launch-restart_times (child_of p) existing t = refl
  launch-restart_times (popen_raises name) existing t = refl

  pub start_component-restart_times :
      (s : Supervisor)
      → (start_component host a component command s).1.restart_times ≡ s.restart_times
  unfolding start_component store open_diagnostics close_diagnostics
  start_component-restart_times s =
      start_on_child-cases (λ w. w.1.restart_times ≡ s.restart_times) _ _ (λ r. refl) _
        (λ absent. launch-restart_times a.popen _ _)
