-- ===== src/Supervisor/Ending.antt =====
-- services/supervisor.py: which processes `stop_component` ends, and what it leaves.
use xauusd_bot.Base.{
  ◌≡◌, refl, sym, ◌∙◌, ap, subst, ℤ, Bool, true, false, not, ◌&&◌, ◌||◌, if_case, Option, none,
  some, List, [], ◌∷◌, Text, ◌==◌, arith, Bool-cases, inl, inr, ◌⊎◌, if◌then◌else◌, false≢true,
  and_right, dict_get,
}
use mathlib.Core.List.{Memᴰ}
use xauusd_bot.Supervisor.Types.{
  Pid, stopping, ProcessRecord, Effect, killed, Supervisor, Host, find_identity,
}
use xauusd_bot.Supervisor.Trees.{elem}
use xauusd_bot.Supervisor.Reach.{eq_of_==}
use xauusd_bot.Supervisor.Descent.{elem_head}
use xauusd_bot.Supervisor.Owned.{IsOwned, as_child, AreOwned, owned_in-AreOwned}
use xauusd_bot.Supervisor.Start.{runs, store, close_diagnostics}
use xauusd_bot.Supervisor.Stop.{
  StopAnswers, idle_child, owned_of_record, verified_owned_pids, terminate_each, terminate_child,
  terminate_last, terminate_owned_processes, wait_for_pids_to_exit,
}
use xauusd_bot.Supervisor.Stopping.{
  or_blank, want_stopped, stop_finished, stop_degraded, stop_owned, has_no_process, stop_record,
  with_context, put_stopping, stop_ended, stop_component,
}

-- The record that a stop works on.
abbrev pub stopping_record : Text → Supervisor → ProcessRecord
stopping_record component s =
    record (want_stopped (or_blank component (dict_get component s.registry))) { state = stopping }

only : (x c : Pid) → elem x (c ∷ []) ≡ true → x == c ≡ true
unfolding elem
only x c h = ground (arith, h)

idle_child-only :
    (c : Pid) (poll : Option ℤ) (x : Pid) → elem x (idle_child (some c) poll) ≡ true → x == c ≡ true
unfolding elem
idle_child-only c none x h = only x c h
idle_child-only c (some code) x h = absurd (false≢true h)

right_false : (b c : Bool) → b && not c ≡ true → c ≡ false
right_false b true h = absurd (false≢true (and_right b false h))
right_false b false h = refl

module _ (host : Host) (a : StopAnswers) where
  if-AreOwned :
      (r : ProcessRecord) (child : Option Pid) (b : Bool) (o q : Option (List Pid))
      → (b ≡ true → AreOwned host r child a.owner_snapshot o)
      → (b ≡ false → AreOwned host r child a.owner_snapshot q)
      → AreOwned host r child a.owner_snapshot (if b then o else q)
  if-AreOwned r child true o q h k = h refl
  if-AreOwned r child false o q h k = k refl

  owned_of_record-AreOwned :
      (r : ProcessRecord) (at child : Option Pid)
      → r.pid ≡ at
      → AreOwned host r child a.owner_snapshot (owned_of_record host a r at child)
  unfolding owned_of_record AreOwned elem
  owned_of_record-AreOwned r none none h =
      if-AreOwned r none host.is_windows none _ (λ e. tt) (λ e x k. absurd (false≢true k))
  owned_of_record-AreOwned r none (some c) h =
      if-AreOwned r (some c) host.is_windows none _ (λ e. tt)
        (λ e x k. as_child e (ap some (sym (eq_of_== x c (idle_child-only c a.idle_poll x k)))))
  owned_of_record-AreOwned r (some p) child h =
      let found = find_identity p a.owner_snapshot in
      if-AreOwned r child host.is_windows _ none
        (λ e. owned_in-AreOwned host r child a.owner_snapshot p found e h refl) (λ e. tt)

  verified_owned_pids-AreOwned :
      (r : ProcessRecord) (child : Option Pid)
      → AreOwned host r child a.owner_snapshot (verified_owned_pids host a r child)
  unfolding verified_owned_pids AreOwned elem
  verified_owned_pids-AreOwned r none = owned_of_record-AreOwned r r.pid none refl
  verified_owned_pids-AreOwned r (some c) =
      elim (Bool-cases (runs a.owner_poll && not host.is_windows)) [
        | inl e ↦ rw e (λ x k.
            as_child (right_false (runs a.owner_poll) host.is_windows e)
              (ap some (sym (eq_of_== x c (only x c k)))))
        | inr e ↦ rw e (owned_of_record-AreOwned r r.pid (some c) refl)
      ]

later_elem : (q p : Pid) (ps : List Pid) → elem q ps ≡ true → elem q (p ∷ ps) ≡ true
unfolding elem
later_elem q p ps h = ground (arith, h)

module _ (P : Pid → Type 0) (e : Effect) where
  -- The effect is the end of a pid of this kind.
  abbrev pub Ends : Type 0
  Ends = (p : Pid) × (e ≡ killed p) × P p

  if-Ends :
      (b : Bool) (p : Pid) (effects : List Effect)
      → (b ≡ true → P p)
      → Memᴰ e (if b then killed p ∷ effects else effects)
      → Memᴰ e effects ⊎ Ends
  if-Ends true p effects own (Memᴰ.head same) = inr (p, same, own refl)
  if-Ends true p effects own (Memᴰ.tail m) = inl m
  if-Ends false p effects own m = inl m

  module _ (host : Host) where
    terminate_each-Ends :
        (expires : Pid → Bool) (alive ps : List Pid) (effects : List Effect)
        → ((p : Pid) → elem p ps ≡ true → P p)
        → Memᴰ e (terminate_each host expires alive ps effects).0
        → Memᴰ e effects ⊎ Ends
    unfolding terminate_each elem
    terminate_each-Ends expires alive [] effects own m = inl m
    terminate_each-Ends expires alive (p ∷ ps) effects own m =
        if_case (λ (w : List Effect × Bool). Memᴰ e w.0 → Memᴰ e effects ⊎ Ends)
          (host.is_windows && expires p) _ _
          (λ left k. if-Ends true p effects (λ b. own p (elem_head p ps)) k)
          (λ goes_on k.
            elim (terminate_each-Ends expires alive ps _ (λ q l. own q (later_elem q p ps l)) k) [
              | inl l ↦
                  if-Ends (host.is_windows || elem p alive) p effects (λ b. own p (elem_head p ps))
                    l
              | inr l ↦ inr l
            ])
          m

    terminate_child-Ends :
        (a : StopAnswers) (child : Option Pid) (effects : List Effect)
        → ((p : Pid) → host.is_windows ≡ false → child ≡ some p → P p)
        → Memᴰ e (terminate_child host a child effects)
        → Memᴰ e effects ⊎ Ends
    unfolding terminate_child
    terminate_child-Ends a none effects own m = inl m
    terminate_child-Ends a (some c) effects own m =
        if-Ends (runs a.terminate_poll && not host.is_windows) c effects
          (λ b. own c (right_false (runs a.terminate_poll) host.is_windows b) refl) m

    terminate_last-Ends :
        (a : StopAnswers) (child : Option Pid) (effects : List Effect) (expired : Bool)
        → ((p : Pid) → host.is_windows ≡ false → child ≡ some p → P p)
        → Memᴰ e (terminate_last host a child (effects, expired)).0
        → Memᴰ e effects ⊎ Ends
    unfolding terminate_last
    terminate_last-Ends a child effects true own m = inl m
    terminate_last-Ends a child effects false own m = terminate_child-Ends a child effects own m

module _ (host : Host) (a : StopAnswers) (component : Text) where
  -- The pids of an effect that the stop of this component may have.
  abbrev pub EndsOwned : Supervisor → Effect → Type 0
  EndsOwned s e =
      Ends
        (IsOwned host (stopping_record component s) (dict_get component s.children)
          a.owner_snapshot)
        e

  terminate_owned_processes-EndsOwned :
      (s : Supervisor) (owned : List Pid) (e : Effect)
      → verified_owned_pids host a (stopping_record component s) (dict_get component s.children)
        ≡ some owned
      → Memᴰ e (terminate_owned_processes host a owned (dict_get component s.children) s.effects).0
      → Memᴰ e s.effects ⊎ EndsOwned s e
  unfolding terminate_owned_processes AreOwned
  terminate_owned_processes-EndsOwned s owned e given m =
      let r = stopping_record component s in
      let child = dict_get component s.children in
      let P = IsOwned host r child a.owner_snapshot in
      let all =
        subst (AreOwned host r child a.owner_snapshot) given
          (verified_owned_pids-AreOwned host a r child) in
      elim (terminate_last-Ends P e host a child _ _ (λ p posix e. as_child posix e) m) [
        | inl k ↦ terminate_each-Ends P e host a.taskkill_expires a.alive_then owned s.effects all k
        | inr k ↦ inr k
      ]

  stop_finished-effects :
      (exit_code : Option (Option ℤ)) (r : ProcessRecord) (s : Supervisor)
      → (stop_finished host a component exit_code r s).1.effects ≡ s.effects
  unfolding stop_finished store close_diagnostics
  stop_finished-effects none r s = refl
  stop_finished-effects (some exit_code) r s = refl

  stop_owned-effects :
      (s : Supervisor) (r : ProcessRecord) (child : Option Pid) (owned : List Pid)
      → (stop_owned host a component (some owned) child r s).1.effects
        ≡ (terminate_owned_processes host a owned child s.effects).0
  unfolding stop_owned stop_ended stop_degraded store
  stop_owned-effects s r child owned =
      let ended = terminate_owned_processes host a owned child s.effects in
      let IsSame : Option ProcessRecord × Supervisor → Type 0 = λ w. w.1.effects ≡ ended.0 in
      if_case IsSame ended.1 _ _ (λ left. refl)
        (λ done.
          if_case IsSame (wait_for_pids_to_exit host owned a.looks a.last_look) _ _
            (λ e. stop_finished-effects _ r _) (λ e. refl))

  stop_owned-EndsOwned :
      (s t : Supervisor) (o : Option (List Pid)) (e : Effect)
      → t.effects ≡ s.effects
      → verified_owned_pids host a (stopping_record component s) (dict_get component s.children) ≡ o
      → Memᴰ e
          (stop_owned host a component o
            (dict_get component s.children)
            (stopping_record component s)
            t).1.effects
      → Memᴰ e s.effects ⊎ EndsOwned s e
  unfolding stop_owned stop_degraded store
  stop_owned-EndsOwned s t none e same given m = inl (subst (λ es. Memᴰ e es) same m)
  stop_owned-EndsOwned s t (some owned) e same given m =
      let child = dict_get component s.children in
      let ended =
        stop_owned-effects t (stopping_record component s) child owned
        ∙ ap (λ es. (terminate_owned_processes host a owned child es).0) same in
      terminate_owned_processes-EndsOwned s owned e given (subst (λ es. Memᴰ e es) ended m)

  with_context-effects :
      (operation_id : Option Text) (operation : Text) (s : Supervisor)
      → (with_context host a component operation_id operation s).effects ≡ s.effects
  unfolding with_context
  with_context-effects none operation s = refl
  with_context-effects (some i) operation s = refl

  -- Every effect of stop_component is the end of a process that the component owns: on Windows one
  -- of the verified tree below the record's process, or one that the record stores with its creation
  -- time, and elsewhere the child itself.
  pub stop_component-EndsOwned :
      (operation_id : Option Text) (operation : Text) (s : Supervisor) (e : Effect)
      → Memᴰ e (stop_component host a component operation_id operation s).1.effects
      → Memᴰ e s.effects ⊎ EndsOwned s e
  unfolding stop_component stop_record put_stopping store close_diagnostics
  stop_component-EndsOwned operation_id operation s e m =
      let same = with_context-effects operation_id operation s in
      elim (Bool-cases (
        has_no_process host a component (stopping_record component s).pid
          (dict_get component s.children))) [
            | inl idle ↦ inl (subst (λ es. Memᴰ e es) same (rw idle at m))
            | inr busy ↦ stop_owned-EndsOwned s _ _ e same refl (rw busy at m)
          ]
