-- ===== src/Runtime/Health.antt =====
-- services/worker_health.py: the state of a worker from the age of its last row.
use xauusd_bot.Base.{
  ◌&&◌, Option, none, some, [], ◌∷◌, Text, codes, text_eq, has_text, if◌then◌else◌,
}
use xauusd_bot.Risk.Floats.{Floats}

pub data WorkerState : Type 0 where
  connected degraded catching_up failing disabled unknown : WorkerState

unfoldable pub connected_word : Text
connected_word = codes "CONNECTED"

module _ {R : Type 0} (F : Floats R) where
  -- `max(a, b)`, which keeps the first of two equals.
  unfoldable pub larger : R → R → R
  larger a b = if F.lt a b then b else a

  -- `worker_health_ttl`
  unfoldable pub worker_health_ttl : R → R
  worker_health_ttl interval_seconds = larger (F.of_nat 60) (F.mul interval_seconds (F.of_nat 4))

  -- The state of a normalised status at an age.
  unfoldable pub state_at : Text → (age ttl : R) → WorkerState
  state_at status age ttl =
      if text_eq status (codes "DISABLED")
      then disabled
      else if F.le age ttl
          && has_text status (connected_word ∷ codes "CATCHING_UP" ∷ codes "ERROR" ∷ [])
      then if text_eq status (codes "ERROR")
        then failing
        else if text_eq status connected_word
        then connected
        else catching_up
      else if F.le age (F.mul ttl (F.of_nat 2))
          && has_text status
              (connected_word ∷ codes "CATCHING_UP" ∷ codes "DEGRADED" ∷ codes "ERROR" ∷ [])
      then if text_eq status (codes "ERROR") then failing else degraded
      else unknown

  unfoldable pub text_or_blank : Option Text → Text
  text_or_blank none = []
  text_or_blank (some t) = t

  -- `derive_worker_state`; `seconds_since` is `(current - observed).total_seconds()`.
  unfoldable pub derive_worker_state :
      (upper : Text → Text) (status : Option Text) (seconds_since : Option R) (interval_seconds : R)
      → WorkerState
  derive_worker_state upper status none interval_seconds = unknown
  derive_worker_state upper status (some seconds) interval_seconds =
      state_at (upper (text_or_blank status)) (larger (F.of_nat 0) seconds)
        (worker_health_ttl interval_seconds)
