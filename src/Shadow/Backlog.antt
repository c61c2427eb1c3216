-- ===== src/Shadow/Backlog.antt =====
-- services/shadow_outcome.py: a table in which 2,000 settled outcomes come before a pending one.
use xauusd_bot.Base.{
  ℕ, zero, suc, ◌≡◌, ◌≢◌, ◌≤◌, refl, some, none, List, [], ◌∷◌, All, All-mono, arith,
}
use xauusd_bot.Shadow.Evaluation.{
  still_pending, tp_hit, waiting_for_future_candles, take_profit_reached, base,
}
use xauusd_bot.Shadow.Worker.{OutcomeRow, DecisionRow, Answers, has_id, key_before, is_unsettled}
use xauusd_bot.Shadow.Ranks.{settled_before}
use xauusd_bot.Shadow.Passes.{HasUniqueIds, IsStarved, Keeps}
use xauusd_bot.Shadow.Finality.{evaluate_passes, starved_outcome_stays, settled_outcome_is_final}
use xauusd_bot.Shadow.Examples.{floats, finite, decision, candles}

abbrev settled_row : ℕ → OutcomeRow ℕ
settled_row id = record {
  key = record { m5_time = 0; created_at = 0; id = id };
  decision_id = id;
  outcome = base tp_hit take_profit_reached;
}

settled_rows : ℕ → List (OutcomeRow ℕ)
settled_rows zero = []
settled_rows (suc n) = settled_row n ∷ settled_rows n

abbrev waiting_row : OutcomeRow ℕ
waiting_row = record {
  key = record { m5_time = 5; created_at = 5; id = 5000 };
  decision_id = 7;
  outcome = base still_pending waiting_for_future_candles;
}

abbrev backlog : List (OutcomeRow ℕ)
backlog = waiting_row ∷ settled_rows 2000

abbrev pass : Answers floats finite 12 × List (DecisionRow ℕ)
pass = (
  record { now = 30; draw = λ id. id; future_candles = λ d. candles },
  record { key = record { m5_time = 5; created_at = 5; id = 7 }; decision = decision } ∷ [],
)

settled_rows-apart : (n m : ℕ) → n ≤ m → All (λ u. u.key.id ≢ m) (settled_rows n)
unfolding settled_rows
settled_rows-apart zero m h = tt
settled_rows-apart (suc n) m h = (λ e. omega (arith, e, h), settled_rows-apart n m (omega arith))

settled_rows-HasUniqueIds : (n : ℕ) → HasUniqueIds (settled_rows n)
unfolding settled_rows
settled_rows-HasUniqueIds zero = tt
settled_rows-HasUniqueIds (suc n) =
    (settled_rows-apart n n (omega arith), settled_rows-HasUniqueIds n)

settled_before-settled_rows : (n : ℕ) → settled_before waiting_row.key (settled_rows n) ≡ n
unfolding settled_rows settled_before key_before is_unsettled base
settled_before-settled_rows zero = refl
settled_before-settled_rows (suc n) = omega (arith, settled_before-settled_rows n)

backlog-HasUniqueIds : HasUniqueIds backlog
backlog-HasUniqueIds = (settled_rows-apart 2000 5000 (omega arith), settled_rows-HasUniqueIds 2000)

backlog-IsStarved : IsStarved (some 5000) backlog
unfolding has_id settled_before key_before
backlog-IsStarved = record {
  present = λ id e. ground (arith, e);
  behind = (
    λ e. omega (arith, settled_before-settled_rows 2000),
    All-mono (λ u. u.key.id ≢ 5000)
        (λ q. some q.key.id ≡ some 5000 → 2000 ≤ settled_before q.key backlog) (settled_rows 2000)
        (λ q apart e. absurd (apart (cc))) (settled_rows-apart 2000 5000 (omega arith)),
  );
}

starved_outcome_stays_example :
    Keeps (some 5000) backlog (evaluate_passes floats finite 12 (pass ∷ pass ∷ []) backlog)
starved_outcome_stays_example =
    starved_outcome_stays floats finite 12 5000 (pass ∷ pass ∷ []) backlog backlog-HasUniqueIds
      backlog-IsStarved

settled_outcome_is_final_example :
    Keeps none
      (waiting_row ∷ settled_row 4 ∷ [])
      (evaluate_passes floats finite 12 (pass ∷ pass ∷ []) (waiting_row ∷ settled_row 4 ∷ []))
settled_outcome_is_final_example =
    settled_outcome_is_final floats finite 12 (pass ∷ pass ∷ []) (waiting_row ∷ settled_row 4 ∷ [])
      ((λ e. omega (arith, e), tt), (tt, tt))
