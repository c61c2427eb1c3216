-- ===== src/Shadow/Worker.antt =====
-- services/shadow_outcome.py: `evaluate_once` of ShadowOutcomeWorker, with the queries of
-- ShadowOutcomeRepository in persistence/repositories.py.
use xauusd_bot.Base.{
  ℕ, suc, Bool, true, false, not, ◌&&◌, ◌||◌, Option, none, some, List, [], ◌∷◌, ◌++◌, take, ltb,
  ◌==◌, if◌then◌else◌,
}
use xauusd_bot.Risk.Floats.{Floats}
use xauusd_bot.Shadow.Evaluation.{
  Candle, Side, buy, sell, no_trade, Decision, TerminalStatus, still_pending, invalid,
  waiting_for_future_candles, decision_not_found, Evaluated, base, evaluate_decision,
}

-- What a query orders by: a candle's time, `created_at` and `id`.
pub record Key : Type 0 where
  pub m5_time : ℕ
  pub created_at : ℕ
  pub id : ℕ

pub record DecisionRow (R : Type 0) : Type 0 where
  pub key : Key
  pub decision : Decision R

-- A ShadowOutcomeRecord of the worker's policy; `key.m5_time` is `decision_m5_timestamp`, and
-- what it copies from its decision is left out.
pub record OutcomeRow (R : Type 0) : Type 0 where
  pub key : Key
  pub decision_id : ℕ
  pub outcome : Evaluated R

pub record Counts : Type 0 where
  pub created : ℕ
  pub pending : ℕ
  pub terminal : ℕ
  pub errors : ℕ

unfoldable pub key_before : Key → Key → Bool
key_before a b =
    ltb a.m5_time b.m5_time
    || a.m5_time == b.m5_time
      && (ltb a.created_at b.created_at || a.created_at == b.created_at && ltb a.id b.id)

-- `order_by(…)` over the keys of the rows.
module _ {A : Type 0} (key_of : A → Key) where
  unfoldable pub insert_row : A → List A → List A
  insert_row a [] = a ∷ []
  insert_row a (b ∷ bs) =
      let rest = insert_row a bs in
      if key_before (key_of b) (key_of a) then b ∷ rest else a ∷ b ∷ bs

  unfoldable pub order_by_key : List A → List A
  order_by_key [] = []
  order_by_key (a ∷ as_) = insert_row a (order_by_key as_)

unfoldable pub is_trade_side : Side → Bool
is_trade_side buy = true
is_trade_side sell = true
is_trade_side no_trade = false

unfoldable pub is_unsettled : TerminalStatus → Bool
is_unsettled still_pending = true
is_unsettled _ = false

unfoldable pub count_status : TerminalStatus → Counts → Counts
count_status still_pending counts = record counts { pending = suc counts.pending }
count_status _ counts = record counts { terminal = suc counts.terminal }

module _ {R : Type 0} where
  unfoldable pub has_outcome : ℕ → List (OutcomeRow R) → Bool
  has_outcome decision_id [] = false
  has_outcome decision_id (row ∷ rows) =
      row.decision_id == decision_id || has_outcome decision_id rows

  unfoldable pub has_id : ℕ → List (OutcomeRow R) → Bool
  has_id id [] = false
  has_id id (row ∷ rows) = row.key.id == id || has_id id rows

  unfoldable pub without_outcome : List (OutcomeRow R) → List (DecisionRow R) → List (DecisionRow R)
  without_outcome rows [] = []
  without_outcome rows (d ∷ ds) =
      let rest = without_outcome rows ds in
      if is_trade_side d.decision.side && not (has_outcome d.key.id rows) then d ∷ rest else rest

  -- `unresolved_decisions`, of which there are at most 200.
  unfoldable pub unresolved_decisions :
      List (OutcomeRow R) → List (DecisionRow R) → List (DecisionRow R)
  unresolved_decisions rows decisions =
      take 200 (order_by_key (λ d. d.key) (without_outcome rows decisions))

  unfoldable pub pending_row : (now new_id : ℕ) → DecisionRow R → OutcomeRow R
  pending_row now new_id d = record {
    key = record { m5_time = d.key.m5_time; created_at = now; id = new_id };
    decision_id = d.key.id;
    outcome = base still_pending waiting_for_future_candles;
  }

  -- `ensure_pending`, where an id that is taken is an error of the database; `draw` is uuid4.
  unfoldable pub ensure_pending :
      (now : ℕ) (draw : ℕ → ℕ)
      → DecisionRow R
      → Counts × List (OutcomeRow R)
      → Counts × List (OutcomeRow R)
  ensure_pending now draw d (counts, rows) =
      if has_outcome d.key.id rows
      then (record counts { created = suc counts.created }, rows)
      else if has_id (draw d.key.id) rows
      then (record counts { errors = suc counts.errors }, rows)
      else (
        record counts { created = suc counts.created },
        rows ++ (pending_row now (draw d.key.id) d ∷ []),
      )

  unfoldable pub ensure_all :
      (now : ℕ) (draw : ℕ → ℕ)
      → List (DecisionRow R)
      → Counts × List (OutcomeRow R)
      → Counts × List (OutcomeRow R)
  ensure_all now draw [] out = out
  ensure_all now draw (d ∷ ds) out = ensure_all now draw ds (ensure_pending now draw d out)

  -- `list`, of which there are at most 2,000 rows.
  unfoldable pub listed_outcomes : List (OutcomeRow R) → List (OutcomeRow R)
  listed_outcomes rows = take 2000 (order_by_key (λ row. row.key) rows)

  -- `update`
  unfoldable pub update_outcome :
      ℕ → (Evaluated R → Evaluated R) → List (OutcomeRow R) → List (OutcomeRow R)
  update_outcome id f [] = []
  update_outcome id f (row ∷ rows) =
      (if row.key.id == id then record row { outcome = f row.outcome } else row)
      ∷ update_outcome id f rows

  unfoldable pub find_decision : ℕ → List (DecisionRow R) → Option (Decision R)
  find_decision id [] = none
  find_decision id (d ∷ ds) = if d.key.id == id then some d.decision else find_decision id ds

  unfoldable pub not_found : Evaluated R → Evaluated R
  not_found e = record e { terminal_status = invalid; reason_code = decision_not_found }

module _ {R : Type 0} (F : Floats R) (is_finite : R → Bool) (horizon_bars : ℕ) where
  -- The answers of one pass: the clock, the ids drawn, and `_future_candles` of a decision.
  pub record Answers : Type 0 where
    pub now : ℕ
    pub draw : ℕ → ℕ
    pub future_candles : Decision R → List (Candle R)

  unfoldable pub evaluate_found :
      Answers
      → OutcomeRow R
      → Option (Decision R)
      → Counts × List (OutcomeRow R)
      → Counts × List (OutcomeRow R)
  evaluate_found answers row none (counts, rows) =
      (record counts { errors = suc counts.errors }, update_outcome row.key.id not_found rows)
  evaluate_found answers row (some d) (counts, rows) =
      let values = evaluate_decision F is_finite horizon_bars d (answers.future_candles d) in
      (count_status values.terminal_status counts, update_outcome row.key.id (λ _. values) rows)

  unfoldable pub evaluate_row :
      Answers
      → List (DecisionRow R)
      → OutcomeRow R
      → Counts × List (OutcomeRow R)
      → Counts × List (OutcomeRow R)
  evaluate_row answers decisions row (counts, rows) =
      if is_unsettled row.outcome.terminal_status
      then evaluate_found answers row (find_decision row.decision_id decisions) (counts, rows)
      else (record counts { terminal = suc counts.terminal }, rows)

  unfoldable pub evaluate_rows :
      Answers
      → List (DecisionRow R)
      → List (OutcomeRow R)
      → Counts × List (OutcomeRow R)
      → Counts × List (OutcomeRow R)
  evaluate_rows answers decisions [] out = out
  evaluate_rows answers decisions (row ∷ listed) out =
      evaluate_rows answers decisions listed (evaluate_row answers decisions row out)

  -- `evaluate_once` over the tables, with what it returns.
  unfoldable pub evaluate_once :
      Answers → List (DecisionRow R) → List (OutcomeRow R) → Counts × List (OutcomeRow R)
  evaluate_once answers decisions rows =
      let out =
        ensure_all answers.now answers.draw (unresolved_decisions rows decisions)
          (record { created = 0; pending = 0; terminal = 0; errors = 0 }, rows) in
      evaluate_rows answers decisions (listed_outcomes out.1) out
