-- ===== src/Shadow/Evaluation.antt =====
-- services/shadow_outcome.py: `evaluate_decision`, over the operations of floats. `is_finite` is
-- math.isfinite.
use xauusd_bot.Base.{
  ℕ, suc, Bool, true, false, not, ◌&&◌, ◌||◌, Option, none, some, List, [], ◌∷◌, length, take, ltb,
  leb, ◌==◌, if◌then◌else◌,
}
use xauusd_bot.Risk.Floats.{Floats, least, is_no_more_than_zero}

-- The fields of CandleRecord that are read.
pub record Candle (R : Type 0) : Type 0 where
  pub id : ℕ
  pub timestamp : ℕ
  pub high : R
  pub low : R
  pub close : R

pub data Side : Type 0 where
  buy sell no_trade : Side

-- The fields of ShadowDecisionRecord that are read.
pub record Decision (R : Type 0) : Type 0 where
  pub side : Side
  pub entry_price : Option R
  pub stop_loss : Option R
  pub take_profit : Option R
  pub m5_candle_timestamp : ℕ

pub data TerminalStatus : Type 0 where
  still_pending tp_hit sl_hit ambiguous expired invalid : TerminalStatus

pub data ReasonCode : Type 0 where
  waiting_for_future_candles non_trade_decision invalid_price invalid_geometry : ReasonCode
  same_candle_tp_sl_order_unknown take_profit_reached stop_loss_reached : ReasonCode
  horizon_expired_mark_to_market decision_not_found : ReasonCode

-- The dictionary that is returned, without `evaluated_at`, the time of the call.
pub record Evaluated (R : Type 0) : Type 0 where
  pub terminal_status : TerminalStatus
  pub reason_code : ReasonCode
  pub bars_held : ℕ
  pub terminal_candle_timestamp : Option ℕ
  pub exit_price : Option R
  pub realized_r : Option R
  pub max_favorable_excursion_price : Option R
  pub max_adverse_excursion_price : Option R
  pub mfe_r : Option R
  pub mae_r : Option R

-- The end of the loop: a price was touched, or the candles are through, the last of them known.
pub data Walked (R : Type 0) : Type 0 where
  touched : Evaluated R → Walked R
  through : Evaluated R → Option (Candle R) → Walked R

-- The prices of a decision that is evaluated: `risk` and `target_distance` are positive.
pub record Plan (R : Type 0) : Type 0 where
  pub is_buy : Bool
  pub entry : R
  pub stop : R
  pub target : R
  pub risk : R
  pub target_distance : R

module _ {R : Type 0} where
  unfoldable pub base : TerminalStatus → ReasonCode → Evaluated R
  base status reason = record {
    terminal_status = status;
    reason_code = reason;
    bars_held = 0;
    terminal_candle_timestamp = none;
    exit_price = none;
    realized_r = none;
    max_favorable_excursion_price = none;
    max_adverse_excursion_price = none;
    mfe_r = none;
    mae_r = none;
  }

  -- The order of `(candle.timestamp, candle.id)`.
  unfoldable pub comes_first : Candle R → Candle R → Bool
  comes_first c d = ltb c.timestamp d.timestamp || c.timestamp == d.timestamp && leb c.id d.id

  unfoldable pub insert_candle : Candle R → List (Candle R) → List (Candle R)
  insert_candle c [] = c ∷ []
  insert_candle c (d ∷ ds) =
      let rest = insert_candle c ds in if comes_first c d then c ∷ d ∷ ds else d ∷ rest

  -- `sorted(…, key=…)`, which keeps the order of equal keys.
  unfoldable pub sorted_candles : List (Candle R) → List (Candle R)
  sorted_candles [] = []
  sorted_candles (c ∷ cs) = insert_candle c (sorted_candles cs)

  -- `candle.timestamp > decision.m5_candle_timestamp`
  unfoldable pub after : ℕ → List (Candle R) → List (Candle R)
  after t [] = []
  after t (c ∷ cs) = let rest = after t cs in if ltb t c.timestamp then c ∷ rest else rest

module _ {R : Type 0} (F : Floats R) (is_finite : R → Bool) where
  -- `max(a, b)`, which keeps the first of two equals.
  unfoldable pub greatest : R → R → R
  greatest a b = if F.lt a b then b else a

  module _ (plan : Plan R) where
    unfoldable pub hits_target : Candle R → Bool
    hits_target c = if plan.is_buy then F.le plan.target c.high else F.le c.low plan.target

    unfoldable pub hits_stop : Candle R → Bool
    hits_stop c = if plan.is_buy then F.le c.low plan.stop else F.le plan.stop c.high

    unfoldable pub favourable_price : R → Candle R → R
    favourable_price mfe c = if plan.is_buy then greatest mfe c.high else least F mfe c.low

    unfoldable pub adverse_price : R → Candle R → R
    adverse_price mae c = if plan.is_buy then least F mae c.low else greatest mae c.high

    -- A price against the entry, in the direction of the trade.
    unfoldable pub gain : R → R
    gain price = if plan.is_buy then F.sub price plan.entry else F.sub plan.entry price

    unfoldable pub loss : R → R
    loss price = if plan.is_buy then F.sub plan.entry price else F.sub price plan.entry

    -- What every candle of the walk writes.
    unfoldable pub marked : ℕ → (mfe mae : R) → Evaluated R
    marked index mfe mae = record (base still_pending waiting_for_future_candles) {
      bars_held = index;
      max_favorable_excursion_price = some mfe;
      max_adverse_excursion_price = some mae;
      mfe_r = some (F.div (gain mfe) plan.risk);
      mae_r = some (F.div (loss mae) plan.risk);
    }

    unfoldable pub finish : (tp sl : Bool) → Candle R → Evaluated R → Evaluated R
    finish true true c e = record e {
      terminal_status = ambiguous;
      terminal_candle_timestamp = some c.timestamp;
      reason_code = same_candle_tp_sl_order_unknown;
    }
    finish true false c e = record e {
      terminal_status = tp_hit;
      terminal_candle_timestamp = some c.timestamp;
      exit_price = some plan.target;
      realized_r = some (F.div plan.target_distance plan.risk);
      reason_code = take_profit_reached;
    }
    finish false _ c e = record e {
      terminal_status = sl_hit;
      terminal_candle_timestamp = some c.timestamp;
      exit_price = some plan.stop;
      realized_r = some (F.sub (F.of_nat 0) (F.of_nat 1));
      reason_code = stop_loss_reached;
    }

    -- The last candle of the horizon.
    unfoldable pub expire : Candle R → Evaluated R → Evaluated R
    expire c e = record e {
      terminal_status = expired;
      terminal_candle_timestamp = some c.timestamp;
      exit_price = some c.close;
      realized_r = some (F.div (gain c.close) plan.risk);
      reason_code = horizon_expired_mark_to_market;
    }

    -- The loop over the candles, which returns from its middle where a price is touched.
    unfoldable pub walk :
        (index : ℕ) (mfe mae : R) → Evaluated R → Option (Candle R) → List (Candle R) → Walked R
    walk index mfe mae e last [] = through e last
    walk index mfe mae e last (c ∷ cs) =
        let next = marked (suc index) (favourable_price mfe c) (adverse_price mae c) in
        let rest =
          walk (suc index) (favourable_price mfe c) (adverse_price mae c) next (some c) cs in
        if hits_target c || hits_stop c
        then touched (finish (hits_target c) (hits_stop c) c next)
        else rest

    abbrev pub expire_last : Option (Candle R) → Evaluated R → Evaluated R
    expire_last none e = e
    expire_last (some c) e = expire c e

    -- What follows the loop; there is a last candle where the horizon is at least one bar.
    unfoldable pub after_walk : (horizon_bars count : ℕ) → Walked R → Evaluated R
    after_walk horizon_bars count (touched e) = e
    after_walk horizon_bars count (through e last) =
        if ltb count horizon_bars then e else expire_last last e

  unfoldable pub planned : (is_buy : Bool) → (entry stop target : R) → Plan R
  planned is_buy entry stop target = record {
    is_buy = is_buy;
    entry = entry;
    stop = stop;
    target = target;
    risk = if is_buy then F.sub entry stop else F.sub stop entry;
    target_distance = if is_buy then F.sub target entry else F.sub entry target;
  }

  unfoldable pub has_geometry : Plan R → Bool
  has_geometry plan = not (
      is_no_more_than_zero F plan.risk
      || is_no_more_than_zero F plan.target_distance
      || not (is_finite plan.risk))

  unfoldable pub evaluate_plan : (horizon_bars : ℕ) → Plan R → List (Candle R) → Evaluated R
  evaluate_plan horizon_bars plan future =
      if has_geometry plan
      then after_walk plan horizon_bars (length (take horizon_bars future)) (
          walk plan 0 plan.entry plan.entry (base still_pending waiting_for_future_candles) none
            (take horizon_bars future))
      else base invalid invalid_geometry

  unfoldable pub evaluate_prices :
      (horizon_bars : ℕ) (is_buy : Bool) (entry stop target : Option R)
      → List (Candle R)
      → Evaluated R
  evaluate_prices horizon_bars is_buy (some entry) (some stop) (some target) future =
      if is_finite entry && is_finite stop && is_finite target
      then evaluate_plan horizon_bars (planned is_buy entry stop target) future
      else base invalid invalid_price
  evaluate_prices horizon_bars is_buy _ _ _ future = base invalid invalid_price

  unfoldable pub evaluate_side : ℕ → Side → Decision R → List (Candle R) → Evaluated R
  evaluate_side horizon_bars no_trade d future = base invalid non_trade_decision
  evaluate_side horizon_bars buy d future =
      evaluate_prices horizon_bars true d.entry_price d.stop_loss d.take_profit future
  evaluate_side horizon_bars sell d future =
      evaluate_prices horizon_bars false d.entry_price d.stop_loss d.take_profit future

  -- `evaluate_decision`, for a horizon of at least one bar.
  unfoldable pub evaluate_decision : (horizon_bars : ℕ) → Decision R → List (Candle R) → Evaluated R
  evaluate_decision horizon_bars d candles =
      evaluate_side horizon_bars d.side d (sorted_candles (after d.m5_candle_timestamp candles))
