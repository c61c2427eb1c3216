-- ===== src/Shadow/Examples.antt =====
-- services/shadow_outcome.py: a decision to buy whose stop is reached by the second candle.
use xauusd_bot.Base.{
  ℕ, ◌+◌, ◌-◌, ◌*◌, ◌/◌, ◌≡◌, refl, ap, Bool, true, some, List, [], ◌∷◌, ◌++◌, take, ltb, leb,
}
use xauusd_bot.Risk.Floats.{Floats, least}
use xauusd_bot.Shadow.Evaluation.{
  Candle, buy, Decision, sl_hit, Plan, base, comes_first, insert_candle, sorted_candles, after,
  greatest, hits_target, hits_stop, favourable_price, adverse_price, gain, loss, marked, finish,
  expire, walk, after_walk, planned, has_geometry, evaluate_plan, evaluate_prices, evaluate_side,
  evaluate_decision,
}
use xauusd_bot.Shadow.Stability.{is_terminal, evaluate_decision-append}
use xauusd_bot.Shadow.Touches.{Justified, evaluate_plan-Justified}

-- Whole numbers, with a difference that stops at 0.
abbrev pub floats : Floats ℕ
floats = record {
  of_nat = λ n. n;
  add = λ a b. a + b;
  sub = λ a b. a - b;
  mul = λ a b. a * b;
  div = λ a b. a / b;
  abs = λ a. a;
  lt = ltb;
  le = leb;
  floor = some;
  round = λ digits a. a;
  nano = 0;
}

abbrev pub finite : ℕ → Bool
finite n = true

abbrev pub decision : Decision ℕ
decision = record {
  side = buy;
  entry_price = some 100;
  stop_loss = some 90;
  take_profit = some 120;
  m5_candle_timestamp = 5;
}

abbrev candle : ℕ → ℕ → ℕ → Candle ℕ
candle time high low = record { id = time; timestamp = time; high = high; low = low; close = low }

abbrev pub candles : List (Candle ℕ)
candles = candle 15 110 85 ∷ candle 10 105 95 ∷ []

abbrev later : List (Candle ℕ)
later = candle 20 130 100 ∷ []

stop_is_reached : (evaluate_decision floats finite 12 decision candles).terminal_status ≡ sl_hit
unfolding base comes_first insert_candle sorted_candles after greatest least hits_target hits_stop
    favourable_price adverse_price gain loss marked finish expire walk after_walk planned
    has_geometry evaluate_plan evaluate_prices evaluate_side evaluate_decision
stop_is_reached = refl

evaluate_decision-append_example :
    evaluate_decision floats finite 12 decision (candles ++ later)
    ≡ evaluate_decision floats finite 12 decision candles
unfolding comes_first
evaluate_decision-append_example =
    evaluate_decision-append floats finite 12 decision candles later ((refl, tt), ((refl, tt), tt))
      (ap is_terminal stop_is_reached)

abbrev plan : Plan ℕ
plan = record {
  is_buy = true;
  entry = 100;
  stop = 90;
  target = 120;
  risk = 10;
  target_distance = 20;
}

evaluate_plan-Justified_example :
    Justified floats finite plan 12
      (take 12 later)
      (evaluate_plan floats finite 12 plan later).terminal_status
evaluate_plan-Justified_example = evaluate_plan-Justified floats finite plan 12 later refl
