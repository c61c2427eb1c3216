-- ===== src/PairZone/Examples.antt =====
-- services/pair_zone_strategy.py: a zone between two rising candles that a third confirms.
use xauusd_bot.Base.{
  All, dict_get, dict_set, dict_pop, text_eq, has_text, all_texts, ℕ, ◌+◌, ◌-◌, ◌*◌, ◌/◌, ◌≡◌, refl,
  true, none, some, List, [], ◌∷◌, ◌++◌, is_some, codes, ltb, leb,
}
use xauusd_bot.PairZone.Reports.{ExpiresByTouches, recent_zones-ExpireByTouches}
use xauusd_bot.Risk.Floats.{least, Floats}
use xauusd_bot.Risk.Gate.{
  block, risk_gate, risk_per_lot, sized_volume, proposed_percent, check_volume, check_size,
  available_percent, evaluate_known, evaluate,
}
use xauusd_bot.PairZone.Types.{
  minutes, MarketCandle, buy, PairZone, Config, Naming, blank_memory, confirmed,
}
use xauusd_bot.PairZone.Detection.{
  is_member, add_member, direction_text, greater_of, range_of, body_of, overlap_lower,
  overlap_upper, overlap_width, overlap_ratio_of, displacement_of, pair_direction, has_pair_shape,
  has_zone_size, keep_zone, cons_due, pair_key, zone_id_of, zone_of, detect_pair, detected,
  see_pair, zones_after, zones_at,
}
use xauusd_bot.PairZone.Life.{
  outdated, pop_all, prune_invalidated, is_relevant, relevant_candles, intersects, closes_beyond,
  body, wick, leaves_zone, confirms, breaks, touches_with, first_of, pass_candles, is_over,
  set_default, survive, end_life, live_on, lifecycle,
}
use xauusd_bot.PairZone.Coverage.{
  drop_items, last_items, without_last, last_item, has_steps, starts_at, is_at,
  has_complete_history, covered, starts_in_time, ema_from, ema, positive_closes, compare_averages,
  averages_direction, h1_direction,
}
use xauusd_bot.PairZone.Decision.{
  same_direction, is_confirmed, is_current, text_lt, m5_timestamp, insert_recent, recent_zones,
  count_touches, at_timestamp, newly_confirmed, first_candidate, first_current, Trade, trade,
  active_zone, canonical_signal_generated, Feed,
}
use xauusd_bot.PairZone.Evaluation.{
  has_items, note_zone, covers_m15, gap_reason, max_age, survey_zones, observe_active, observe,
  without_candidate, stop_of, distance_of, target_of, gated, price_trade, with_candidate, decide,
  decide_zones, refuse, evaluate_feed, evaluation_time, evaluate_pair_zone,
}
use xauusd_bot.Risk.Snapshot.{full, MarketSnapshot, RiskSnapshot}
use xauusd_bot.PairZone.Lifecycles.{lifecycle-Means, MeansOf}
use xauusd_bot.PairZone.Once.{
  evaluate_pair_zone-IsBacked, signalled-AreDistinct, AreDistinct, signalled,
}
use xauusd_bot.PairZone.Signals.{IsBacked}

-- Whole numbers, with a difference that stops at 0.
abbrev floats : Floats ℕ
floats = record {
  of_nat = λ n. n;
  add = λ a b. a + b;
  sub = λ a b. a - b;
  mul = λ a b. a * b;
  div = λ a b. a / b;
  abs = λ a. a;
  lt = ltb;
  le = leb;
  floor = some;
  round = λ digits a. a;
  nano = 0;
}

-- A time as a text of one code point, and a digest that changes nothing.
abbrev naming : Naming
naming = record { isoformat = λ t. t ∷ []; sha256_hex = λ text. text }

abbrev config : Config ℕ
config = record {
  target_rr = 2;
  min_body_points = 1;
  base_body_ratio_max = 1;
  displacement_body_ratio_min = 0;
  displacement_min_points = 2;
  minimum_overlap_ratio = 0;
  minimum_zone_width = 1;
  confirmation_wick_to_body = 1;
  zone_max_age_minutes = 360;
  zone_max_touches = 2;
  stop_buffer_points = 1;
  max_spread_points = 100;
  htf_fast_period = 1;
  htf_slow_period = 2;
}

-- By the minute.
abbrev candle : (minute open_price high low close : ℕ) → MarketCandle ℕ
candle minute open_price high low close = record {
  timestamp = minute * 60000000;
  open_price = open_price;
  high = high;
  low = low;
  close = close;
}

abbrev m15 : List (MarketCandle ℕ)
m15 = candle 0 100 106 98 104 ∷ candle 15 104 112 103 111 ∷ []

abbrev m5 : List (MarketCandle ℕ)
m5 = candle 35 110 111 107 108 ∷ candle 40 106 110 103 108 ∷ []

abbrev market : MarketSnapshot ℕ
market = record {
  account = record {
    trade_mode = 0;
    trade_mode_name = codes "DEMO";
    equity = 1000;
    balance = 1000;
    margin = 0;
    free_margin = 1000;
  };
  symbol = record {
    name = codes "XAUUSD";
    trade_mode_name = full;
    point = 1;
    digits = 2;
    trade_tick_size = 1;
    trade_tick_value_loss = 1;
    volume_step = 1;
    volume_min = 1;
    volume_max = 100;
  };
  tick = record { bid = 108; ask = 108; timestamp = 2400000000 };
  positions = [];
  candles_m5 = [];
  generated_at = 2400000000;
}

abbrev risk : RiskSnapshot ℕ
risk = record {
  timestamp = 2400000000;
  equity = 1000;
  balance = 1000;
  open_risk_percent = some 0;
  open_risk_amount = some 0;
  remaining_risk_percent = some 6;
  risk_per_position = [];
  max_trade_risk_percent = 2;
  max_aggregate_risk_percent = 6;
  open_positions_count = 0;
  unbounded_positions_count = 0;
  margin_usage_percent = none;
  free_margin = 1000;
}

abbrev feed : Feed ℕ
feed = record {
  market = market;
  spread = 20;
  h1 = candle 0 90 90 90 90 ∷ candle 60 100 100 100 100 ∷ candle 120 110 110 110 110 ∷ [];
  m15 = m15;
  m5 = some m5;
  risk = some risk;
  is_live = true;
  is_connected = true;
  candles_are_closed = true;
  now = 2400000000;
}

abbrev zone : PairZone ℕ
zone = record {
  zone_id = codes "pz-" ++ (0 ∷ b'|' ∷ 900000000 ∷ codes "|BUY");
  direction = buy;
  created_at = 1800000000;
  upper_bound = 106;
  lower_bound = 103;
  first_timestamp = 0;
  second_timestamp = 900000000;
  zone_width = 3;
  displacement = 7;
  body_ratio = 0;
  overlap_ratio = 0;
}

abbrev proposed : Trade ℕ
proposed = record {
  zone = zone;
  entry_price = 108;
  stop_loss = 102;
  take_profit = 120;
  risk_reward_ratio = 2;
  approved_risk_percent = 0;
  hypothetical_volume = 3;
  observation = active_zone canonical_signal_generated zone confirmed;
}

trade_is_proposed :
    (evaluate_pair_zone floats config naming feed blank_memory).0 ≡ some (trade proposed)
unfolding dict_get dict_set dict_pop text_eq has_text all_texts least block risk_gate risk_per_lot
    sized_volume proposed_percent check_volume check_size available_percent evaluate_known evaluate
    minutes is_member add_member direction_text greater_of range_of body_of overlap_lower
    overlap_upper overlap_width overlap_ratio_of displacement_of pair_direction has_pair_shape
    has_zone_size keep_zone cons_due pair_key zone_id_of zone_of detect_pair detected see_pair
    zones_after zones_at outdated pop_all prune_invalidated is_relevant relevant_candles intersects
    closes_beyond body wick leaves_zone confirms breaks touches_with first_of pass_candles is_over
    set_default survive end_life live_on lifecycle drop_items last_items without_last last_item
    has_steps starts_at is_at has_complete_history covered starts_in_time ema_from ema
    positive_closes compare_averages averages_direction h1_direction same_direction is_confirmed
    is_current text_lt m5_timestamp insert_recent recent_zones count_touches at_timestamp
    newly_confirmed first_candidate first_current has_items note_zone covers_m15 gap_reason max_age
    survey_zones observe_active observe without_candidate stop_of distance_of target_of gated
    price_trade with_candidate decide decide_zones refuse evaluate_feed evaluation_time
    evaluate_pair_zone
trade_is_proposed = refl

evaluate_pair_zone-IsBacked_example :
    IsBacked floats config feed blank_memory
      (evaluate_pair_zone floats config naming feed blank_memory).1
      proposed
evaluate_pair_zone-IsBacked_example =
    evaluate_pair_zone-IsBacked floats config naming feed blank_memory proposed trade_is_proposed

signalled-AreDistinct_example :
    AreDistinct floats config naming
      (signalled floats config naming (feed ∷ feed ∷ []) blank_memory)
signalled-AreDistinct_example =
    signalled-AreDistinct floats config naming (feed ∷ feed ∷ []) blank_memory

lifecycle-Means_example :
    MeansOf floats config zone 2400000000
      (relevant_candles zone 2400000000 m5)
      (is_some (
        dict_get zone.zone_id
          (prune_invalidated 2400000000 (blank_memory {R = ℕ})).invalidated_until))
      (lifecycle floats config zone 2400000000 m5 blank_memory).0
lifecycle-Means_example = lifecycle-Means floats config zone 2400000000 m5 blank_memory

recent_zones-ExpireByTouches_example :
    All
      (ExpiresByTouches floats config 2400000000)
      (recent_zones (max_age floats config) 2400000000 (zone ∷ []))
recent_zones-ExpireByTouches_example =
    recent_zones-ExpireByTouches floats config 2400000000 (zone ∷ [])
