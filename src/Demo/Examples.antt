-- ===== src/Demo/Examples.antt =====
-- A demo order for a signal to buy, from the checks to the broker's answer.
use xauusd_bot.Base.{
  Bool, pos, ℕ, ◌+◌, ◌-◌, ◌*◌, ◌/◌, ◌≡◌, ◌⊎◌, refl, true, false, none, some, [], ◌∷◌, text_eq, ltb,
  leb, All, arith,
}
use xauusd_bot.Risk.Floats.{Floats, IsOrdered, least}
use xauusd_bot.Risk.Snapshot.{
  full, Symbol, Tick, Account, MarketSnapshot, position_risk_amount, percent_of, percent_if,
  tally_position, tally_positions, empty_tally, risk_is_known, open_percent,
  calculate_risk_snapshot,
}
use xauusd_bot.Risk.Gate.{
  approved, block, risk_gate, risk_per_lot, sized_volume, proposed_percent, check_volume,
  check_size, available_percent, evaluate_known, evaluate,
}
use xauusd_bot.Risk.Limits.{HasBoundedLoss, approved_within_limits}
use xauusd_bot.Demo.Types.{
  whole, absent, pending, Signal, Intelligence, Request, BrokerResult, Api, DemoRecord, Control,
  Desk, DemoSettings, DemoLibrary, reads, answers,
}
use xauusd_bot.Demo.Preflight.{
  buy_text, demo_text, ◌>>=◌, ◌>>◌, refuse_if, fail_if, or_refuse, setup_type_of, is_incomplete,
  validate_momentum, validate_pair_zone, validate_provenance, is_buy, is_sell, executable_price,
  deviation_price, deviation_points, preflight_evidence, is_demo, is_stale, are_candles_invalid,
  read_current_state,
}
use xauusd_bot.Demo.Request.{
  demo_magic_number, order_comment, has_bit, allows, first_allowed, filling_mode, setup_identity,
  is_unidentified, is_mismatch, sized, entry_of, is_far, check_levels, check_signal, check_symbol,
  order_request, order_type_of, place_order, price_order, build_request,
}
use xauusd_bot.Demo.Records.{
  returns, is_enabled, demo_execution_armed, existing, find_record, record_clash, insert_record,
  update_rows, updated, update_record, int_or_none, positive_int_or_none, is_accepted,
}
use xauusd_bot.Demo.Service.{
  Turn, candidate_id, candidate_row, winner, inserted_rejection, rejection_after, persist_rejection,
  broker_rejects, broker_unclear, broker_acknowledges, has_ticket, record_broker_result,
  send_failed, sent, switched_off, submit, inserted_pending, persist_pending, decided, meanwhile,
  preflight, execute_after, execute, execute_all,
}
use xauusd_bot.Demo.Once.{SentOnce, at_most_once}
use xauusd_bot.Demo.Rows.{Silent}
use xauusd_bot.Demo.Steps.{Submission, execute-Step}
use xauusd_bot.Demo.Cleared.{Cleared, WithinLimits}
use xauusd_bot.Demo.Safety.{sent_order_is_Cleared}

-- Whole numbers, with the distance for the difference.
abbrev floats : Floats ℕ
floats = record {
  of_nat = λ n. n;
  add = λ a b. a + b;
  sub = λ a b. (a - b) + (b - a);
  mul = λ a b. a * b;
  div = λ a b. a / b;
  abs = λ a. a;
  lt = ltb;
  le = leb;
  floor = some;
  round = λ digits a. a;
  nano = 0;
}

floats-IsOrdered : IsOrdered floats
floats-IsOrdered = record {
  irreflexive = λ a. ground arith;
  transitive = λ a b c h k. ground arith;
  add_mono = λ a b e h. ground arith;
}

abbrev lib : DemoLibrary
lib = record { upper = λ t. t; sha256_hex = λ t. t }

abbrev cfg : DemoSettings ℕ
cfg = record {
  demo_execution_enabled = true;
  max_tick_age = 10000000;
  max_entry_deviation_points = 20;
  deviation_points = 20;
  max_trade_risk_percent = 2;
  max_aggregate_risk_percent = 6;
}

abbrev symbol : Symbol ℕ
symbol = record {
  name = 7 ∷ [];
  trade_mode_name = full;
  point = 1;
  digits = 2;
  trade_tick_size = 1;
  trade_tick_value_loss = 1;
  volume_step = 1;
  volume_min = 1;
  volume_max = 100;
}

abbrev tick : Tick ℕ
tick = record { bid = 99; ask = 100; timestamp = 900 }

abbrev account : Account ℕ
account = record {
  trade_mode = 0;
  trade_mode_name = demo_text;
  equity = 10000;
  balance = 10000;
  margin = 0;
  free_margin = 10000;
}

abbrev market : MarketSnapshot ℕ
market = record {
  account = account;
  symbol = symbol;
  tick = tick;
  positions = [];
  candles_m5 = 800 ∷ [];
  generated_at = 1000;
}

abbrev signal : Signal ℕ
signal = record {
  id = 1;
  signal_id = 9 ∷ [];
  session_id = 3;
  zone_id = some (5 ∷ []);
  decision = buy_text;
  entry_price = some 100;
  stop_loss = some 90;
  take_profit = some 120;
  setup_type = none;
  setup_event_id = none;
  setup_provenance_json = none;
  created_at = 850;
}

abbrev intelligence : Intelligence
intelligence = record {
  symbol = 7 ∷ [];
  candidate_id = some (8 ∷ []);
  pair_zone_event_id = some (5 ∷ []);
  forward_session_id = some 3;
  forward_signal_id = some 1;
}

abbrev api : Api
api = record {
  trade_action_deal = some 1;
  order_type_buy = some 0;
  order_type_sell = some 1;
  order_time_gtc = some 0;
  order_filling_ioc = some 1;
  order_filling_fok = some 0;
  order_filling_return = some 2;
  trade_retcode_done = some 10009;
  trade_retcode_done_partial = some 10010;
  trade_retcode_placed = some 10008;
}

abbrev armed : Control
armed = record { enabled = true; reason = []; updated_by = [] }

abbrev result : BrokerResult
result = record {
  retcode = whole (pos 10009);
  order = whole (pos 77);
  deal = absent;
  position = absent;
  comment = [];
}

abbrev turn : Turn ℕ
turn = record {
  signal = signal;
  decision = some buy_text;
  snapshot = market;
  intelligence = some intelligence;
  reading = reads symbol tick account [] (some 0) 1000;
  api = some api;
  record_id = 4;
  other_rows = [];
  control_then = some armed;
  sending = answers result;
  now = 1001;
}

abbrev desk : Desk ℕ
desk = record { control = some armed; records = []; sent = [] }

abbrev request : Request ℕ
request = record {
  action = 1;
  symbol = 7 ∷ [];
  volume = 20;
  order_type = 0;
  price = 100;
  sl = 90;
  tp = 120;
  deviation = 20;
  magic = demo_magic_number;
  comment = 88 ∷ 65 ∷ 85 ∷ 68 ∷ 69 ∷ 77 ∷ 79 ∷ 45 ∷ 9 ∷ [];
  type_time = 0;
  type_filling = 1;
}

-- The row that the order is written down in, and the desk that has it.
abbrev row : DemoRecord ℕ
row = candidate_row turn (some 3) pending none (some request) (some 20) (some 0) none

abbrev pending_desk : Desk ℕ
pending_desk = record { control = some armed; records = row ∷ []; sent = [] }

-- The line opens what the calls below run through.
unfoldable opened : Bool
unfolding least position_risk_amount percent_of percent_if tally_position tally_positions
    empty_tally risk_is_known open_percent calculate_risk_snapshot block risk_gate risk_per_lot
    sized_volume proposed_percent check_volume check_size available_percent evaluate_known evaluate
    ◌>>=◌ ◌>>◌ refuse_if fail_if or_refuse setup_type_of is_incomplete validate_momentum
    validate_pair_zone validate_provenance is_buy is_sell executable_price deviation_price
    deviation_points preflight_evidence is_demo is_stale are_candles_invalid read_current_state
    order_comment has_bit allows first_allowed filling_mode setup_identity is_unidentified
    is_mismatch sized entry_of is_far check_levels check_signal check_symbol order_request
    order_type_of place_order price_order build_request demo_execution_armed existing find_record
    record_clash insert_record update_rows updated update_record int_or_none positive_int_or_none
    is_accepted candidate_id candidate_row winner inserted_rejection rejection_after
    persist_rejection broker_rejects broker_unclear broker_acknowledges has_ticket
    record_broker_result send_failed sent switched_off submit inserted_pending persist_pending
    decided meanwhile preflight execute_after execute execute_all text_eq
opened = true

sends_request : (execute floats lib cfg turn desk).1.sent ≡ (1, request) ∷ []
unfolding opened
sends_request = refl

approves_request :
    evaluate floats (risk_gate floats 2 6) market (calculate_risk_snapshot floats market 2 6) 100 90
    ≡ some (approved 0 6 0, some 20)
unfolding opened
approves_request = refl

records_answer :
    (record_broker_result turn result pending_desk).0
    ≡ returns (some (broker_acknowledges turn result row))
unfolding opened
records_answer = refl

desk-SentOnce : SentOnce desk
desk-SentOnce i = ground arith

approved_within_limits_example :
    All (HasBoundedLoss floats symbol) []
    × ((volume : ℕ) × (some 20 ≡ some volume)
        × (ltb volume 1 ≡ false)
        × (ltb 100 volume ≡ false)
        × (ltb (2 + 0) 0 ≡ false)
        × (ltb (6 + 0) (0 + 0) ≡ false))
approved_within_limits_example =
    approved_within_limits floats floats-IsOrdered 2 6 2 6 market 100 90 0 6 0 (some 20)
      approves_request

at_most_once_example : SentOnce (execute_all floats lib cfg (turn ∷ turn ∷ []) desk)
at_most_once_example = at_most_once floats lib cfg (turn ∷ turn ∷ []) desk desk-SentOnce

execute-Step_example :
    Silent desk (execute floats lib cfg turn desk).1
    ⊎ Submission floats lib cfg turn desk (execute floats lib cfg turn desk).1
execute-Step_example = execute-Step floats lib cfg turn desk

sent_order_is_Cleared_example :
    (c : Cleared floats lib cfg turn request) × WithinLimits floats lib cfg c.current request
    × (cfg.demo_execution_enabled ≡ true)
    × (demo_execution_armed desk ≡ true)
    × (is_enabled turn.control_then ≡ true)
    × (existing turn.signal.id desk.records ≡ none)
sent_order_is_Cleared_example =
    sent_order_is_Cleared floats lib cfg floats-IsOrdered turn desk request sends_request
