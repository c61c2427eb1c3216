-- ===== src/Demo/Types.antt =====
-- The rows of persistence/orm.py and the values of the broker that services/demo_execution.py
-- handles. Ids are opaque, so they are numbers, but those that the code compares with a text.
use xauusd_bot.Base.{ℕ, ℤ, Bool, Option, List, Text}
use xauusd_bot.Risk.Snapshot.{Symbol, Account, Tick, Position}
use xauusd_bot.Risk.Gate.{GateReason}

-- An attribute of the broker's answer: not there or `None`, no number, or a number.
pub data Attribute : Type 0 where
  absent malformed : Attribute
  whole : ℤ → Attribute

-- `setup_type`, as far as the code tells the names apart.
pub data SetupType : Type 0 where
  pair_zone_rejection momentum_breakout_v1 other_setup : SetupType

pub data Status : Type 0 where
  pending rejected indeterminate acknowledged : Status

pub data Rejection : Type 0 where
  momentum_provenance_missing momentum_provenance_incomplete unknown_setup_type : Rejection
  intelligence_provenance_missing intelligence_candidate_missing : Rejection
  pair_zone_provenance_mismatch forward_session_mismatch : Rejection
  forward_signal_provenance_missing : Rejection
  symbol_state_unavailable account_is_not_demo market_data_stale candle_state_invalid : Rejection
  canonical_signal_invalid canonical_decision_mismatch trade_level_missing : Rejection
  symbol_mismatch symbol_trade_mode_unavailable buy_not_allowed_by_symbol : Rejection
  sell_not_allowed_by_symbol entry_deviation_exceeded sl_tp_invalid_for_buy : Rejection
  sl_tp_invalid_for_sell sl_distance_invalid tp_distance_invalid risk_gate_passed : Rejection
  mt5_api_unavailable filling_mode_unknown mt5_order_constants_unavailable : Rejection
  gate_reason : GateReason → Rejection
  preflight_error kill_switch_disabled_before_order order_send_error broker_rejected : Rejection
  broker_acceptance_without_ticket : Rejection

-- `setup_provenance_json`: the two texts that are compared, and which other keys are there.
pub record Provenance : Type 0 where
  pub setup_type : Option SetupType
  pub setup_event_id : Option Text
  pub m15_context : Bool
  pub m5_trigger_candle : Bool
  pub breakout_level : Bool
  pub structural_sl_source : Bool

pub record Signal (R : Type 0) : Type 0 where
  pub id : ℕ
  pub signal_id : Text
  pub session_id : ℕ
  pub zone_id : Option Text
  pub decision : Text
  pub entry_price : Option R
  pub stop_loss : Option R
  pub take_profit : Option R
  pub setup_type : Option SetupType
  pub setup_event_id : Option Text
  pub setup_provenance_json : Option Provenance
  pub created_at : ℕ

pub record Intelligence : Type 0 where
  pub symbol : Text
  pub candidate_id : Option Text
  pub pair_zone_event_id : Option Text
  pub forward_session_id : Option ℕ
  pub forward_signal_id : Option ℕ

-- What `_preflight_evidence` collects.
pub record Evidence (R : Type 0) : Type 0 where
  pub executable_price : Option R
  pub deviation_price : Option R
  pub deviation_points : Option R
  pub max_deviation_points : R
  pub symbol_point : R
  pub broker_tick_time : ℕ
  pub preflight_timestamp : ℕ
  pub signal_created_at : ℕ
  pub broker_bid : R
  pub broker_ask : R
  pub symbol_digits : ℕ

-- The order that is sent; `magic` is always DEMO_MAGIC_NUMBER.
pub record Request (R : Type 0) : Type 0 where
  pub action : ℕ
  pub symbol : Text
  pub volume : R
  pub order_type : ℕ
  pub price : R
  pub sl : R
  pub tp : R
  pub deviation : ℕ
  pub magic : ℕ
  pub comment : Text
  pub type_time : ℕ
  pub type_filling : ℕ

pub record BrokerResult : Type 0 where
  pub retcode : Attribute
  pub order : Attribute
  pub deal : Attribute
  pub position : Attribute
  pub comment : Text

-- Constants of the MetaTrader5 module, each `none` where it lacks them.
pub record Api : Type 0 where
  pub trade_action_deal : Option ℕ
  pub order_type_buy : Option ℕ
  pub order_type_sell : Option ℕ
  pub order_time_gtc : Option ℕ
  pub order_filling_ioc : Option ℕ
  pub order_filling_fok : Option ℕ
  pub order_filling_return : Option ℕ
  pub trade_retcode_done : Option ℕ
  pub trade_retcode_done_partial : Option ℕ
  pub trade_retcode_placed : Option ℕ

-- `DemoExecutionRecord`, less `gate_reasons_json`, which repeats the first reason; an empty `request_json` is `none`, and so is the text of no session.
pub record DemoRecord (R : Type 0) : Type 0 where
  pub id : ℕ
  pub forward_signal_id : ℕ
  pub forward_session_id : Option ℕ
  pub intelligence_candidate_id : Text
  pub pair_zone_event_id : Option Text
  pub setup_type : SetupType
  pub setup_event_id : Option Text
  pub symbol : Text
  pub direction : Text
  pub status : Status
  pub rejection_reason : Option Rejection
  pub planned_entry : Option R
  pub submitted_entry : Option R
  pub stop_loss : Option R
  pub take_profit : Option R
  pub volume : Option R
  pub risk_percent : Option R
  pub evidence : Option (Evidence R)
  pub request : Option (Request R)
  pub result : Option BrokerResult
  pub broker_retcode : Option ℤ
  pub broker_order_ticket : Option ℕ
  pub broker_deal_ticket : Option ℕ
  pub broker_position_ticket : Option ℕ
  pub broker_comment : Option Text
  pub submitted_at : Option ℕ
  pub acknowledged_at : Option ℕ

pub record Control : Type 0 where
  pub enabled : Bool
  pub reason : Text
  pub updated_by : Text

-- The two tables, newest row first, and the orders that were handed to the broker, each with its
-- signal.
pub record Desk (R : Type 0) : Type 0 where
  pub control : Option Control
  pub records : List (DemoRecord R)
  pub sent : List (ℕ × Request R)

-- The settings that the service reads; the age is in microseconds.
pub record DemoSettings (R : Type 0) : Type 0 where
  pub demo_execution_enabled : Bool
  pub max_tick_age : ℕ
  pub max_entry_deviation_points : ℕ
  pub deviation_points : ℕ
  pub max_trade_risk_percent : R
  pub max_aggregate_risk_percent : R

-- What the module takes from elsewhere: `str.upper` and SHA-256 in hexadecimal.
pub record DemoLibrary : Type 0 where
  pub upper : Text → Text
  pub sha256_hex : Text → Text

-- What the terminal answers to `_read_current_state`: an exception, no symbol, or its state, with
-- the symbol's `filling_mode` and the clock.
pub data Reading (R : Type 0) : Type 0 where
  unreadable no_symbol : Reading R
  reads :
      Symbol R
      → Tick R
      → Account R
      → List (Position R)
      → (filling_mode : Option ℕ) → (now : ℕ) → Reading R

-- What `order_send` does.
pub data Sending : Type 0 where
  send_raises : Sending
  answers : BrokerResult → Sending
