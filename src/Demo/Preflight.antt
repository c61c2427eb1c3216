-- ===== src/Demo/Preflight.antt =====
-- services/demo_execution.py: what must hold before an order is built.
use xauusd_bot.Base.{
  ℕ, ◌+◌, Bool, true, false, not, ◌&&◌, ◌||◌, Option, none, some, List, [], ◌∷◌, Text, text_eq,
  is_empty, ltb, ◌==◌, if◌then◌else◌, is_some,
}
use xauusd_bot.Risk.Floats.{Floats}
use xauusd_bot.Risk.Snapshot.{MarketSnapshot, RiskSnapshot, Account, calculate_risk_snapshot}
use xauusd_bot.Demo.Types.{
  SetupType, pair_zone_rejection, momentum_breakout_v1, other_setup, Rejection,
  momentum_provenance_missing, momentum_provenance_incomplete, unknown_setup_type,
  intelligence_provenance_missing, intelligence_candidate_missing, pair_zone_provenance_mismatch,
  forward_session_mismatch, forward_signal_provenance_missing, symbol_state_unavailable,
  account_is_not_demo, market_data_stale, candle_state_invalid, Provenance, Signal, Intelligence,
  Evidence, DemoSettings, DemoLibrary, Reading, unreadable, no_symbol, reads,
}

-- The outcome of the checks: they pass, a gate refuses, or the code raises.
pub data Preflight (R : Type 0) (A : Type 0) : Type 0 where
  passed : A → Preflight R A
  refused : Rejection → Option (Evidence R) → Preflight R A
  raised : Preflight R A

infixl 5 ◌>>=◌ ◌>>◌
unfoldable pub ◌>>=◌ : {R A B : Type 0} → Preflight R A → (A → Preflight R B) → Preflight R B
◌>>=◌ (passed a) f = f a
◌>>=◌ (refused r e) f = refused r e
◌>>=◌ raised f = raised

unfoldable pub ◌>>◌ : {R A B : Type 0} → Preflight R A → Preflight R B → Preflight R B
◌>>◌ (passed a) k = k
◌>>◌ (refused r e) k = refused r e
◌>>◌ raised k = raised

module _ {R : Type 0} where
  unfoldable pub refuse_if : Bool → Rejection → Option (Evidence R) → Preflight R (Unit {0})
  refuse_if true r e = refused r e
  refuse_if false r e = passed tt

  unfoldable pub fail_if : Bool → Preflight R (Unit {0})
  fail_if true = raised
  fail_if false = passed tt

  unfoldable pub or_refuse :
      {A : Type 0} → Option A → Rejection → Option (Evidence R) → Preflight R A
  or_refuse none r e = refused r e
  or_refuse (some a) r e = passed a

abbrev pub buy_text : Text
buy_text = 66 ∷ 85 ∷ 89 ∷ []

abbrev pub sell_text : Text
sell_text = 83 ∷ 69 ∷ 76 ∷ 76 ∷ []

abbrev pub demo_text : Text
demo_text = 100 ∷ 101 ∷ 109 ∷ 111 ∷ []

abbrev pub unknown_text : Text
unknown_text = 117 ∷ 110 ∷ 107 ∷ 110 ∷ 111 ∷ 119 ∷ 110 ∷ []

abbrev pub none_text : Text
none_text = 78 ∷ 111 ∷ 110 ∷ 101 ∷ []

-- A text attribute that is missing or empty.
abbrev pub is_blank : Option Text → Bool
is_blank none = true
is_blank (some t) = is_empty t

abbrev pub option_text_eq : Option Text → Option Text → Bool
option_text_eq none none = true
option_text_eq (some a) (some b) = text_eq a b
option_text_eq _ _ = false

abbrev pub option_is : Option ℕ → ℕ → Bool
option_is none n = false
option_is (some m) n = m == n

-- `getattr(signal, "setup_type", None) or "PAIR_ZONE_REJECTION"`
unfoldable pub setup_type_of : {R : Type 0} → Signal R → SetupType
setup_type_of signal = elim signal.setup_type [ none ↦ pair_zone_rejection | some t ↦ t ]

abbrev pub is_momentum : Option SetupType → Bool
is_momentum (some momentum_breakout_v1) = true
is_momentum _ = false

unfoldable pub is_incomplete : Option Text → Provenance → Bool
is_incomplete event p =
    not (
      is_some p.setup_type
      && (is_some p.setup_event_id
          && (p.m15_context
              && (p.m5_trigger_candle && (p.breakout_level && p.structural_sl_source)))))
    || not (is_momentum p.setup_type)
    || not (option_text_eq p.setup_event_id event)

module _ {R : Type 0} where
  unfoldable pub validate_momentum : Option Text → Option Provenance → Preflight R (Unit {0})
  validate_momentum event none = refused momentum_provenance_missing none
  validate_momentum event (some p) = do
    refuse_if (is_blank event) momentum_provenance_missing none
    refuse_if (is_incomplete event p) momentum_provenance_incomplete none

  unfoldable pub validate_pair_zone : Signal R → Option Intelligence → Preflight R (Unit {0})
  validate_pair_zone signal none = refused intelligence_provenance_missing none
  validate_pair_zone signal (some i) = do
    refuse_if (is_blank i.candidate_id) intelligence_candidate_missing none
    refuse_if (not (option_text_eq i.pair_zone_event_id signal.zone_id))
        pair_zone_provenance_mismatch none
    refuse_if (not (option_is i.forward_session_id signal.session_id)) forward_session_mismatch none
    refuse_if (not (option_is i.forward_signal_id signal.id)) forward_signal_provenance_missing none

  -- `_validate_provenance`
  unfoldable pub validate_provenance : Signal R → Option Intelligence → Preflight R (Unit {0})
  validate_provenance signal intelligence = elim (setup_type_of signal) [
    | momentum_breakout_v1 ↦ validate_momentum signal.setup_event_id signal.setup_provenance_json
    | pair_zone_rejection ↦ validate_pair_zone signal intelligence
    | other_setup ↦ refused unknown_setup_type none
  ]

module _ {R : Type 0} (lib : DemoLibrary) where
  unfoldable pub is_buy : Signal R → Bool
  is_buy signal = text_eq (lib.upper signal.decision) buy_text

  unfoldable pub is_sell : Signal R → Bool
  is_sell signal = text_eq (lib.upper signal.decision) sell_text

  unfoldable pub executable_price : Signal R → MarketSnapshot R → Option R
  executable_price signal s =
      if is_buy signal then some s.tick.ask else if is_sell signal then some s.tick.bid else none

module _ {R : Type 0} (F : Floats R) where
  unfoldable pub deviation_price : Option R → Option R → Option R
  deviation_price (some entry) (some planned) = some (F.abs (F.sub entry planned))
  deviation_price _ _ = none

  abbrev pub is_zero : R → Bool
  is_zero x = F.le x (F.of_nat 0) && F.le (F.of_nat 0) x

  unfoldable pub deviation_points : R → Option R → Option R
  deviation_points point none = none
  deviation_points point (some d) = if is_zero point then none else some (F.div d point)

unfoldable pub is_demo : {R : Type 0} → Account R → Bool
is_demo account = account.trade_mode == 0 && text_eq account.trade_mode_name demo_text

-- The tick comes from the future, or is too old.
unfoldable pub is_stale : (max_age now timestamp : ℕ) → Bool
is_stale max_age now timestamp = ltb now timestamp || ltb (timestamp + max_age) now

-- The last of the M5 candles, unless there is none or it comes from the future.
unfoldable pub are_candles_invalid : (now : ℕ) → List ℕ → Bool
are_candles_invalid now [] = true
are_candles_invalid now (t ∷ []) = ltb now t
are_candles_invalid now (t ∷ u ∷ us) = are_candles_invalid now (u ∷ us)

module _ {R : Type 0} (F : Floats R) (lib : DemoLibrary) (cfg : DemoSettings R) where
  -- `_preflight_evidence`, of numbers that `float` reads.
  unfoldable pub preflight_evidence : Signal R → MarketSnapshot R → Evidence R
  preflight_evidence signal s =
      let entry = executable_price lib signal s in
      let deviation = deviation_price F entry signal.entry_price in
      record {
        executable_price = entry;
        deviation_price = deviation;
        deviation_points = deviation_points F s.symbol.point deviation;
        max_deviation_points = F.of_nat cfg.max_entry_deviation_points;
        symbol_point = s.symbol.point;
        broker_tick_time = s.tick.timestamp;
        preflight_timestamp = s.generated_at;
        signal_created_at = signal.created_at;
        broker_bid = s.tick.bid;
        broker_ask = s.tick.ask;
        symbol_digits = s.symbol.digits;
      }

  -- `_read_current_state`: the market as it is now, its risk and the symbol's filling modes.
  unfoldable pub read_current_state :
      Signal R
      → MarketSnapshot R
      → Reading R
      → Preflight R (MarketSnapshot R × RiskSnapshot R × Option ℕ)
  read_current_state signal s unreadable = raised
  read_current_state signal s no_symbol = refused symbol_state_unavailable none
  read_current_state signal s (reads symbol tick account positions filling_mode now) =
      let priced : MarketSnapshot R = record s {
        symbol = symbol;
        tick = tick;
        generated_at = now;
      } in
      let current : MarketSnapshot R = record priced { account = account; positions = positions } in
      let evidence = some (preflight_evidence signal priced) in
      do
        refuse_if (not (is_demo account)) account_is_not_demo evidence
        refuse_if (is_stale cfg.max_tick_age now tick.timestamp) market_data_stale evidence
        refuse_if (are_candles_invalid now s.candles_m5) candle_state_invalid evidence
        passed (
          current,
          calculate_risk_snapshot F current cfg.max_trade_risk_percent
              cfg.max_aggregate_risk_percent,
          filling_mode,
        )
