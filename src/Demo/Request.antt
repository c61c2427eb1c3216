-- ===== src/Demo/Request.antt =====
-- services/demo_execution.py: the order, once every gate has let it through.
use Prim.Native.Nat.{◌%◌}
use xauusd_bot.Base.{
  ℕ, zero, suc, ◌/◌, Bool, true, false, not, ◌&&◌, ◌||◌, Option, none, some, List, [], ◌∷◌, ◌++◌,
  Text, text_eq, take, is_empty, ◌==◌, if◌then◌else◌,
}
use xauusd_bot.Risk.Floats.{Floats}
use xauusd_bot.Risk.Snapshot.{
  TradeMode, long_only, short_only, other_mode, MarketSnapshot, RiskSnapshot,
}
use xauusd_bot.Risk.Gate.{blocked, approved, Evaluation, risk_gate, evaluate}
use xauusd_bot.Demo.Types.{
  canonical_signal_invalid, canonical_decision_mismatch, trade_level_missing, symbol_mismatch,
  symbol_trade_mode_unavailable, buy_not_allowed_by_symbol, sell_not_allowed_by_symbol,
  entry_deviation_exceeded, sl_tp_invalid_for_buy, sl_tp_invalid_for_sell, sl_distance_invalid,
  tp_distance_invalid, risk_gate_passed, mt5_api_unavailable, filling_mode_unknown,
  mt5_order_constants_unavailable, gate_reason, Signal, Evidence, Request, Api, DemoSettings,
  DemoLibrary,
}
use xauusd_bot.Demo.Preflight.{
  Preflight, passed, refused, raised, ◌>>=◌, ◌>>◌, refuse_if, fail_if, or_refuse, is_blank,
  unknown_text, none_text, is_buy, is_sell, is_zero, preflight_evidence,
}

-- `DEMO_MAGIC_NUMBER`
abbrev pub demo_magic_number : ℕ
demo_magic_number = 3031101

-- "XAUDEMO-"
abbrev pub comment_prefix : Text
comment_prefix = 88 ∷ 65 ∷ 85 ∷ 68 ∷ 69 ∷ 77 ∷ 79 ∷ 45 ∷ []

-- `_order_comment`
unfoldable pub order_comment : DemoLibrary → Text → Text
order_comment lib signal_id = comment_prefix ++ take 20 (lib.sha256_hex signal_id)

-- `allowed & (1 << bit)`
unfoldable pub has_bit : (allowed bit : ℕ) → Bool
has_bit allowed zero = not (allowed % 2 == 0)
has_bit allowed (suc bit) = has_bit (allowed / 2) bit

unfoldable pub allows : (allowed : ℕ) → Option ℕ → Bool
allows allowed none = false
allows allowed (some candidate) = allowed == 0 || has_bit allowed candidate

unfoldable pub first_allowed : (allowed : ℕ) → List (Option ℕ) → Option ℕ
first_allowed allowed [] = none
first_allowed allowed (c ∷ cs) = if allows allowed c then c else first_allowed allowed cs

-- `_filling_mode`, of a mode that is a number without a sign.
unfoldable pub filling_mode : Option ℕ → Api → Option ℕ
filling_mode none api = none
filling_mode (some allowed) api =
    first_allowed allowed
      (api.order_filling_ioc ∷ api.order_filling_fok ∷ api.order_filling_return ∷ [])

-- `getattr(signal, "setup_event_id", None) or signal.zone_id`
unfoldable pub setup_identity : {R : Type 0} → Signal R → Option Text
setup_identity signal =
    if is_blank signal.setup_event_id then signal.zone_id else signal.setup_event_id

-- `setup_identity in {None, "", "unknown", "None"}`
unfoldable pub is_unidentified : Option Text → Bool
is_unidentified none = true
is_unidentified (some t) = is_empty t || text_eq t unknown_text || text_eq t none_text

abbrev pub has_trade_mode : TradeMode → Bool
has_trade_mode other_mode = false
has_trade_mode _ = true

abbrev pub is_long_only : TradeMode → Bool
is_long_only long_only = true
is_long_only _ = false

abbrev pub is_short_only : TradeMode → Bool
is_short_only short_only = true
is_short_only _ = false

-- The decision carries the text, or none where it is missing.
unfoldable pub is_mismatch : Text → Option Text → Bool
is_mismatch direction none = true
is_mismatch direction (some value) = not (text_eq value direction)

module _ {R : Type 0} where
  -- The result of the risk gate, refused by its first reason unless it carries a volume.
  unfoldable pub sized : Evaluation R → Option (Evidence R) → Preflight R (R × R)
  sized none evidence = raised
  sized (some (blocked reason, v)) evidence = refused (gate_reason reason) evidence
  sized (some (approved o r proposed, none)) evidence = refused risk_gate_passed evidence
  sized (some (approved o r proposed, some volume)) evidence = passed (volume, proposed)

module _ {R : Type 0} (F : Floats R) (lib : DemoLibrary) (cfg : DemoSettings R) where
  -- The price at which the order would be filled.
  unfoldable pub entry_of : Signal R → MarketSnapshot R → R
  entry_of signal s = if is_buy lib signal then s.tick.ask else s.tick.bid

  unfoldable pub is_far : MarketSnapshot R → (entry planned : R) → Bool
  is_far s entry planned =
      F.lt (F.of_nat cfg.max_entry_deviation_points)
        (F.div (F.abs (F.sub entry planned)) s.symbol.point)

  -- The levels of the trade: near the plan, on their sides, and a tick away.
  unfoldable pub check_levels :
      Signal R
      → MarketSnapshot R
      → Option (Evidence R)
      → (planned stop target : R) → Preflight R (Unit {0})
  check_levels signal s evidence planned stop target =
      let entry = entry_of signal s in
      let buy = is_buy lib signal in
      let sell = is_sell lib signal in
      do
        fail_if (is_zero F s.symbol.point)
        refuse_if (is_far s entry planned) entry_deviation_exceeded evidence
        refuse_if (buy && not (F.lt stop entry && F.lt entry target)) sl_tp_invalid_for_buy evidence
        refuse_if (sell && not (F.lt target entry && F.lt entry stop)) sl_tp_invalid_for_sell
            evidence
        refuse_if (F.lt (F.abs (F.sub entry stop)) s.symbol.trade_tick_size) sl_distance_invalid
            evidence
        refuse_if (F.lt (F.abs (F.sub target entry)) s.symbol.trade_tick_size) tp_distance_invalid
            evidence

  -- The signal and the symbol fit the order.
  unfoldable pub check_signal :
      Signal R → Option Text → Option (Evidence R) → Preflight R (Unit {0})
  check_signal signal decision evidence =
      let buy = is_buy lib signal in
      let sell = is_sell lib signal in
      do
        refuse_if (not (buy || sell) || is_unidentified (setup_identity signal))
            canonical_signal_invalid evidence
        refuse_if (is_mismatch (lib.upper signal.decision) decision) canonical_decision_mismatch
            evidence

  unfoldable pub check_symbol :
      Signal R → MarketSnapshot R → Text → Option (Evidence R) → Preflight R (Unit {0})
  check_symbol signal s symbol evidence =
      let mode = s.symbol.trade_mode_name in
      do
        refuse_if (not (text_eq s.symbol.name symbol)) symbol_mismatch evidence
        refuse_if (not (has_trade_mode mode)) symbol_trade_mode_unavailable evidence
        refuse_if (is_buy lib signal && is_short_only mode) buy_not_allowed_by_symbol evidence
        refuse_if (is_sell lib signal && is_long_only mode) sell_not_allowed_by_symbol evidence

  unfoldable pub order_request :
      Signal R
      → MarketSnapshot R
      → Text
      → (stop target volume : R) → (action order_type order_time filling : ℕ) → Request R
  order_request signal s symbol stop target volume action order_type order_time filling = record {
    action = action;
    symbol = symbol;
    volume = volume;
    order_type = order_type;
    price = F.round s.symbol.digits (entry_of signal s);
    sl = F.round s.symbol.digits stop;
    tp = F.round s.symbol.digits target;
    deviation = cfg.deviation_points;
    magic = demo_magic_number;
    comment = order_comment lib signal.signal_id;
    type_time = order_time;
    type_filling = filling;
  }

  unfoldable pub order_type_of : Signal R → Api → Option ℕ
  order_type_of signal api = if is_buy lib signal then api.order_type_buy else api.order_type_sell

  -- The constants of the terminal, and the order.
  unfoldable pub place_order :
      Option Api
      → Signal R
      → MarketSnapshot R
      → (filling_modes : Option ℕ) → (symbol : Text) → (stop target volume proposed : R)
      → Evidence R
      → Preflight R (Request R × R × Evidence R)
  place_order api signal s filling_modes symbol stop target volume proposed evidence = do
    constants ← or_refuse api mt5_api_unavailable (some evidence)
    filling ← or_refuse (filling_mode filling_modes constants) filling_mode_unknown (some evidence)
    action ← or_refuse constants.trade_action_deal mt5_order_constants_unavailable (some evidence)
    order_type ←
        or_refuse (order_type_of signal constants) mt5_order_constants_unavailable (some evidence)
    order_time ← or_refuse constants.order_time_gtc mt5_order_constants_unavailable (some evidence)
    passed (
      order_request signal s symbol stop target volume action order_type order_time filling,
      proposed,
      evidence,
    )

  -- The symbol, the levels and the size of the order.
  unfoldable pub price_order :
      Option Api
      → Signal R
      → MarketSnapshot R
      → RiskSnapshot R
      → (filling_modes : Option ℕ) → (symbol : Text) → (planned stop target : R) → Evidence R
      → Preflight R (Request R × R × Evidence R)
  price_order api signal s risk filling_modes symbol planned stop target evidence =
      let gate = risk_gate F cfg.max_trade_risk_percent cfg.max_aggregate_risk_percent in
      do
        check_symbol signal s symbol (some evidence)
        check_levels signal s (some evidence) planned stop target
        (volume, proposed) ← sized (evaluate F gate s risk (entry_of signal s) stop) (some evidence)
        place_order api signal s filling_modes symbol stop target volume proposed evidence

  -- `_build_request`, with the proposed risk.
  unfoldable pub build_request :
      Option Api
      → Signal R
      → Option Text
      → MarketSnapshot R
      → RiskSnapshot R
      → (filling_modes : Option ℕ) → (symbol : Text) → Preflight R (Request R × R × Evidence R)
  build_request api signal decision s risk filling_modes symbol =
      let evidence = preflight_evidence F lib cfg signal s in
      do
        check_signal signal decision (some evidence)
        planned ← or_refuse signal.entry_price trade_level_missing (some evidence)
        stop ← or_refuse signal.stop_loss trade_level_missing (some evidence)
        target ← or_refuse signal.take_profit trade_level_missing (some evidence)
        price_order api signal s risk filling_modes symbol planned stop target evidence
