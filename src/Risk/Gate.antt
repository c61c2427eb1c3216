-- ===== src/Risk/Gate.antt =====
-- services/shadow_risk_gate.py: the size of a trade, or why there is none.
use mathlib.Core.Option
use xauusd_bot.Base.{◌||◌, Option, none, some, ltb, if◌then◌else◌}
use xauusd_bot.Risk.Floats.{Floats, least, is_positive, is_no_more_than_zero}
use xauusd_bot.Risk.Snapshot.{MarketSnapshot, RiskSnapshot}

pub data GateReason : Type 0 where
  unbounded_existing_position unknown_risk risk_budget_exceeded : GateReason
  position_size_invalid min_lot_exceeds_risk_budget : GateReason

pub record RiskGate (R : Type 0) : Type 0 where
  pub max_trade_risk_percent : R
  pub max_aggregate_risk_percent : R

-- `RiskGateResult`, whose approval carries its three percentages.
pub data RiskGateResult (R : Type 0) : Type 0 where
  blocked : GateReason → RiskGateResult R
  approved : (open_risk remaining proposed : R) → RiskGateResult R

-- A result with its volume, or `none` where the computation raises.
abbrev pub Evaluation : Type 0 → Type 0
Evaluation R = Option (RiskGateResult R × Option R)

module _ {R : Type 0} where
  -- `_blocked`
  unfoldable pub block : GateReason → Evaluation R
  block reason = some (blocked reason, none)

module _ {R : Type 0} (F : Floats R) where
  -- `__init__`: the settings may lower the limits of two and six percent, not raise them.
  unfoldable pub risk_gate : (max_trade_risk_percent max_aggregate_risk_percent : R) → RiskGate R
  risk_gate max_trade max_aggregate = record {
    max_trade_risk_percent = least F max_trade (F.of_nat 2);
    max_aggregate_risk_percent = least F max_aggregate (F.of_nat 6);
  }

  unfoldable pub risk_per_lot : MarketSnapshot R → (entry stop : R) → R
  risk_per_lot s entry stop =
      F.mul (F.div (F.abs (F.sub entry stop)) s.symbol.trade_tick_size)
        s.symbol.trade_tick_value_loss

  unfoldable pub sized_volume : MarketSnapshot R → (available per_lot : R) → Option R
  sized_volume s available per_lot =
      let raw = F.div (F.div (F.mul s.account.equity available) (F.of_nat 100)) per_lot in
      let step = s.symbol.volume_step in
      if is_positive F step
      then Option.map (λ steps. F.round 10 (F.mul steps step)) (F.floor (F.div raw step))
      else some (F.of_nat 0)

  unfoldable pub proposed_percent : MarketSnapshot R → (per_lot volume : R) → R
  proposed_percent s per_lot volume =
      F.mul (F.div (F.mul per_lot volume) s.account.equity) (F.of_nat 100)

  unfoldable pub check_volume :
      RiskGate R → MarketSnapshot R → (open_risk remaining per_lot volume : R) → Evaluation R
  check_volume gate s open_risk remaining per_lot volume =
      let proposed = proposed_percent s per_lot volume in
      if F.lt volume s.symbol.volume_min || F.lt s.symbol.volume_max volume
      then block min_lot_exceeds_risk_budget
      else if F.lt (F.add gate.max_trade_risk_percent F.nano) proposed
      then block risk_budget_exceeded
      else if F.lt (F.add gate.max_aggregate_risk_percent F.nano) (F.add open_risk proposed)
      then block risk_budget_exceeded
      else some (approved open_risk remaining proposed, some volume)

  unfoldable pub check_size :
      RiskGate R → MarketSnapshot R → (open_risk remaining per_lot : R) → Option R → Evaluation R
  check_size gate s open_risk remaining per_lot none = none
  check_size gate s open_risk remaining per_lot (some volume) =
      check_volume gate s open_risk remaining per_lot volume

  unfoldable pub available_percent : RiskGate R → (open_risk remaining : R) → R
  available_percent gate open_risk remaining =
      least F (least F gate.max_trade_risk_percent remaining)
        (F.sub gate.max_aggregate_risk_percent open_risk)

  unfoldable pub evaluate_known :
      RiskGate R
      → MarketSnapshot R
      → (entry stop : R) → (open_risk remaining : Option R) → Evaluation R
  evaluate_known gate s entry stop (some open_risk) (some remaining) =
      let available = available_percent gate open_risk remaining in
      let per_lot = risk_per_lot s entry stop in
      if is_no_more_than_zero F available
      then block risk_budget_exceeded
      else if is_no_more_than_zero F s.symbol.trade_tick_size
          || is_no_more_than_zero F s.symbol.trade_tick_value_loss
          || is_no_more_than_zero F s.account.equity
      then block position_size_invalid
      else if is_no_more_than_zero F per_lot
      then block position_size_invalid
      else check_size gate s open_risk remaining per_lot (sized_volume s available per_lot)
  evaluate_known gate s entry stop _ _ = block unknown_risk

  unfoldable pub evaluate :
      RiskGate R → MarketSnapshot R → RiskSnapshot R → (entry stop : R) → Evaluation R
  evaluate gate s risk entry stop =
      if ltb 0 risk.unbounded_positions_count
      then block unbounded_existing_position
      else evaluate_known gate s entry stop risk.open_risk_percent risk.remaining_risk_percent
