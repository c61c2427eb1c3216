-- ===== src/Risk/Snapshot.antt =====
-- services/risk.py: what the open positions put at risk. The market's rows are those of
-- models/market.py, with the fields that the code reads.
use xauusd_bot.Base.{
  ℕ, ◌+◌, Bool, true, false, not, ◌&&◌, ◌||◌, Option, none, some, List, [], ◌∷◌, ◌++◌, Text, length,
  ◌==◌, if◌then◌else◌,
}
use xauusd_bot.Risk.Floats.{Floats, is_positive, is_no_more_than_zero}

-- `trade_mode_name` of a symbol, as far as the code tells the names apart.
pub data TradeMode : Type 0 where
  full long_only short_only other_mode : TradeMode

pub record Symbol (R : Type 0) : Type 0 where
  pub name : Text
  pub trade_mode_name : TradeMode
  pub point : R
  pub digits : ℕ
  pub trade_tick_size : R
  pub trade_tick_value_loss : R
  pub volume_step : R
  pub volume_min : R
  pub volume_max : R

pub record Account (R : Type 0) : Type 0 where
  pub trade_mode : ℕ
  pub trade_mode_name : Text
  pub equity : R
  pub balance : R
  pub margin : R
  pub free_margin : R

pub record Tick (R : Type 0) : Type 0 where
  pub bid : R
  pub ask : R
  pub timestamp : ℕ

pub record Position (R : Type 0) : Type 0 where
  pub ticket : ℕ
  pub side : ℕ
  pub open_price : R
  pub stop_loss : R
  pub volume : R

-- `MarketSnapshot`; of the candles, the timestamps of M5, oldest first.
pub record MarketSnapshot (R : Type 0) : Type 0 where
  pub account : Account R
  pub symbol : Symbol R
  pub tick : Tick R
  pub positions : List (Position R)
  pub candles_m5 : List ℕ
  pub generated_at : ℕ

pub record PositionRisk (R : Type 0) : Type 0 where
  pub ticket : ℕ
  pub risk_amount : Option R
  pub risk_percent : Option R
  pub bounded_by_stop : Bool

pub record RiskSnapshot (R : Type 0) : Type 0 where
  pub timestamp : ℕ
  pub equity : R
  pub balance : R
  pub open_risk_percent : Option R
  pub open_risk_amount : Option R
  pub remaining_risk_percent : Option R
  pub risk_per_position : List (PositionRisk R)
  pub max_trade_risk_percent : R
  pub max_aggregate_risk_percent : R
  pub open_positions_count : ℕ
  pub unbounded_positions_count : ℕ
  pub margin_usage_percent : Option R
  pub free_margin : R

-- What the loop over the positions has gathered.
pub record Tally (R : Type 0) : Type 0 where
  pub position_risks : List (PositionRisk R)
  pub known_risk_amount : R
  pub unbounded_positions : ℕ

module _ {R : Type 0} (F : Floats R) where
  -- `_position_risk_amount`: a stop bounds the loss only on the losing side of the entry.
  unfoldable pub position_risk_amount : Symbol R → Position R → Option R
  position_risk_amount symbol p =
      if is_no_more_than_zero F p.stop_loss
      then none
      else if not (p.side == 0 || p.side == 1)
      then none
      else if p.side == 0 && F.le p.open_price p.stop_loss
      then none
      else if p.side == 1 && F.le p.stop_loss p.open_price
      then none
      else if is_no_more_than_zero F symbol.trade_tick_size
          || is_no_more_than_zero F symbol.trade_tick_value_loss
      then none
      else some (
          F.mul
            (F.mul (F.div (F.abs (F.sub p.open_price p.stop_loss)) symbol.trade_tick_size)
              symbol.trade_tick_value_loss)
            p.volume)

  -- `amount / equity * 100`
  unfoldable pub percent_of : R → R → R
  percent_of equity amount = F.mul (F.div amount equity) (F.of_nat 100)

  unfoldable pub percent_if : R → R → Option R
  percent_if equity amount = if is_positive F equity then some (percent_of equity amount) else none

  unfoldable pub tally_position : R → Position R → Option R → Tally R → Tally R
  tally_position equity p none t = record t {
    position_risks =
        t.position_risks
        ++ (record {
          ticket = p.ticket;
          risk_amount = none;
          risk_percent = none;
          bounded_by_stop = false;
        }
            ∷ []);
    unbounded_positions = t.unbounded_positions + 1;
  }
  tally_position equity p (some amount) t = record t {
    position_risks =
        t.position_risks
        ++ (record {
          ticket = p.ticket;
          risk_amount = some amount;
          risk_percent = percent_if equity amount;
          bounded_by_stop = true;
        }
            ∷ []);
    known_risk_amount = F.add t.known_risk_amount amount;
  }

  unfoldable pub tally_positions : Symbol R → R → List (Position R) → Tally R → Tally R
  tally_positions symbol equity [] t = t
  tally_positions symbol equity (p ∷ ps) t =
      tally_positions symbol equity ps (tally_position equity p (position_risk_amount symbol p) t)

  unfoldable pub empty_tally : Tally R
  empty_tally = record {
    position_risks = [];
    known_risk_amount = F.of_nat 0;
    unbounded_positions = 0;
  }

  abbrev pub remaining_of : R → Option R → Option R
  remaining_of max none = none
  remaining_of max (some percent) = some (F.sub max percent)

  unfoldable pub risk_is_known : R → Tally R → Bool
  risk_is_known equity t = t.unbounded_positions == 0 && is_positive F equity

  unfoldable pub open_percent : R → Tally R → Option R
  open_percent equity t =
      if risk_is_known equity t then some (percent_of equity t.known_risk_amount) else none

  unfoldable pub calculate_risk_snapshot :
      MarketSnapshot R → (max_trade_risk_percent max_aggregate_risk_percent : R) → RiskSnapshot R
  calculate_risk_snapshot s max_trade max_aggregate =
      let equity = s.account.equity in
      let t = tally_positions s.symbol equity s.positions empty_tally in
      record {
        timestamp = s.generated_at;
        equity = equity;
        balance = s.account.balance;
        open_risk_percent = open_percent equity t;
        open_risk_amount = if risk_is_known equity t then some t.known_risk_amount else none;
        remaining_risk_percent = remaining_of max_aggregate (open_percent equity t);
        risk_per_position = t.position_risks;
        max_trade_risk_percent = max_trade;
        max_aggregate_risk_percent = max_aggregate;
        open_positions_count = length s.positions;
        unbounded_positions_count = t.unbounded_positions;
        margin_usage_percent = percent_if equity s.account.margin;
        free_margin = s.account.free_margin;
      }
