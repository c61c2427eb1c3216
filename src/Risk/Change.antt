-- ===== src/Risk/Change.antt =====
-- services/risk.py: whether the risk has changed enough to be told.
use xauusd_bot.Base.{
  ℕ, ◌-◌, Bool, true, false, not, ◌&&◌, ◌||◌, Option, none, some, List, [], ◌∷◌, ltb, ◌==◌,
  if◌then◌else◌,
}
use xauusd_bot.Risk.Floats.{Floats}
use xauusd_bot.Risk.Snapshot.{PositionRisk, RiskSnapshot}

-- `aggregate_state`; `hard_limit_state` is EXCEEDED for the second.
pub data AggregateState : Type 0 where
  unbounded limit_exceeded within_limit : AggregateState

pub record PositionState (R : Type 0) : Type 0 where
  pub ticket : ℕ
  pub bounded_by_stop : Bool
  pub risk_percent : Option R

pub record NormalizedRiskState (R : Type 0) : Type 0 where
  pub aggregate_risk_percent : Option R
  pub remaining_budget_percent : Option R
  pub open_positions : ℕ
  pub bounded_positions : ℕ
  pub unbounded_positions : ℕ
  pub aggregate_state : AggregateState
  pub hard_limit_exceeded : Bool
  pub positions : List (PositionState R)

unfoldable pub same_bool : Bool → Bool → Bool
same_bool true b = b
same_bool false b = not b

unfoldable pub same_state : AggregateState → AggregateState → Bool
same_state unbounded unbounded = true
same_state limit_exceeded limit_exceeded = true
same_state within_limit within_limit = true
same_state _ _ = false

unfoldable pub is_exceeded : AggregateState → Bool
is_exceeded limit_exceeded = true
is_exceeded _ = false

module _ {R : Type 0} where
  unfoldable pub position_state : PositionRisk R → PositionState R
  position_state p = record {
    ticket = p.ticket;
    bounded_by_stop = p.bounded_by_stop;
    risk_percent = p.risk_percent;
  }

  unfoldable pub insert_position : PositionState R → List (PositionState R) → List (PositionState R)
  insert_position p [] = p ∷ []
  insert_position p (q ∷ qs) =
      let rest = insert_position p qs in if ltb q.ticket p.ticket then q ∷ rest else p ∷ q ∷ qs

  -- `sorted(…)`, of positions that have different tickets.
  unfoldable pub sorted_positions : List (PositionRisk R) → List (PositionState R)
  sorted_positions [] = []
  sorted_positions (p ∷ ps) = insert_position (position_state p) (sorted_positions ps)

-- `tolerance` is RISK_PERCENT_TOLERANCE.
module _ {R : Type 0} (F : Floats R) (tolerance : R) where
  unfoldable pub exceeds : Option R → R → Bool
  exceeds none limit = false
  exceeds (some percent) limit = F.le limit percent

  unfoldable pub aggregate_state_of : RiskSnapshot R → AggregateState
  aggregate_state_of risk =
      if not (risk.unbounded_positions_count == 0)
      then unbounded
      else if exceeds risk.open_risk_percent risk.max_aggregate_risk_percent
      then limit_exceeded
      else within_limit

  -- `normalize_risk_state`; no more positions are unbounded than are open.
  unfoldable pub normalize_risk_state : RiskSnapshot R → NormalizedRiskState R
  normalize_risk_state risk = record {
    aggregate_risk_percent = risk.open_risk_percent;
    remaining_budget_percent = risk.remaining_risk_percent;
    open_positions = risk.open_positions_count;
    bounded_positions = risk.open_positions_count - risk.unbounded_positions_count;
    unbounded_positions = risk.unbounded_positions_count;
    aggregate_state = aggregate_state_of risk;
    hard_limit_exceeded = is_exceeded (aggregate_state_of risk);
    positions = sorted_positions risk.risk_per_position;
  }

  -- `_close_enough`
  unfoldable pub close_enough : Option R → Option R → Bool
  close_enough (some a) (some b) = F.lt (F.abs (F.sub a b)) tolerance
  close_enough none none = true
  close_enough _ _ = false

  -- `_positions_equal`
  unfoldable pub positions_equal : List (PositionState R) → List (PositionState R) → Bool
  positions_equal [] [] = true
  positions_equal (p ∷ ps) (q ∷ qs) =
      p.ticket == q.ticket
      && same_bool p.bounded_by_stop q.bounded_by_stop
      && close_enough p.risk_percent q.risk_percent
      && positions_equal ps qs
  positions_equal _ _ = false

  unfoldable pub states_differ : NormalizedRiskState R → NormalizedRiskState R → Bool
  states_differ a b =
      not (a.open_positions == b.open_positions)
      || not (a.bounded_positions == b.bounded_positions)
      || not (a.unbounded_positions == b.unbounded_positions)
      || not (same_state a.aggregate_state b.aggregate_state)
      || not (same_bool a.hard_limit_exceeded b.hard_limit_exceeded)
      || not (positions_equal a.positions b.positions)

  -- `risk_state_changed`
  unfoldable pub risk_state_changed : Option (NormalizedRiskState R) → RiskSnapshot R → Bool
  risk_state_changed none current = true
  risk_state_changed (some previous) current =
      let candidate = normalize_risk_state current in
      states_differ previous candidate
      || not (
          close_enough previous.aggregate_risk_percent candidate.aggregate_risk_percent
          && close_enough previous.remaining_budget_percent candidate.remaining_budget_percent)
