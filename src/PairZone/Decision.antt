-- ===== src/PairZone/Decision.antt =====
-- services/pair_zone_strategy.py: `evaluate`.
use xauusd_bot.Base.{
  ℕ, ◌+◌, ◌-◌, Bool, true, false, not, ◌&&◌, ◌||◌, Option, none, some, List, [], ◌∷◌, Text, ltb,
  leb, ◌==◌, if◌then◌else◌, dict_get, dict_set, or_default,
}
use xauusd_bot.Risk.Snapshot.{MarketSnapshot, RiskSnapshot}
use xauusd_bot.Risk.Gate.{GateReason}
use xauusd_bot.PairZone.Types.{
  MarketCandle, Direction, buy, sell, PairZone, LifeState, confirmed, invalidated, expired, Memory,
}
use xauusd_bot.PairZone.Life.{Life}
use xauusd_bot.PairZone.Coverage.{without_last, last_item}

pub data ZoneReason : Type 0 where
  data_incomplete data_stale runtime_not_connected risk_state_unknown : ZoneReason
  htf_direction_mismatch zone_confirmation_missing no_valid_zone zone_invalidated : ZoneReason
  invalid_sl spread_too_high incomplete_zone_m5_lifecycle_coverage : ZoneReason
  insufficient_m15_coverage m15_candle_gap no_current_active_zone : ZoneReason
  canonical_signal_generated risk_gate_passed : ZoneReason
  gate_blocked : GateReason → ZoneReason

-- `rejection_stage`
pub data ZoneStage : Type 0 where
  data_stage context_stage risk_gate_stage htf_direction_stage zone_confirmation_stage : ZoneStage
  pair_zone_stage zone_lifecycle_stage geometry_stage spread_stage : ZoneStage

-- `_zone_observation`: without a zone, or with one and its state.
pub data Observation (R : Type 0) : Type 0 where
  unknown : ZoneReason → Observation R
  healthy_no_active_zone : ZoneReason → Observation R
  active_zone : ZoneReason → PairZone R → LifeState → Observation R

pub record Trade (R : Type 0) : Type 0 where
  pub zone : PairZone R
  pub entry_price : R
  pub stop_loss : R
  pub take_profit : R
  pub risk_reward_ratio : R
  pub approved_risk_percent : R
  pub hypothetical_volume : R
  pub observation : Observation R

-- The `ShadowDecision`, without the fields that are constant or copied from the arguments.
pub data ZoneDecision (R : Type 0) : Type 0 where
  no_trade : ZoneReason → ZoneStage → Observation R → ZoneDecision R
  trade : Trade R → ZoneDecision R

-- The arguments of `evaluate`; `market` holds what the risk gate reads of the snapshot, and `now` is
-- the clock. A timeframe that the snapshot lacks has no candles, but for M5, where it raises KeyError.
pub record Feed (R : Type 0) : Type 0 where
  pub market : MarketSnapshot R
  pub spread : ℕ
  pub h1 : List (MarketCandle R)
  pub m15 : List (MarketCandle R)
  pub m5 : Option (List (MarketCandle R))
  pub risk : Option (RiskSnapshot R)
  pub is_live : Bool
  pub is_connected : Bool
  pub candles_are_closed : Bool
  pub now : ℕ

-- The lists that the loop over the zones fills, and its flag.
pub record Survey (R : Type 0) : Type 0 where
  pub candidates : List (PairZone R × MarketCandle R)
  pub observed_zones : List (PairZone R × LifeState)
  pub htf_mismatch : Bool

unfoldable pub same_direction : Option Direction → Direction → Bool
same_direction (some buy) buy = true
same_direction (some sell) sell = true
same_direction _ _ = false

unfoldable pub is_confirmed : LifeState → Bool
is_confirmed confirmed = true
is_confirmed _ = false

-- `{"CREATED", "ACTIVE", "TOUCHED", "CONFIRMED"}`
unfoldable pub is_current : LifeState → Bool
is_current invalidated = false
is_current expired = false
is_current _ = true

-- The order of texts by their code points.
unfoldable pub text_lt : Text → Text → Bool
text_lt [] [] = false
text_lt [] (y ∷ ys) = true
text_lt (x ∷ xs) [] = false
text_lt (x ∷ xs) (y ∷ ys) = ltb x y || x == y && text_lt xs ys

module _ {R : Type 0} where
  abbrev pub timestamp_or : ℕ → Option (MarketCandle R) → ℕ
  timestamp_or t none = t
  timestamp_or t (some c) = c.timestamp

  -- `ShadowDecisionEngine._m5_timestamp`
  unfoldable pub m5_timestamp : (now : ℕ) (candles_are_closed : Bool) → List (MarketCandle R) → ℕ
  m5_timestamp now closed candles =
      let latest = timestamp_or now (last_item candles) in
      if closed then latest else timestamp_or latest (last_item (without_last candles))

  unfoldable pub insert_recent : PairZone R → List (PairZone R) → List (PairZone R)
  insert_recent zone [] = zone ∷ []
  insert_recent zone (z ∷ zs) =
      let rest = insert_recent zone zs in
      if leb z.created_at zone.created_at then zone ∷ z ∷ zs else z ∷ rest

  -- The zones whose age is at most `max_age`, the newest first.
  unfoldable pub recent_zones : (max_age timestamp : ℕ) → List (PairZone R) → List (PairZone R)
  recent_zones max_age timestamp [] = []
  recent_zones max_age timestamp (z ∷ zs) =
      let rest = recent_zones max_age timestamp zs in
      if leb timestamp (z.created_at + max_age) then insert_recent z rest else rest

  -- The count of touches and of touch events.
  unfoldable pub count_touches : PairZone R → (touches : ℕ) → Memory R → Memory R
  count_touches zone touches memory =
      let previous = or_default 0 (dict_get zone.zone_id memory.touch_counts) in
      if ltb previous touches
      then record memory {
        touch_events = memory.touch_events + (touches - previous);
        touch_counts = dict_set zone.zone_id touches memory.touch_counts;
      }
      else memory

  unfoldable pub at_timestamp : ℕ → Option (MarketCandle R) → Option (MarketCandle R)
  at_timestamp timestamp none = none
  at_timestamp timestamp (some c) = if c.timestamp == timestamp then some c else none

  -- The zone is confirmed by the candle of this call, and was not before.
  unfoldable pub newly_confirmed : (already : Bool) → ℕ → Life R → Option (MarketCandle R)
  newly_confirmed already timestamp life =
      if not already && is_confirmed life.state
      then at_timestamp timestamp life.confirmation
      else none

  -- `min(candidates, key=zone_id)`, the first of equals, which heads the sorted list.
  unfoldable pub first_candidate :
      PairZone R × MarketCandle R → List (PairZone R × MarketCandle R) → PairZone R × MarketCandle R
  first_candidate best [] = best
  first_candidate best (c ∷ cs) =
      first_candidate (if text_lt (c.0).zone_id (best.0).zone_id then c else best) cs

  unfoldable pub first_current : List (PairZone R × LifeState) → Option (PairZone R × LifeState)
  first_current [] = none
  first_current ((zone, state) ∷ observed) =
      let rest = first_current observed in if is_current state then some (zone, state) else rest
