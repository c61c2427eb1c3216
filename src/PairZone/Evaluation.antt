-- ===== src/PairZone/Evaluation.antt =====
-- services/pair_zone_strategy.py: `evaluate`, from the zones to the decision.
use xauusd_bot.Base.{
  ℕ, ◌+◌, Bool, true, false, not, ◌&&◌, ◌||◌, Option, none, some, List, [], ◌∷◌, take, length, ltb,
  if◌then◌else◌, dict_get, is_some, or_default,
}
use xauusd_bot.Risk.Floats.{Floats}
use xauusd_bot.Risk.Snapshot.{RiskSnapshot}
use xauusd_bot.Risk.Gate
use xauusd_bot.Risk.Gate.{RiskGateResult, blocked, approved, risk_gate}
use xauusd_bot.PairZone.Types.{
  MarketCandle, Direction, buy, sell, PairZone, Config, LifeState, confirmed, Memory, Naming,
  minutes,
}
use xauusd_bot.PairZone.Detection.{is_member, zones_at}
use xauusd_bot.PairZone.Life.{prune_invalidated, lifecycle}
use xauusd_bot.PairZone.Coverage.{
  has_steps, has_complete_history, covered, starts_in_time, h1_direction,
}
use xauusd_bot.PairZone.Decision.{
  ZoneReason, ZoneStage, Observation, ZoneDecision, Feed, Survey, same_direction, m5_timestamp,
  recent_zones, count_touches, newly_confirmed, first_candidate, first_current, data_incomplete,
  data_stale, runtime_not_connected, risk_state_unknown, htf_direction_mismatch,
  zone_confirmation_missing, no_valid_zone, zone_invalidated, invalid_sl, spread_too_high,
  incomplete_zone_m5_lifecycle_coverage, insufficient_m15_coverage, m15_candle_gap,
  no_current_active_zone, canonical_signal_generated, risk_gate_passed, data_stage, context_stage,
  risk_gate_stage, htf_direction_stage, zone_confirmation_stage, pair_zone_stage,
  zone_lifecycle_stage, geometry_stage, spread_stage, unknown, healthy_no_active_zone, active_zone,
  no_trade, gate_blocked, trade,
}

-- `if items`
unfoldable pub has_items {ℓ} : {A : Type ℓ} → List A → Bool
has_items [] = false
has_items (x ∷ xs) = true

module _ {R : Type 0} where
  -- What the loop over the zones keeps of one of them.
  unfoldable pub note_zone :
      Option Direction → PairZone R → LifeState → Option (MarketCandle R) → Survey R → Survey R
  note_zone h1 zone state none survey = record survey {
    observed_zones = (zone, state) ∷ survey.observed_zones;
  }
  note_zone h1 zone state (some c) survey =
      if same_direction h1 zone.direction
      then record survey {
        observed_zones = (zone, state) ∷ survey.observed_zones;
        candidates = (zone, c) ∷ survey.candidates;
      }
      else record survey {
        observed_zones = (zone, state) ∷ survey.observed_zones;
        htf_mismatch = true;
      }

  unfoldable pub covers_m15 : (span timestamp : ℕ) → List (MarketCandle R) → Bool
  covers_m15 span timestamp relevant =
      ltb 1 (length relevant)
      && starts_in_time span timestamp relevant
      && has_steps (minutes 15) relevant

  unfoldable pub gap_reason : (span timestamp : ℕ) → List (MarketCandle R) → ZoneReason
  gap_reason span timestamp relevant =
      if ltb (length relevant) 2 || not (starts_in_time span timestamp relevant)
      then insufficient_m15_coverage
      else m15_candle_gap

module _ {R : Type 0} (F : Floats R) (config : Config R) where
  unfoldable pub max_age : ℕ
  max_age = minutes config.zone_max_age_minutes

  -- One turn of the loop over the zones, and the turns after it.
  unfoldable pub survey_zones :
      Option Direction
      → (timestamp : ℕ) → List (MarketCandle R)
      → List (PairZone R)
      → Memory R
      → Survey R × Memory R
  survey_zones h1 timestamp m5 [] memory =
      (record { candidates = []; observed_zones = []; htf_mismatch = false }, memory)
  survey_zones h1 timestamp m5 (zone ∷ zones) memory =
      let already = is_member zone.zone_id memory.confirmed_ids in
      let (life, lived) = lifecycle F config zone timestamp m5 memory in
      let (survey, done) =
        survey_zones h1 timestamp m5 zones (count_touches zone life.touches lived) in
      (note_zone h1 zone life.state (newly_confirmed already timestamp life) survey, done)

  unfoldable pub observe_active :
      ZoneReason → PairZone R → LifeState → List (MarketCandle R) → (timestamp : ℕ) → Observation R
  observe_active reason zone state m5 timestamp =
      if has_complete_history zone m5 timestamp
      then active_zone reason zone state
      else unknown incomplete_zone_m5_lifecycle_coverage

  unfoldable pub observe :
      ZoneReason
      → Option (PairZone R × LifeState)
      → List (MarketCandle R)
      → (m15 : List (MarketCandle R)) → (has_zones : Bool) (timestamp : ℕ) → Observation R
  observe reason (some (zone, state)) m5 m15 has_zones timestamp =
      observe_active reason zone state m5 timestamp
  observe reason none m5 m15 has_zones timestamp =
      let span = max_age + minutes 30 in
      let relevant = covered span timestamp m15 in
      if covers_m15 span timestamp relevant
      then healthy_no_active_zone (if has_zones then no_current_active_zone else no_valid_zone)
      else unknown (gap_reason span timestamp relevant)

  -- `if not candidates`
  unfoldable pub without_candidate :
      Option Direction
      → Survey R
      → List (MarketCandle R)
      → (m15 : List (MarketCandle R)) → (has_zones : Bool) (timestamp : ℕ) → ZoneDecision R
  without_candidate h1 survey m5 m15 has_zones timestamp =
      let observed = first_current survey.observed_zones in
      if survey.htf_mismatch || has_zones && not (is_some h1)
      then no_trade htf_direction_mismatch htf_direction_stage
          (observe htf_direction_mismatch observed m5 m15 has_zones timestamp)
      else if has_zones
      then no_trade zone_confirmation_missing zone_confirmation_stage
          (observe zone_confirmation_missing observed m5 m15 has_zones timestamp)
      else no_trade no_valid_zone pair_zone_stage
          (observe no_valid_zone observed m5 m15 has_zones timestamp)

  unfoldable pub stop_of : PairZone R → Direction → R
  stop_of zone buy = F.sub zone.lower_bound config.stop_buffer_points
  stop_of zone sell = F.add zone.upper_bound config.stop_buffer_points

  unfoldable pub distance_of : (entry stop : R) → Direction → R
  distance_of entry stop buy = F.sub entry stop
  distance_of entry stop sell = F.sub stop entry

  unfoldable pub target_of : (entry distance : R) → Direction → R
  target_of entry distance buy = F.add entry (F.mul distance config.target_rr)
  target_of entry distance sell = F.sub entry (F.mul distance config.target_rr)

  -- What follows the answer of the risk gate.
  unfoldable pub gated :
      PairZone R
      → (entry stop target : R) → Observation R
      → Gate.Evaluation R
      → Option (ZoneDecision R)
  gated zone entry stop target observation none = none
  gated zone entry stop target observation (some (blocked reason, volume)) =
      some (no_trade (gate_blocked reason) risk_gate_stage observation)
  gated zone entry stop target observation (some (approved open_risk remaining proposed, none)) =
      some (no_trade risk_gate_passed risk_gate_stage observation)
  gated zone entry stop target observation
        (some (approved open_risk remaining proposed, some volume)) =
      some (
        trade (record {
          zone = zone;
          entry_price = entry;
          stop_loss = stop;
          take_profit = target;
          risk_reward_ratio = config.target_rr;
          approved_risk_percent = proposed;
          hypothetical_volume = volume;
          observation = observation;
        }))

  -- From `entry = confirmation.close` on.
  unfoldable pub price_trade :
      Feed R → RiskSnapshot R → PairZone R → (entry : R) → Observation R → Option (ZoneDecision R)
  price_trade feed risk zone entry observation =
      let stop = stop_of zone zone.direction in
      let distance = distance_of entry stop zone.direction in
      if F.le distance feed.market.symbol.trade_tick_size
      then some (no_trade invalid_sl geometry_stage observation)
      else if ltb config.max_spread_points feed.spread
      then some (no_trade spread_too_high spread_stage observation)
      else gated zone entry stop (target_of entry distance zone.direction) observation
          (Gate.evaluate F (risk_gate F (F.of_nat 2) (F.of_nat 6)) feed.market risk entry stop)

  unfoldable pub with_candidate :
      Feed R
      → RiskSnapshot R
      → PairZone R × MarketCandle R
      → List (MarketCandle R)
      → (timestamp : ℕ) → Memory R
      → Option (ZoneDecision R)
  with_candidate feed risk (zone, confirmation) m5 timestamp memory =
      if is_member zone.zone_id memory.confirmed_ids
        && is_some (dict_get zone.zone_id memory.invalidated_until)
      then some
          (no_trade zone_invalidated zone_lifecycle_stage (healthy_no_active_zone zone_invalidated))
      else price_trade feed risk zone confirmation.close
          (observe_active canonical_signal_generated zone confirmed m5 timestamp)

  unfoldable pub decide :
      Feed R
      → RiskSnapshot R
      → Option Direction
      → Survey R
      → List (MarketCandle R)
      → (has_zones : Bool) (timestamp : ℕ) → List (PairZone R × MarketCandle R)
      → Memory R
      → Option (ZoneDecision R)
  decide feed risk h1 survey m5 has_zones timestamp [] memory =
      some (without_candidate h1 survey m5 feed.m15 has_zones timestamp)
  decide feed risk h1 survey m5 has_zones timestamp (c ∷ cs) memory =
      with_candidate feed risk (first_candidate c cs) m5 timestamp memory

  unfoldable pub decide_zones :
      Feed R
      → RiskSnapshot R
      → List (MarketCandle R)
      → (timestamp : ℕ) → Option (Option Direction)
      → List (PairZone R) × Memory R
      → Option (ZoneDecision R) × Memory R
  decide_zones feed risk m5 timestamp none (zones, memory) = (none, memory)
  decide_zones feed risk m5 timestamp (some h1) (zones, memory) =
      let (survey, done) =
        survey_zones h1 timestamp m5 (take 24 (recent_zones max_age timestamp zones)) memory in
      (decide feed risk h1 survey m5 (has_items zones) timestamp survey.candidates done, done)

  -- `_no_trade` without an observation.
  unfoldable pub refuse : ZoneReason → ZoneStage → Memory R → Option (ZoneDecision R) × Memory R
  refuse reason stage memory = (some (no_trade reason stage (unknown reason)), memory)

  unfoldable pub evaluate_feed :
      Naming
      → Feed R
      → (timestamp : ℕ) → Option (RiskSnapshot R)
      → Option (List (MarketCandle R))
      → Memory R
      → Option (ZoneDecision R) × Memory R
  evaluate_feed naming feed timestamp none m5 memory =
      refuse risk_state_unknown risk_gate_stage memory
  evaluate_feed naming feed timestamp (some risk) none memory =
      refuse data_incomplete data_stage memory
  evaluate_feed naming feed timestamp (some risk) (some m5) memory =
      decide_zones feed risk m5 timestamp (h1_direction F config feed.h1)
        (zones_at F naming config timestamp feed.m15 memory)

  unfoldable pub evaluation_time : Feed R → ℕ
  evaluation_time feed = m5_timestamp feed.now feed.candles_are_closed (or_default [] feed.m5)

  -- `evaluate`; a decision of `none` is an exception.
  unfoldable pub evaluate_pair_zone :
      Naming → Feed R → Memory R → Option (ZoneDecision R) × Memory R
  evaluate_pair_zone naming feed memory =
      let pruned = prune_invalidated (evaluation_time feed) memory in
      if not feed.candles_are_closed
      then refuse data_incomplete data_stage pruned
      else if not feed.is_live
      then refuse data_stale data_stage pruned
      else if not feed.is_connected
      then refuse runtime_not_connected context_stage pruned
      else evaluate_feed naming feed (evaluation_time feed) feed.risk feed.m5 pruned
