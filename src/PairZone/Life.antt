-- ===== src/PairZone/Life.antt =====
-- services/pair_zone_strategy.py: `_lifecycle` and `_prune_invalidated`.
use xauusd_bot.Base.{
  ℕ, suc, ◌+◌, Bool, false, not, ◌&&◌, ◌||◌, Option, none, some, List, [], ◌∷◌, Text, Dict, ltb,
  leb, ◌==◌, if◌then◌else◌, dict_get, dict_set, dict_pop, is_some, or_default,
}
use xauusd_bot.Risk.Floats.{Floats, least, is_positive}
use xauusd_bot.PairZone.Types.{
  MarketCandle, Direction, buy, sell, PairZone, Config, LifeState, created, active, touched,
  confirmed, invalidated, expired, Breach, Memory, minutes,
}
use xauusd_bot.PairZone.Detection.{greater_of, add_member}

-- The end of the loop over the candles: one closed beyond the zone, or they are through.
pub data Passage (R : Type 0) : Type 0 where
  broken : (touches : ℕ) → MarketCandle R → Passage R
  passed : (touches : ℕ) (first_confirmation : Option (MarketCandle R)) → Passage R

-- What `_lifecycle` returns.
pub record Life (R : Type 0) : Type 0 where
  pub state : LifeState
  pub touches : ℕ
  pub confirmation : Option (MarketCandle R)

-- The ids in `invalidated` whose time is over.
unfoldable pub outdated : ℕ → Dict ℕ → List Text
outdated timestamp [] = []
outdated timestamp ((id, relevant_until) ∷ entries) =
    let rest = outdated timestamp entries in
    if ltb relevant_until timestamp then id ∷ rest else rest

unfoldable pub pop_all {ℓ} : {A : Type ℓ} → (Text → A → A) → List Text → A → A
pop_all pop [] a = a
pop_all pop (id ∷ ids) a = pop_all pop ids (pop id a)

module _ {R : Type 0} where
  -- `_prune_invalidated`
  unfoldable pub prune_invalidated : ℕ → Memory R → Memory R
  prune_invalidated timestamp memory =
      let ids = outdated timestamp memory.invalidated_until in
      record memory {
        invalidated_until = pop_all dict_pop ids memory.invalidated_until;
        breaches = pop_all dict_pop ids memory.breaches;
      }

  -- `zone.created_at < c.timestamp <= timestamp`
  unfoldable pub is_relevant : PairZone R → ℕ → MarketCandle R → Bool
  is_relevant zone timestamp c = ltb zone.created_at c.timestamp && leb c.timestamp timestamp

  unfoldable pub relevant_candles : PairZone R → ℕ → List (MarketCandle R) → List (MarketCandle R)
  relevant_candles zone timestamp [] = []
  relevant_candles zone timestamp (c ∷ cs) =
      let rest = relevant_candles zone timestamp cs in
      if is_relevant zone timestamp c then c ∷ rest else rest

module _ {R : Type 0} (F : Floats R) (config : Config R) where
  module _ (zone : PairZone R) where
    unfoldable pub intersects : MarketCandle R → Bool
    intersects c = F.le zone.lower_bound c.high && F.le c.low zone.upper_bound

    unfoldable pub closes_beyond : Direction → MarketCandle R → Bool
    closes_beyond buy c = F.lt c.close zone.lower_bound
    closes_beyond sell c = F.lt zone.upper_bound c.close

    unfoldable pub body : Direction → MarketCandle R → R
    body buy c = F.sub c.close c.open_price
    body sell c = F.sub c.open_price c.close

    unfoldable pub wick : Direction → MarketCandle R → R
    wick buy c = F.sub (least F c.open_price c.close) c.low
    wick sell c = F.sub c.high (greater_of F c.open_price c.close)

    unfoldable pub leaves_zone : Direction → MarketCandle R → Bool
    leaves_zone buy c = F.lt zone.upper_bound c.close
    leaves_zone sell c = F.lt c.close zone.lower_bound

    unfoldable pub confirms : MarketCandle R → Bool
    confirms c =
        intersects c
        && leaves_zone zone.direction c
        && is_positive F (body zone.direction c)
        && F.le (F.mul (body zone.direction c) config.confirmation_wick_to_body)
            (wick zone.direction c)

    unfoldable pub breaks : MarketCandle R → Bool
    breaks c = closes_beyond zone.direction c

    -- `touches`, which counts the candles that come into the zone.
    unfoldable pub touches_with : (inside : Bool) → ℕ → MarketCandle R → ℕ
    touches_with inside touches c = if intersects c && not inside then suc touches else touches

    unfoldable pub first_of : Option (MarketCandle R) → MarketCandle R → Option (MarketCandle R)
    first_of (some first) c = some first
    first_of none c = if confirms c then some c else none

    -- The loop over the relevant candles.
    unfoldable pub pass_candles :
        (touches : ℕ) (inside : Bool) → Option (MarketCandle R) → List (MarketCandle R) → Passage R
    pass_candles touches inside first [] = passed touches first
    pass_candles touches inside first (c ∷ cs) =
        let counted = touches_with inside touches c in
        let rest = pass_candles counted (intersects c) (first_of first c) cs in
        if breaks c then broken counted c else rest

    unfoldable pub is_over : (timestamp touches : ℕ) → Bool
    is_over timestamp touches =
        ltb (zone.created_at + minutes config.zone_max_age_minutes) timestamp
        || ltb config.zone_max_touches touches

    -- `_invalidation_observations.setdefault`
    unfoldable pub set_default : Text → Breach R → Dict (Breach R) → Dict (Breach R)
    set_default id breach breaches =
        if is_some (dict_get id breaches) then breaches else dict_set id breach breaches

    -- What follows the test of age and touches.
    unfoldable pub survive : ℕ → Option (MarketCandle R) → Memory R → Life R × Memory R
    survive touches (some c) memory = (
      record { state = confirmed; touches = touches; confirmation = some c },
      record memory { confirmed_ids = add_member zone.zone_id memory.confirmed_ids },
    )
    survive touches none memory = (
      record {
        state = if touches == 0 then active else touched;
        touches = touches;
        confirmation = none;
      },
      memory,
    )

    unfoldable pub end_life : ℕ → Passage R → Memory R → Life R × Memory R
    end_life timestamp (broken touches c) memory = (
      record { state = invalidated; touches = touches; confirmation = none },
      record memory {
        invalidated_until =
            dict_set zone.zone_id (zone.created_at + minutes config.zone_max_age_minutes)
              memory.invalidated_until;
        breaches =
            set_default zone.zone_id
              (record { zone = zone; m5_candle_timestamp = c.timestamp; m5_close = c.close })
              memory.breaches;
      },
    )
    end_life timestamp (passed touches first) memory =
        if is_over timestamp touches
        then (
          record { state = expired; touches = touches; confirmation = none },
          record memory { expired_ids = add_member zone.zone_id memory.expired_ids },
        )
        else survive touches first memory

    unfoldable pub live_on : ℕ → List (MarketCandle R) → Memory R → Life R × Memory R
    live_on timestamp m5 memory =
        if ltb timestamp zone.created_at
        then (record { state = created; touches = 0; confirmation = none }, memory)
        else if is_some (dict_get zone.zone_id memory.invalidated_until)
        then (
          record {
            state = invalidated;
            touches = or_default 0 (dict_get zone.zone_id memory.touch_counts);
            confirmation = none;
          },
          memory,
        )
        else end_life timestamp (pass_candles 0 false none (relevant_candles zone timestamp m5))
            memory

    -- `_lifecycle`
    unfoldable pub lifecycle : ℕ → List (MarketCandle R) → Memory R → Life R × Memory R
    lifecycle timestamp m5 memory = live_on timestamp m5 (prune_invalidated timestamp memory)
