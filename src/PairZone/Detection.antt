-- ===== src/PairZone/Detection.antt =====
-- services/pair_zone_strategy.py: `detect_pair` and `_zones`.
use mathlib.Core.Option
use xauusd_bot.Base.{
  ℕ, ◌+◌, Bool, not, ◌&&◌, ◌||◌, Option, none, some, List, [], ◌∷◌, ◌++◌, Text, Dict, codes, take,
  leb, ◌==◌, if◌then◌else◌, dict_get, dict_set, text_eq,
}
use xauusd_bot.Risk.Floats.{Floats, least, is_no_more_than_zero}
use xauusd_bot.PairZone.Types.{
  MarketCandle, Direction, buy, sell, PairZone, Config, Memory, Naming, minutes,
}

-- `key in keys`, and `keys.add(key)`.
unfoldable pub is_member : Text → List Text → Bool
is_member k [] = Bool.false
is_member k (l ∷ ls) = text_eq k l || is_member k ls

unfoldable pub add_member : Text → List Text → List Text
add_member k ls = if is_member k ls then ls else k ∷ ls

unfoldable pub direction_text : Direction → Text
direction_text buy = codes "BUY"
direction_text sell = codes "SELL"

module _ {R : Type 0} (F : Floats R) where
  -- `max(a, b)`
  unfoldable pub greater_of : R → R → R
  greater_of a b = if F.lt a b then b else a

  unfoldable pub range_of : MarketCandle R → R
  range_of c = F.sub c.high c.low

  unfoldable pub body_of : MarketCandle R → R
  body_of c = F.abs (F.sub c.close c.open_price)

  unfoldable pub overlap_lower : (first second : MarketCandle R) → R
  overlap_lower first second = greater_of first.low second.low

  unfoldable pub overlap_upper : (first second : MarketCandle R) → R
  overlap_upper first second = least F first.high second.high

  unfoldable pub overlap_width : (first second : MarketCandle R) → R
  overlap_width first second = F.sub (overlap_upper first second) (overlap_lower first second)

  unfoldable pub overlap_ratio_of : (first second : MarketCandle R) → R
  overlap_ratio_of first second =
      F.div (overlap_width first second) (least F (range_of first) (range_of second))

  unfoldable pub displacement_of : (first second : MarketCandle R) → R
  displacement_of first second = F.abs (F.sub second.close first.close)

  unfoldable pub pair_direction : (first second : MarketCandle R) → Option Direction
  pair_direction first second =
      if F.lt second.open_price second.close && F.lt first.close second.close
      then some buy
      else if F.lt second.close second.open_price && F.lt second.close first.close
      then some sell
      else none

module _ {R : Type 0} (F : Floats R) (config : Config R) where
  -- The tests from `timedelta` to `displacement_body_ratio_min`.
  unfoldable pub has_pair_shape : (first second : MarketCandle R) → Bool
  has_pair_shape first second =
      second.timestamp == first.timestamp + minutes 15
      && not (F.lt (least F (body_of F first) (body_of F second)) config.min_body_points)
      && not
          (is_no_more_than_zero F (range_of F first) || is_no_more_than_zero F (range_of F second))
      && not (F.lt config.base_body_ratio_max (F.div (body_of F first) (range_of F first)))
      && not
          (F.lt (F.div (body_of F second) (range_of F second)) config.displacement_body_ratio_min)

  -- The tests on the overlap and on the displacement.
  unfoldable pub has_zone_size : (first second : MarketCandle R) → Bool
  has_zone_size first second =
      not (F.lt (overlap_width F first second) config.minimum_zone_width)
      && not (F.lt (overlap_ratio_of F first second) config.minimum_overlap_ratio)
      && not (F.lt (displacement_of F first second) config.displacement_min_points)

module _ {R : Type 0} where
  unfoldable pub keep_zone : Option (PairZone R) → Dict (PairZone R) → Dict (PairZone R)
  keep_zone none zones = zones
  keep_zone (some zone) zones = dict_set zone.zone_id zone zones

  unfoldable pub cons_due : ℕ → Option (PairZone R) → List (PairZone R) → List (PairZone R)
  cons_due timestamp none zones = zones
  cons_due timestamp (some zone) zones =
      if leb zone.created_at timestamp then zone ∷ zones else zones

module _ {R : Type 0} (naming : Naming) where
  unfoldable pub pair_key : (first second : MarketCandle R) → Text
  pair_key first second =
      naming.isoformat first.timestamp ++ (codes "|" ++ naming.isoformat second.timestamp)

  unfoldable pub zone_id_of : (first second : MarketCandle R) → Direction → Text
  zone_id_of first second direction =
      codes "pz-"
      ++ take 16
          (naming.sha256_hex (pair_key first second ++ (codes "|" ++ direction_text direction)))

module _ {R : Type 0} (F : Floats R) (naming : Naming) where
  unfoldable pub zone_of : (first second : MarketCandle R) → Direction → PairZone R
  zone_of first second direction = record {
    zone_id = zone_id_of naming first second direction;
    direction = direction;
    created_at = second.timestamp + minutes 15;
    upper_bound = overlap_upper F first second;
    lower_bound = overlap_lower F first second;
    first_timestamp = first.timestamp;
    second_timestamp = second.timestamp;
    zone_width = overlap_width F first second;
    displacement = displacement_of F first second;
    body_ratio = F.div (body_of F second) (range_of F second);
    overlap_ratio = overlap_ratio_of F first second;
  }

module _ {R : Type 0} (F : Floats R) (naming : Naming) (config : Config R) where
  unfoldable pub detect_pair : (first second : MarketCandle R) → Option (PairZone R)
  detect_pair first second =
      if has_pair_shape F config first second && has_zone_size F config first second
      then Option.map (zone_of F naming first second) (pair_direction F first second)
      else none

  unfoldable pub detected :
      Option (Option (PairZone R)) → (first second : MarketCandle R) → Option (PairZone R)
  detected none first second = detect_pair first second
  detected (some cached) first second = cached

  -- The zone that is found or cached for a pair, and what the loop of `_zones` writes for it.
  unfoldable pub see_pair :
      (first second : MarketCandle R) → Memory R → Option (PairZone R) × Memory R
  see_pair first second memory =
      let key = pair_key naming first second in
      let zone = detected (dict_get key memory.pair_cache) first second in
      (
        zone,
        record memory {
          seen_pairs = add_member key memory.seen_pairs;
          pair_cache = dict_set key zone memory.pair_cache;
          seen_zones = keep_zone zone memory.seen_zones;
        },
      )

  -- `_zones`, over the M15 candles; the candle before comes first.
  unfoldable pub zones_after :
      ℕ → MarketCandle R → List (MarketCandle R) → Memory R → List (PairZone R) × Memory R
  zones_after timestamp first [] memory = ([], memory)
  zones_after timestamp first (second ∷ candles) memory =
      let (zone, seen) = see_pair first second memory in
      let (zones, done) = zones_after timestamp second candles seen in
      (cons_due timestamp zone zones, done)

  unfoldable pub zones_at : ℕ → List (MarketCandle R) → Memory R → List (PairZone R) × Memory R
  zones_at timestamp [] memory = ([], memory)
  zones_at timestamp (first ∷ candles) memory = zones_after timestamp first candles memory
