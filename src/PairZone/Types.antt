-- ===== src/PairZone/Types.antt =====
-- services/pair_zone_strategy.py: candles, zones, the settings and what the strategy remembers.
use xauusd_bot.Base.{ℕ, ◌*◌, Option, List, [], Text, Dict}

-- The fields of `Candle` that the strategies read.
pub record MarketCandle (R : Type 0) : Type 0 where
  pub timestamp : ℕ
  pub open_price : R
  pub high : R
  pub low : R
  pub close : R

pub data Direction : Type 0 where
  buy sell : Direction

-- Without the copies of the two candles' prices, which nothing reads.
pub record PairZone (R : Type 0) : Type 0 where
  pub zone_id : Text
  pub direction : Direction
  pub created_at : ℕ
  pub upper_bound : R
  pub lower_bound : R
  pub first_timestamp : ℕ
  pub second_timestamp : ℕ
  pub zone_width : R
  pub displacement : R
  pub body_ratio : R
  pub overlap_ratio : R

-- The settings of pair_zone_v1.yaml that are read.
pub record Config (R : Type 0) : Type 0 where
  pub target_rr : R
  pub min_body_points : R
  pub base_body_ratio_max : R
  pub displacement_body_ratio_min : R
  pub displacement_min_points : R
  pub minimum_overlap_ratio : R
  pub minimum_zone_width : R
  pub confirmation_wick_to_body : R
  pub zone_max_age_minutes : ℕ
  pub zone_max_touches : ℕ
  pub stop_buffer_points : R
  pub max_spread_points : ℕ
  pub htf_fast_period : ℕ
  pub htf_slow_period : ℕ

pub data LifeState : Type 0 where
  created active touched confirmed invalidated expired : LifeState

-- An entry of `_invalidation_observations`.
pub record Breach (R : Type 0) : Type 0 where
  pub zone : PairZone R
  pub m5_candle_timestamp : ℕ
  pub m5_close : R

-- The attributes of `PairZoneV1` that change.
pub record Memory (R : Type 0) : Type 0 where
  pub seen_pairs : List Text
  pub pair_cache : Dict (Option (PairZone R))
  pub seen_zones : Dict (PairZone R)
  pub touch_counts : Dict ℕ
  pub confirmed_ids : List Text
  pub invalidated_until : Dict ℕ
  pub breaches : Dict (Breach R)
  pub expired_ids : List Text
  pub touch_events : ℕ

-- What `reset_research` leaves, and `__init__` starts with.
abbrev pub blank_memory : {R : Type 0} → Memory R
blank_memory = record {
  seen_pairs = [];
  pair_cache = [];
  seen_zones = [];
  touch_counts = [];
  confirmed_ids = [];
  invalidated_until = [];
  breaches = [];
  expired_ids = [];
  touch_events = 0;
}

-- `datetime.isoformat` and the hexadecimal SHA-256 of a text.
pub record Naming : Type 0 where
  pub isoformat : ℕ → Text
  pub sha256_hex : Text → Text

-- `timedelta(minutes=n)`, in microseconds.
unfoldable pub minutes : ℕ → ℕ
minutes n = n * 60000000
