-- ===== src/PairZone/Reports.antt =====
-- services/pair_zone_strategy.py: `validate_config`, `reset_research`, `research_statistics` and
-- `invalidation_observations`; and which zones are counted as expired.
use xauusd_bot.Base.{
  ℕ, ◌+◌, ◌-◌, ◌≡◌, ◌≤◌, ◌<◌, Bool, not, ◌&&◌, ◌||◌, Option, List, [], ◌∷◌, Text, Dict, codes,
  length, ltb, leb, if◌then◌else◌, text_eq, All, arith, inl, inr, if_case,
}
use xauusd_bot.Risk.Floats.{Floats, is_no_more_than_zero}
use xauusd_bot.PairZone.Types.{
  MarketCandle, PairZone, Config, LifeState, created, active, touched, confirmed, invalidated,
  expired, Breach, Memory, blank_memory,
}
use xauusd_bot.PairZone.Life.{lifecycle}
use xauusd_bot.PairZone.Decision.{insert_recent, recent_zones}
use xauusd_bot.PairZone.Evaluation.{max_age}
use xauusd_bot.PairZone.Lifecycles.{Means, lifecycle-Means}

-- The dictionary of `research_statistics`; its counts of CREATED, CONFIRMED, INVALIDATED and EXPIRED
-- repeat others.
pub record Statistics : Type 0 where
  pub candidate_pairs : ℕ
  pub valid_zones : ℕ
  pub invalid_zones : ℕ
  pub zone_touches : ℕ
  pub confirmed_entries : ℕ
  pub invalidated_zones : ℕ
  pub expired_zones : ℕ
  pub active_zones : ℕ
  pub touched_zones : ℕ

-- `sum(count > 0 for count in counts)`
unfoldable pub count_touched : Dict ℕ → ℕ
count_touched [] = 0
count_touched ((id, n) ∷ counts) = (if ltb 0 n then 1 else 0) + count_touched counts

unfoldable pub dict_values {ℓ} : {A : Type ℓ} → List (Text × A) → List A
dict_values [] = []
dict_values ((key, value) ∷ entries) = value ∷ dict_values entries

module _ {R : Type 0} where
  -- `reset_research`
  unfoldable pub reset_research : Memory R → Memory R
  reset_research memory = blank_memory

  unfoldable pub research_statistics : Memory R → Statistics
  research_statistics memory =
      let seen = length memory.seen_zones in
      let broken = length memory.invalidated_until in
      let over = length memory.expired_ids in
      record {
        candidate_pairs = length memory.seen_pairs;
        valid_zones = seen;
        invalid_zones = length memory.seen_pairs - seen;
        zone_touches = memory.touch_events;
        confirmed_entries = length memory.confirmed_ids;
        invalidated_zones = broken;
        expired_zones = over;
        active_zones = seen - broken - over;
        touched_zones = count_touched memory.touch_counts;
      }

  unfoldable pub invalidation_observations : Memory R → List (Breach R)
  invalidation_observations memory = dict_values memory.breaches

module _ {R : Type 0} (F : Floats R) (config : Config R) where
  -- `validate_config`: no error is raised.
  unfoldable pub validate_config : (invalidation_close_rule : Text) → Bool
  validate_config rule =
      not (is_no_more_than_zero F config.target_rr)
      && not (
          is_no_more_than_zero F config.min_body_points
          || is_no_more_than_zero F config.minimum_zone_width)
      && not (leb config.zone_max_age_minutes 0 || leb config.zone_max_touches 0)
      && text_eq rule (codes "opposite_zone_boundary")

  -- A zone of which `_lifecycle` can only say EXPIRED for its touches.
  pub record ExpiresByTouches (timestamp : ℕ) (zone : PairZone R) : Type 0 where
    pub by_touches :
        (m5 : List (MarketCandle R)) (memory : Memory R)
        → (lifecycle F config zone timestamp m5 memory).0.state ≡ expired
        → config.zone_max_touches < (lifecycle F config zone timestamp m5 memory).0.touches

  expired-Means :
      (timestamp : ℕ) (zone : PairZone R) (cs : List (MarketCandle R)) (remembered : Bool)
      (state : LifeState) (touches : ℕ) (conf : Option (MarketCandle R))
      → timestamp ≤ zone.created_at + max_age F config
      → Means F config zone timestamp cs remembered state touches conf
      → state ≡ expired
      → config.zone_max_touches < touches
  unfolding Means max_age
  expired-Means timestamp zone cs r expired touches conf young (_, _, inl old, _) e =
      absurd (omega arith)
  expired-Means timestamp zone cs r expired touches conf young (_, _, inr many, _) e = many
  expired-Means timestamp zone cs r created touches conf young m e = absurd (cc)
  expired-Means timestamp zone cs r active touches conf young m e = absurd (cc)
  expired-Means timestamp zone cs r touched touches conf young m e = absurd (cc)
  expired-Means timestamp zone cs r confirmed touches conf young m e = absurd (cc)
  expired-Means timestamp zone cs r invalidated touches conf young m e = absurd (cc)

  insert_recent-All :
      (P : PairZone R → Type 0) (zone : PairZone R) (zones : List (PairZone R))
      → P zone
      → All P zones
      → All P (insert_recent zone zones)
  unfolding insert_recent
  insert_recent-All P zone [] h all = (h, tt)
  insert_recent-All P zone (z ∷ zs) h all =
      if_case (All P) (leb z.created_at zone.created_at) _ _ (λ e. (h, all))
        (λ e. (all.0, insert_recent-All P zone zs h all.1))

  -- None of the zones that evaluate hands to _lifecycle is ever EXPIRED for its age, whatever the candles
  -- and the memory: one that is found EXPIRED was entered more often than zone_max_touches.
  pub recent_zones-ExpireByTouches :
      (timestamp : ℕ) (zones : List (PairZone R))
      → All (ExpiresByTouches timestamp) (recent_zones (max_age F config) timestamp zones)
  unfolding recent_zones
  recent_zones-ExpireByTouches timestamp [] = tt
  recent_zones-ExpireByTouches timestamp (z ∷ zs) =
      if_case (All (ExpiresByTouches timestamp)) (leb timestamp (z.created_at + max_age F config)) _
        _
        (λ young.
          insert_recent-All (ExpiresByTouches timestamp) z _
            (record {
              by_touches = λ m5 memory e.
                  expired-Means timestamp z _ _ _ _ _ (ground arith)
                    (lifecycle-Means F config z timestamp m5 memory) e;
            })
            (recent_zones-ExpireByTouches timestamp zs))
        (λ old. recent_zones-ExpireByTouches timestamp zs)
