-- ===== src/PairZone/Coverage.antt =====
-- services/pair_zone_strategy.py: whether the candles cover what `evaluate` says of them, and
-- `_h1_direction`.
use xauusd_bot.Base.{
  ℕ, zero, suc, ◌+◌, ◌-◌, Bool, true, false, ◌&&◌, ◌||◌, Option, none, some, List, [], ◌∷◌, length,
  ltb, leb, ◌==◌, if◌then◌else◌,
}
use xauusd_bot.Risk.Floats.{Floats, is_positive}
use xauusd_bot.PairZone.Types.{MarketCandle, Direction, buy, sell, PairZone, Config, minutes}
use xauusd_bot.PairZone.Life.{relevant_candles}

module _ {A : Type 0} where
  unfoldable pub drop_items : ℕ → List A → List A
  drop_items zero xs = xs
  drop_items (suc n) [] = []
  drop_items (suc n) (x ∷ xs) = drop_items n xs

  -- `xs[-n:]`, which is all of `xs` for 0.
  unfoldable pub last_items : ℕ → List A → List A
  last_items n xs = if n == 0 then xs else drop_items (length xs - n) xs

  -- `xs[:-1]`
  unfoldable pub without_last : List A → List A
  without_last [] = []
  without_last (x ∷ []) = []
  without_last (x ∷ y ∷ ys) = x ∷ without_last (y ∷ ys)

  unfoldable pub last_item : List A → Option A
  last_item [] = none
  last_item (x ∷ []) = some x
  last_item (x ∷ y ∷ ys) = last_item (y ∷ ys)

module _ {R : Type 0} where
  -- `all(right.timestamp - left.timestamp == step …)`
  unfoldable pub has_steps : ℕ → List (MarketCandle R) → Bool
  has_steps step [] = true
  has_steps step (c ∷ []) = true
  has_steps step (c ∷ d ∷ ds) = d.timestamp == c.timestamp + step && has_steps step (d ∷ ds)

  unfoldable pub starts_at : ℕ → List (MarketCandle R) → Bool
  starts_at t [] = false
  starts_at t (c ∷ cs) = c.timestamp == t

  unfoldable pub is_at : ℕ → Option (MarketCandle R) → Bool
  is_at t none = false
  is_at t (some c) = c.timestamp == t

  -- `_has_complete_zone_m5_history`
  unfoldable pub has_complete_history : PairZone R → List (MarketCandle R) → ℕ → Bool
  has_complete_history zone m5 timestamp =
      let relevant = relevant_candles zone timestamp m5 in
      ltb timestamp (zone.created_at + minutes 5)
      || starts_at (zone.created_at + minutes 5) relevant
        && is_at timestamp (last_item relevant)
        && has_steps (minutes 5) relevant

  -- `c.timestamp >= coverage_cutoff`; `span` is the age of the cutoff.
  unfoldable pub covered : (span timestamp : ℕ) → List (MarketCandle R) → List (MarketCandle R)
  covered span timestamp [] = []
  covered span timestamp (c ∷ cs) =
      let rest = covered span timestamp cs in
      if leb timestamp (c.timestamp + span) then c ∷ rest else rest

  -- `relevant_m15[0].timestamp - coverage_cutoff <= timedelta(minutes=15)`
  unfoldable pub starts_in_time : (span timestamp : ℕ) → List (MarketCandle R) → Bool
  starts_in_time span timestamp [] = false
  starts_in_time span timestamp (c ∷ cs) = leb (c.timestamp + span) (timestamp + minutes 15)

module _ {R : Type 0} (F : Floats R) where
  unfoldable pub ema_from : (alpha current : R) → List R → R
  ema_from alpha current [] = current
  ema_from alpha current (value ∷ values) =
      ema_from alpha (F.add (F.mul alpha value) (F.mul (F.sub (F.of_nat 1) alpha) current)) values

  -- `_ema`, `none` where `values[0]` raises.
  unfoldable pub ema : List R → ℕ → Option R
  ema [] period = none
  ema (value ∷ values) period =
      some (ema_from (F.div (F.of_nat 2) (F.of_nat (period + 1))) value values)

  unfoldable pub positive_closes : List (MarketCandle R) → List R
  positive_closes [] = []
  positive_closes (c ∷ cs) =
      let rest = positive_closes cs in if is_positive F c.close then c.close ∷ rest else rest

  unfoldable pub compare_averages : (fast previous_fast slow : R) → Option Direction
  compare_averages fast previous_fast slow =
      if F.lt slow fast && F.lt previous_fast fast
      then some buy
      else if F.lt fast slow && F.lt fast previous_fast
      then some sell
      else none

  unfoldable pub averages_direction :
      (fast previous_fast slow : Option R) → Option (Option Direction)
  averages_direction (some fast) (some previous_fast) (some slow) =
      some (compare_averages fast previous_fast slow)
  averages_direction _ _ _ = none

  -- `_h1_direction`, `none` where it raises.
  unfoldable pub h1_direction : Config R → List (MarketCandle R) → Option (Option Direction)
  h1_direction config candles =
      let closes = positive_closes candles in
      let fast = config.htf_fast_period in
      let slow = config.htf_slow_period in
      if ltb (length candles) (slow + 1)
      then some none
      else averages_direction (ema (last_items fast closes) fast)
          (ema (without_last (drop_items (length closes - (fast + 1)) closes)) fast)
          (ema (last_items slow closes) slow)
