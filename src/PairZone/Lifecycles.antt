-- ===== src/PairZone/Lifecycles.antt =====
-- What the state that `_lifecycle` returns says of the candles between the zone's creation and now.
use xauusd_bot.Base.{
  ℕ, ◌+◌, ◌≡◌, ◌⊎◌, ◌≤◌, ◌<◌, refl, subst, Bool, true, false, Option, none, some, List, ltb, ◌==◌,
  is_some, arith, inl, inr, Bool-cases, dict_get, if_case,
}
use xauusd_bot.Risk.Floats.{Floats}
use xauusd_bot.PairZone.Types.{
  MarketCandle, PairZone, Config, LifeState, created, active, touched, confirmed, invalidated,
  expired, Memory, minutes,
}
use xauusd_bot.PairZone.Life.{
  Passage, broken, passed, Life, prune_invalidated, relevant_candles, is_over, survive, end_life,
  live_on, lifecycle,
}
use xauusd_bot.PairZone.Verdicts.{
  Unbroken, Unconfirmed, entries, FirstBreak, FirstConfirmation, ConfirmationAfter, Told,
  pass_candles-Told,
}

module _ {R : Type 0} (F : Floats R) (config : Config R) (zone : PairZone R) (timestamp : ℕ) where
  abbrev pub last_moment : ℕ
  last_moment = zone.created_at + minutes config.zone_max_age_minutes

  -- The zone still stands: no candle broke it, and neither its age nor its touches end it.
  pub record Stands (cs : List (MarketCandle R)) (touches : ℕ) : Type 0 where
    pub unbroken : Unbroken F config zone cs
    pub counted : touches ≡ entries F config zone false cs
    pub in_time : timestamp ≤ last_moment
    pub few : touches ≤ config.zone_max_touches

  -- What a state means, for the candles of the zone's life.
  unfoldable pub Means :
      List (MarketCandle R) → (remembered : Bool) → LifeState → ℕ → Option (MarketCandle R) → Type 0
  Means cs remembered created touches conf = (timestamp < zone.created_at) × (conf ≡ none)
  Means cs remembered invalidated touches conf =
      ((remembered ≡ true) ⊎ FirstBreak F config zone false touches cs) × (conf ≡ none)
  Means cs remembered expired touches conf =
      Unbroken F config zone cs
      × (touches ≡ entries F config zone false cs)
      × ((last_moment < timestamp) ⊎ (config.zone_max_touches < touches))
      × (conf ≡ none)
  Means cs remembered confirmed touches conf =
      Stands cs touches
      × ((c : MarketCandle R) × (conf ≡ some c) × FirstConfirmation F config zone cs c)
  Means cs remembered touched touches conf =
      Stands cs touches × Unconfirmed F config zone cs × (0 < touches) × (conf ≡ none)
  Means cs remembered active touches conf =
      Stands cs touches × Unconfirmed F config zone cs × (touches ≡ 0) × (conf ≡ none)

  abbrev pub MeansOf : List (MarketCandle R) → Bool → Life R → Type 0
  MeansOf cs remembered life = Means cs remembered life.state life.touches life.confirmation

  is_over-true :
      (touches : ℕ)
      → is_over F config zone timestamp touches ≡ true
      → (last_moment < timestamp) ⊎ (config.zone_max_touches < touches)
  unfolding is_over
  is_over-true touches h = ground arith

  is_over-false :
      (touches : ℕ)
      → is_over F config zone timestamp touches ≡ false
      → (timestamp ≤ last_moment) × (touches ≤ config.zone_max_touches)
  unfolding is_over
  is_over-false touches h = ground arith

  survive-Means :
      (cs : List (MarketCandle R)) (remembered : Bool) (touches : ℕ) (g : Option (MarketCandle R))
      (memory : Memory R)
      → Stands cs touches
      → ConfirmationAfter F config zone none cs g
      → MeansOf cs remembered (survive F config zone touches g memory).0
  unfolding survive Means ConfirmationAfter
  survive-Means cs remembered touches (some c) memory s h = (s, (c, refl, h))
  survive-Means cs remembered touches none memory s h = elim (Bool-cases (touches == 0)) [
    | inl e ↦ rw e (s, h, ground arith, refl)
    | inr e ↦ rw e (s, h, ground arith, refl)
  ]

  end_life-Means :
      (cs : List (MarketCandle R)) (remembered : Bool) (p : Passage R) (memory : Memory R)
      → Told F config zone 0 false none cs p
      → MeansOf cs remembered (end_life F config zone timestamp p memory).0
  unfolding end_life Means Told
  end_life-Means cs remembered (broken touches c) memory (k, e, b) =
      (inr (subst (λ (n : ℕ). FirstBreak F config zone false n cs) (omega arith) b), refl)
  end_life-Means cs remembered (passed touches g) memory (whole, e, conf) =
      if_case (λ (out : Life R × Memory R). MeansOf cs remembered out.0)
        (is_over F config zone timestamp touches) _ _
        (λ over. (whole, omega (arith, e), is_over-true touches over, refl))
        (λ on.
          survive-Means cs remembered touches g memory
            (record {
              unbroken = whole;
              counted = omega (arith, e);
              in_time = (is_over-false touches on).0;
              few = (is_over-false touches on).1;
            })
            conf)

  -- _lifecycle returns CREATED only before the zone's creation; INVALIDATED where a break of the
  -- zone is remembered, or where a first candle of its life closes beyond it, with the number of
  -- entries up to that candle; and else, with the number of entries of the candles, none of which
  -- closes beyond it: EXPIRED where the zone is too old or was entered too often, CONFIRMED with
  -- the first candle that confirms it, TOUCHED where none confirms and one entered, and ACTIVE
  -- where none entered.
  pub lifecycle-Means :
      (m5 : List (MarketCandle R)) (memory : Memory R)
      → MeansOf
          (relevant_candles zone timestamp m5)
          (is_some (dict_get zone.zone_id (prune_invalidated timestamp memory).invalidated_until))
          (lifecycle F config zone timestamp m5 memory).0
  unfolding lifecycle live_on
  lifecycle-Means m5 memory =
      let cs = relevant_candles zone timestamp m5 in
      let pruned = prune_invalidated timestamp memory in
      let remembered = is_some (dict_get zone.zone_id pruned.invalidated_until) in
      if_case (λ (out : Life R × Memory R). MeansOf cs remembered out.0)
        (ltb timestamp zone.created_at) _ _ (λ early. unfold Means in (ground arith, refl))
        (λ late.
          if_case (λ (out : Life R × Memory R). MeansOf cs remembered out.0) remembered _ _
            (λ e. unfold Means in (inl e, refl))
            (λ e.
              end_life-Means cs remembered _ pruned
                (pass_candles-Told F config zone cs 0 false none)))
