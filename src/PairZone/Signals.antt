-- ===== src/PairZone/Signals.antt =====
-- What stands behind a trade that `evaluate` proposes, and how often it is proposed.
use xauusd_bot.Base.{
  ℕ, ◌≡◌, refl, sym, Bool, true, false, not, ◌&&◌, ◌||◌, Option, none, some, List, [], ◌∷◌, take,
  ltb, if◌then◌else◌, is_some, All, All-mono, if_case, subst,
}
use xauusd_bot.Risk.Floats.{Floats}
use xauusd_bot.Risk.Snapshot.{RiskSnapshot}
use xauusd_bot.Risk.Gate
use xauusd_bot.Risk.Gate.{RiskGateResult, blocked, approved, risk_gate}
use xauusd_bot.PairZone.Types.{MarketCandle, Direction, PairZone, Config, Memory}
use xauusd_bot.PairZone.Coverage.{h1_direction}
use xauusd_bot.PairZone.Decision.{
  ZoneReason, ZoneStage, Observation, Trade, ZoneDecision, no_trade, trade, Feed, Survey,
  first_candidate, recent_zones,
}
use xauusd_bot.PairZone.Evaluation.{
  max_age, survey_zones, without_candidate, stop_of, distance_of, target_of, gated, price_trade,
  with_candidate, decide, decide_zones, refuse, evaluation_time,
}
use xauusd_bot.PairZone.Candidates.{Grows, Grows-trans}
use xauusd_bot.PairZone.Surveys.{
  IsCandidate, IsCandidate-earlier, survey_zones-Grows, survey_zones-IsCandidate,
  first_candidate-All,
}

module _ {R : Type 0} (F : Floats R) (config : Config R) where
  -- The prices of a trade, and that the risk gate approved of them.
  pub record IsPriced (feed : Feed R) (t : Trade R) (c : MarketCandle R) : Type 0 where
    pub risk : RiskSnapshot R
    pub open_risk : R
    pub remaining : R
    pub known : feed.risk ≡ some risk
    pub entry : t.entry_price ≡ c.close
    pub stop : t.stop_loss ≡ stop_of F config t.zone t.zone.direction
    pub target :
        t.take_profit
        ≡ target_of F config c.close
            (distance_of F config t.entry_price t.stop_loss t.zone.direction)
            t.zone.direction
    pub wide :
        F.le
          (distance_of F config t.entry_price t.stop_loss t.zone.direction)
          feed.market.symbol.trade_tick_size
        ≡ false
    pub spread : ltb config.max_spread_points feed.spread ≡ false
    pub gate :
        Gate.evaluate F
          (risk_gate F (F.of_nat 2) (F.of_nat 6))
          feed.market
          risk
          t.entry_price
          t.stop_loss
        ≡ some (approved open_risk remaining t.approved_risk_percent, some t.hypothetical_volume)

  -- A trade with its candle, for an evaluation between two memories.
  pub record IsBacked (feed : Feed R) (start final : Memory R) (t : Trade R) : Type 0 where
    pub m5 : List (MarketCandle R)
    pub h1 : Option Direction
    pub candle : MarketCandle R
    pub closed : feed.candles_are_closed ≡ true
    pub live : feed.is_live ≡ true
    pub connected : feed.is_connected ≡ true
    pub read : feed.m5 ≡ some m5
    pub trend : h1_direction F config feed.h1 ≡ some h1
    pub candidate :
        IsCandidate F config h1 (evaluation_time F config feed) m5 start final (t.zone, candle)
    pub priced : IsPriced feed t candle

  if-trade :
      (b : Bool) (reason : ZoneReason) (stage : ZoneStage) (o : Observation R)
      (y : Option (ZoneDecision R)) (t : Trade R)
      → (if b then some (no_trade reason stage o) else y) ≡ some (trade t)
      → (b ≡ false) × (y ≡ some (trade t))
  if-trade true reason stage o y t e = absurd (cc)
  if-trade false reason stage o y t e = (refl, e)

  gated-IsPriced :
      (feed : Feed R) (risk : RiskSnapshot R) (zone : PairZone R) (c : MarketCandle R)
      (o : Observation R) (g : Gate.Evaluation R) (t : Trade R)
      → feed.risk ≡ some risk
      → F.le
          (distance_of F config c.close (stop_of F config zone zone.direction) zone.direction)
          feed.market.symbol.trade_tick_size
        ≡ false
      → ltb config.max_spread_points feed.spread ≡ false
      → Gate.evaluate F
          (risk_gate F (F.of_nat 2) (F.of_nat 6))
          feed.market
          risk
          c.close
          (stop_of F config zone zone.direction)
        ≡ g
      → gated F config zone c.close
          (stop_of F config zone zone.direction)
          (target_of F config c.close
            (distance_of F config c.close (stop_of F config zone zone.direction) zone.direction)
            zone.direction)
          o
          g
        ≡ some (trade t)
      → (t.zone ≡ zone) × IsPriced feed t c
  unfolding gated
  gated-IsPriced feed risk zone c o none t known wide spread g e = absurd (cc)
  gated-IsPriced feed risk zone c o (some (blocked r, v)) t known wide spread g e = absurd (cc)
  gated-IsPriced feed risk zone c o (some (approved a b p, none)) t known wide spread g e =
      absurd (cc)
  gated-IsPriced feed risk zone c o (some (approved a b p, some v)) t known wide spread g e =
      subst (λ (t : Trade R). (t.zone ≡ zone) × IsPriced feed t c) (trade-injective e)
        (
          refl,
          record {
            risk = risk;
            open_risk = a;
            remaining = b;
            known = known;
            entry = refl;
            stop = refl;
            target = refl;
            wide = wide;
            spread = spread;
            gate = g;
          },
        )
    where
      trade-injective : {t u : Trade R} → some (trade t) ≡ some (trade u) → t ≡ u
      trade-injective e = cc

  with_candidate-IsPriced :
      (feed : Feed R) (risk : RiskSnapshot R) (zone : PairZone R) (c : MarketCandle R)
      (m5 : List (MarketCandle R)) (timestamp : ℕ) (memory : Memory R) (t : Trade R)
      → feed.risk ≡ some risk
      → with_candidate F config feed risk (zone, c) m5 timestamp memory ≡ some (trade t)
      → (t.zone ≡ zone) × IsPriced feed t c
  unfolding with_candidate price_trade
  with_candidate-IsPriced feed risk zone c m5 timestamp memory t known e =
      let (_, priced) = if-trade _ _ _ _ _ t e in
      let (wide, checked) = if-trade _ _ _ _ _ t priced in
      let (spread, gate) = if-trade _ _ _ _ _ t checked in
      gated-IsPriced feed risk zone c _ _ t known wide spread refl gate

  -- What an answer with a memory says of a trade in it.
  abbrev pub BacksTrades : Feed R → Memory R → Option (ZoneDecision R) × Memory R → Type 0
  BacksTrades feed memory out =
      Grows memory out.1 × ((t : Trade R) → out.0 ≡ some (trade t) → IsBacked feed memory out.1 t)

  without_candidate_is_no_trade :
      (h1 : Option Direction) (survey : Survey R) (m5 m15 : List (MarketCandle R))
      (has_zones : Bool) (timestamp : ℕ) (t : Trade R)
      → ¬ (some (without_candidate F config h1 survey m5 m15 has_zones timestamp) ≡ some (trade t))
  unfolding without_candidate
  without_candidate_is_no_trade h1 survey m5 m15 has_zones timestamp t =
      if_case (λ (d : ZoneDecision R). ¬ (some d ≡ some (trade t)))
        (survey.htf_mismatch || has_zones && not (is_some h1)) _ _ (λ _ e. absurd (cc))
        (λ _.
          if_case (λ (d : ZoneDecision R). ¬ (some d ≡ some (trade t))) has_zones _ _
            (λ _ e. absurd (cc)) (λ _ e. absurd (cc)))

  decide-IsBacked :
      (feed : Feed R) (risk : RiskSnapshot R) (h1 : Option Direction) (survey : Survey R)
      (m5 : List (MarketCandle R)) (has_zones : Bool)
      (candidates : List (PairZone R × MarketCandle R)) (start final : Memory R) (t : Trade R)
      → feed.candles_are_closed ≡ true
      → feed.is_live ≡ true
      → feed.is_connected ≡ true
      → feed.m5 ≡ some m5
      → h1_direction F config feed.h1 ≡ some h1
      → feed.risk ≡ some risk
      → All (IsCandidate F config h1 (evaluation_time F config feed) m5 start final) candidates
      → decide F config feed risk h1 survey m5 has_zones
          (evaluation_time F config feed)
          candidates
          final
        ≡ some (trade t)
      → IsBacked feed start final t
  unfolding decide
  decide-IsBacked feed risk h1 survey m5 has_zones [] start final t closed live connected read trend
        known all e =
      absurd (
        without_candidate_is_no_trade h1 survey m5 feed.m15 has_zones
          (evaluation_time F config feed) t e)
  decide-IsBacked feed risk h1 survey m5 has_zones (c ∷ cs) start final t closed live connected read
        trend known all e =
      let best = first_candidate c cs in
      let is_candidate =
        first_candidate-All (IsCandidate F config h1 (evaluation_time F config feed) m5 start final)
          cs c all.0 all.1 in
      let (same, priced) =
        with_candidate-IsPriced feed risk best.0 best.1 m5 (evaluation_time F config feed) final t
          known e in
      record {
        m5 = m5;
        h1 = h1;
        candle = best.1;
        closed = closed;
        live = live;
        connected = connected;
        read = read;
        trend = trend;
        candidate =
            subst
              (λ (z : PairZone R).
                IsCandidate F config h1 (evaluation_time F config feed) m5 start final (z, best.1))
              (sym same) is_candidate;
        priced = priced;
      }

  pub refuse-BacksTrades :
      (feed : Feed R) (reason : ZoneReason) (stage : ZoneStage) (start memory : Memory R)
      → Grows start memory
      → BacksTrades feed start (refuse F config reason stage memory)
  unfolding refuse
  refuse-BacksTrades feed reason stage start memory g = (g, λ t e. absurd (cc))

  pub decide_zones-BacksTrades :
      (feed : Feed R) (risk : RiskSnapshot R) (m5 : List (MarketCandle R))
      (trend : Option (Option Direction)) (zones : List (PairZone R)) (start memory : Memory R)
      → Grows start memory
      → feed.candles_are_closed ≡ true
      → feed.is_live ≡ true
      → feed.is_connected ≡ true
      → feed.m5 ≡ some m5
      → h1_direction F config feed.h1 ≡ trend
      → feed.risk ≡ some risk
      → BacksTrades feed start
          (decide_zones F config feed risk m5 (evaluation_time F config feed) trend (zones, memory))
  unfolding decide_zones
  decide_zones-BacksTrades feed risk m5 none zones start memory g closed live connected read trend
        known =
      (g, λ t e. absurd (cc))
  decide_zones-BacksTrades feed risk m5 (some h1) zones start memory g closed live connected read
        trend known =
      let timestamp = evaluation_time F config feed in
      let recent = take 24 (recent_zones (max_age F config) timestamp zones) in
      let final = (survey_zones F config h1 timestamp m5 recent memory).1 in
      (
        Grows-trans start memory final g
            (survey_zones-Grows F config h1 timestamp m5 recent memory),
        λ t e.
            decide-IsBacked feed risk h1 _ m5 _ _ start final t closed live connected read trend
              known
              (All-mono (IsCandidate F config h1 timestamp m5 memory final)
                (IsCandidate F config h1 timestamp m5 start final) _
                (λ c. IsCandidate-earlier F config h1 timestamp m5 start memory final c g)
                (survey_zones-IsCandidate F config h1 timestamp m5 recent memory))
              e,
      )
