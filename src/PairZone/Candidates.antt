-- ===== src/PairZone/Candidates.antt =====
-- What the loop of `evaluate` guarantees of the candidates that it collects.
use xauusd_bot.Base.{
  ℕ, ◌≡◌, refl, sym, subst, ◌∙◌, Bool, true, Option, none, some, List, [], ◌∷◌, Text, ltb, ◌==◌,
  is_some, arith, dict_get, if_case, text_eq_refl, some-injective,
}
use xauusd_bot.Risk.Floats.{Floats}
use xauusd_bot.PairZone.Types.{
  MarketCandle, PairZone, Config, LifeState, created, active, touched, confirmed, invalidated,
  expired, Memory, Naming,
}
use xauusd_bot.PairZone.Detection.{is_member, add_member, see_pair, zones_after, zones_at}
use xauusd_bot.PairZone.Life.{
  Passage, broken, passed, Life, prune_invalidated, relevant_candles, is_over, survive, end_life,
  live_on, lifecycle,
}
use xauusd_bot.PairZone.Decision.{is_confirmed, count_touches}
use xauusd_bot.PairZone.Lifecycles.{Stands, Means}
use xauusd_bot.PairZone.Verdicts.{FirstConfirmation}

pub is_member-add_member_self : (k : Text) (ls : List Text) → is_member k (add_member k ls) ≡ true
unfolding add_member is_member
is_member-add_member_self k ls =
    if_case (λ (ms : List Text). is_member k ms ≡ true) (is_member k ls) _ _ (λ e. e)
      (λ e. rw (text_eq_refl k) refl)

pub is_member-add_member :
    (k l : Text) (ls : List Text) → is_member k ls ≡ true → is_member k (add_member l ls) ≡ true
unfolding add_member is_member
is_member-add_member k l ls h =
    if_case (λ (ms : List Text). is_member k ms ≡ true) (is_member l ls) _ _ (λ e. h)
      (λ e. ground (arith, h))

-- The ids that were confirmed at first are confirmed at last.
pub record Grows {R : Type 0} (start final : Memory R) : Type 0 where
  pub keeps :
      (k : Text) → is_member k start.confirmed_ids ≡ true → is_member k final.confirmed_ids ≡ true

module _ {R : Type 0} where
  pub Grows-same :
      (start final : Memory R) → final.confirmed_ids ≡ start.confirmed_ids → Grows start final
  Grows-same start final e = record { keeps = λ k h. rw e h }

  pub Grows-trans : (m n o : Memory R) → Grows m n → Grows n o → Grows m o
  Grows-trans m n o g h = record { keeps = λ k e. h.keeps k (g.keeps k e) }

  pub count_touches-confirmed_ids :
      (zone : PairZone R) (touches : ℕ) (memory : Memory R)
      → (count_touches zone touches memory).confirmed_ids ≡ memory.confirmed_ids
  unfolding count_touches
  count_touches-confirmed_ids zone touches memory =
      if_case (λ (m : Memory R). m.confirmed_ids ≡ memory.confirmed_ids) _ _ _ (λ e. refl)
        (λ e. refl)

module _ {R : Type 0} (F : Floats R) (config : Config R) where
  zones_after-confirmed_ids :
      (naming : Naming) (timestamp : ℕ) (cs : List (MarketCandle R)) (c : MarketCandle R)
      (memory : Memory R)
      → (zones_after F naming config timestamp c cs memory).1.confirmed_ids ≡ memory.confirmed_ids
  unfolding zones_after see_pair
  zones_after-confirmed_ids naming timestamp [] c memory = refl
  zones_after-confirmed_ids naming timestamp (d ∷ ds) c memory =
      zones_after-confirmed_ids naming timestamp ds d (see_pair F naming config c d memory).1

  pub zones_at-confirmed_ids :
      (naming : Naming) (timestamp : ℕ) (m15 : List (MarketCandle R)) (memory : Memory R)
      → (zones_at F naming config timestamp m15 memory).1.confirmed_ids ≡ memory.confirmed_ids
  unfolding zones_at
  zones_at-confirmed_ids naming timestamp [] memory = refl
  zones_at-confirmed_ids naming timestamp (c ∷ cs) memory =
      zones_after-confirmed_ids naming timestamp cs c memory

  module _ (zone : PairZone R) (timestamp : ℕ) where
    end_life-Grows :
        (p : Passage R) (memory : Memory R)
        → Grows memory (end_life F config zone timestamp p memory).1
    unfolding end_life survive
    end_life-Grows (broken touches c) memory = Grows-same _ _ refl
    end_life-Grows (passed touches none) memory =
        if_case (λ (out : Life R × Memory R). Grows memory out.1)
          (is_over F config zone timestamp touches) _ _ (λ e. Grows-same _ _ refl)
          (λ e. Grows-same _ _ refl)
    end_life-Grows (passed touches (some c)) memory =
        if_case (λ (out : Life R × Memory R). Grows memory out.1)
          (is_over F config zone timestamp touches) _ _ (λ e. Grows-same _ _ refl)
          (λ e. record { keeps = λ k h. is_member-add_member k zone.zone_id _ h })

    pub lifecycle-Grows :
        (m5 : List (MarketCandle R)) (memory : Memory R)
        → Grows memory (lifecycle F config zone timestamp m5 memory).1
    unfolding lifecycle live_on prune_invalidated
    lifecycle-Grows m5 memory =
        if_case (λ (out : Life R × Memory R). Grows memory out.1) (ltb timestamp zone.created_at) _
          _ (λ e. Grows-same _ _ refl)
          (λ e.
            if_case (λ (out : Life R × Memory R). Grows memory out.1)
              (is_some
                (dict_get zone.zone_id (prune_invalidated timestamp memory).invalidated_until))
              _ _ (λ e. Grows-same _ _ refl)
              (λ e. Grows-trans _ _ _ (Grows-same _ _ refl) (end_life-Grows _ _)))

    end_life-is_member :
        (p : Passage R) (memory : Memory R)
        → is_confirmed (end_life F config zone timestamp p memory).0.state ≡ true
        → is_member zone.zone_id (end_life F config zone timestamp p memory).1.confirmed_ids ≡ true
    unfolding end_life survive is_confirmed
    end_life-is_member (broken touches c) memory = λ h. absurd (cc)
    end_life-is_member (passed touches (some c)) memory =
        if_case
          (λ (out : Life R × Memory R).
            is_confirmed out.0.state ≡ true → is_member zone.zone_id out.1.confirmed_ids ≡ true)
          (is_over F config zone timestamp touches) _ _ (λ e h. absurd (cc))
          (λ e h. is_member-add_member_self zone.zone_id memory.confirmed_ids)
    end_life-is_member (passed touches none) memory =
        if_case
          (λ (out : Life R × Memory R).
            is_confirmed out.0.state ≡ true → is_member zone.zone_id out.1.confirmed_ids ≡ true)
          (is_over F config zone timestamp touches) _ _ (λ e h. absurd (cc))
          (λ e.
            if_case
              (λ (s : LifeState).
                is_confirmed s ≡ true → is_member zone.zone_id memory.confirmed_ids ≡ true)
              (touches == 0) _ _ (λ _ h. absurd (cc)) (λ _ h. absurd (cc)))

    pub lifecycle-is_member :
        (m5 : List (MarketCandle R)) (memory : Memory R)
        → is_confirmed (lifecycle F config zone timestamp m5 memory).0.state ≡ true
        → is_member zone.zone_id (lifecycle F config zone timestamp m5 memory).1.confirmed_ids
          ≡ true
    unfolding lifecycle live_on is_confirmed
    lifecycle-is_member m5 memory =
        if_case
          (λ (out : Life R × Memory R).
            is_confirmed out.0.state ≡ true → is_member zone.zone_id out.1.confirmed_ids ≡ true)
          (ltb timestamp zone.created_at) _ _ (λ e h. absurd (cc))
          (λ e.
            if_case
              (λ (out : Life R × Memory R).
                is_confirmed out.0.state ≡ true → is_member zone.zone_id out.1.confirmed_ids ≡ true)
              (is_some
                (dict_get zone.zone_id (prune_invalidated timestamp memory).invalidated_until))
              _ _ (λ _ h. absurd (cc)) (λ _. end_life-is_member _ _))

    -- The zone stands, and the candle is the first that confirmed it.
    pub record IsConfirmedBy (m5 : List (MarketCandle R)) (c : MarketCandle R) : Type 0 where
      pub touches : ℕ
      pub stands : Stands F config zone timestamp (relevant_candles zone timestamp m5) touches
      pub first : FirstConfirmation F config zone (relevant_candles zone timestamp m5) c

    pub confirmed-IsConfirmedBy :
        (m5 : List (MarketCandle R)) (remembered : Bool) (state : LifeState) (touches : ℕ)
        (conf : Option (MarketCandle R)) (c : MarketCandle R)
        → Means F config zone timestamp
            (relevant_candles zone timestamp m5)
            remembered
            state
            touches
            conf
        → is_confirmed state ≡ true
        → conf ≡ some c
        → IsConfirmedBy m5 c
    unfolding Means is_confirmed
    confirmed-IsConfirmedBy m5 r confirmed touches conf c (stands, (d, is_d, first)) h e = record {
      touches = touches;
      stands = stands;
      first =
          subst (FirstConfirmation F config zone (relevant_candles zone timestamp m5))
            (some-injective (sym is_d ∙ e)) first;
    }
    confirmed-IsConfirmedBy m5 r created touches conf c m h e = absurd (cc)
    confirmed-IsConfirmedBy m5 r active touches conf c m h e = absurd (cc)
    confirmed-IsConfirmedBy m5 r touched touches conf c m h e = absurd (cc)
    confirmed-IsConfirmedBy m5 r invalidated touches conf c m h e = absurd (cc)
    confirmed-IsConfirmedBy m5 r expired touches conf c m h e = absurd (cc)
