-- ===== src/PairZone/Once.antt =====
-- A trade of `evaluate` is backed by its candles, and no zone is proposed twice.
use xauusd_bot.Base.{
  unnegated, ◌≡◌, refl, sym, ◌∙◌, true, false, not, Option, none, some, List, [], ◌∷◌, Text, inl,
  inr, Bool-cases, if_case, text_eq, text_eq→eq,
}
use xauusd_bot.Risk.Floats.{Floats}
use xauusd_bot.Risk.Snapshot.{RiskSnapshot}
use xauusd_bot.PairZone.Types.{MarketCandle, Config, Memory, Naming}
use xauusd_bot.PairZone.Detection.{is_member, zones_at}
use xauusd_bot.PairZone.Life.{prune_invalidated}
use xauusd_bot.PairZone.Decision.{Trade, ZoneDecision, no_trade, trade, Feed}
use xauusd_bot.PairZone.Evaluation.{evaluate_feed, evaluation_time, evaluate_pair_zone}
use xauusd_bot.PairZone.Candidates.{Grows, Grows-same, zones_at-confirmed_ids}
use xauusd_bot.PairZone.Signals.{
  IsBacked, BacksTrades, refuse-BacksTrades, decide_zones-BacksTrades,
}

module _ {R : Type 0} (F : Floats R) (config : Config R) (naming : Naming) where
  evaluate_feed-BacksTrades :
      (feed : Feed R) (risk : Option (RiskSnapshot R)) (m5 : Option (List (MarketCandle R)))
      (start memory : Memory R)
      → Grows start memory
      → feed.candles_are_closed ≡ true
      → feed.is_live ≡ true
      → feed.is_connected ≡ true
      → feed.m5 ≡ m5
      → feed.risk ≡ risk
      → start.confirmed_ids ≡ memory.confirmed_ids
      → BacksTrades F config feed start
          (evaluate_feed F config naming feed (evaluation_time F config feed) risk m5 memory)
  unfolding evaluate_feed
  evaluate_feed-BacksTrades feed none m5 start memory g closed live connected read known same =
      refuse-BacksTrades F config feed _ _ start memory g
  evaluate_feed-BacksTrades feed (some risk) none start memory g closed live connected read known
        same =
      refuse-BacksTrades F config feed _ _ start memory g
  evaluate_feed-BacksTrades feed (some risk) (some m5) start memory g closed live connected read
        known same =
      let timestamp = evaluation_time F config feed in
      let found = zones_at F naming config timestamp feed.m15 memory in
      decide_zones-BacksTrades F config feed risk m5 _ found.0 start found.1
        (Grows-same start found.1
          (zones_at-confirmed_ids F config naming timestamp feed.m15 memory ∙ sym same))
        closed live connected read refl known

  pub evaluate_pair_zone-BacksTrades :
      (feed : Feed R) (memory : Memory R)
      → BacksTrades F config feed memory (evaluate_pair_zone F config naming feed memory)
  unfolding evaluate_pair_zone prune_invalidated
  evaluate_pair_zone-BacksTrades feed memory =
      let pruned = prune_invalidated (evaluation_time F config feed) memory in
      let g = Grows-same memory pruned refl in
      if_case (BacksTrades F config feed memory) (not feed.candles_are_closed) _ _
        (λ _. refuse-BacksTrades F config feed _ _ memory pruned g)
        (λ closed.
          if_case (BacksTrades F config feed memory) (not feed.is_live) _ _
            (λ _. refuse-BacksTrades F config feed _ _ memory pruned g)
            (λ live.
              if_case (BacksTrades F config feed memory) (not feed.is_connected) _ _
                (λ _. refuse-BacksTrades F config feed _ _ memory pruned g)
                (λ connected.
                  evaluate_feed-BacksTrades feed feed.risk feed.m5 memory pruned g
                    (unnegated _ closed) (unnegated _ live) (unnegated _ connected) refl refl
                    refl)))

  -- A trade that evaluate of PairZoneV1 proposes is backed: the candles are closed and live and the
  -- runtime connected; its zone was not confirmed before the call and is after it, has the
  -- direction of the H1 averages, no M5 candle of its life closed beyond it, it is neither too old
  -- nor entered too often, and the first candle that confirms it is the one of this call; the entry
  -- is that candle's close, stop and target lie as the settings say, the stop is further than a
  -- tick, the spread is within its limit, and the risk gate approved of this entry and this stop
  -- with the volume and the risk of the trade.
  pub evaluate_pair_zone-IsBacked :
      (feed : Feed R) (memory : Memory R) (t : Trade R)
      → (evaluate_pair_zone F config naming feed memory).0 ≡ some (trade t)
      → IsBacked F config feed memory (evaluate_pair_zone F config naming feed memory).1 t
  evaluate_pair_zone-IsBacked feed memory t e = (evaluate_pair_zone-BacksTrades feed memory).1 t e

  abbrev cons_signal : Option (ZoneDecision R) → List Text → List Text
  cons_signal (some (trade t)) ids = (t.zone).zone_id ∷ ids
  cons_signal _ ids = ids

  -- The ids of the zones that a sequence of calls proposes, in their order.
  unfoldable pub signalled : List (Feed R) → Memory R → List Text
  signalled [] memory = []
  signalled (feed ∷ feeds) memory =
      let out = evaluate_pair_zone F config naming feed memory in
      cons_signal out.0 (signalled feeds out.1)

  confirmed_is_not_signalled :
      (feeds : List (Feed R)) (memory : Memory R) (k : Text)
      → is_member k memory.confirmed_ids ≡ true
      → is_member k (signalled feeds memory) ≡ false
  unfolding signalled is_member
  confirmed_is_not_signalled [] memory k h = refl
  confirmed_is_not_signalled (feed ∷ feeds) memory k h =
      let out = evaluate_pair_zone F config naming feed memory in
      let (grows, backs) = evaluate_pair_zone-BacksTrades feed memory in
      add out.0 (signalled feeds out.1) backs
        (confirmed_is_not_signalled feeds out.1 k (grows.keeps k h))
    where
      other :
          (k l : Text)
          → is_member k memory.confirmed_ids ≡ true
          → is_member l memory.confirmed_ids ≡ false
          → text_eq k l ≡ false
      other k l there absent = elim (Bool-cases (text_eq k l)) [
        | inl same ↦ absurd (let e = text_eq→eq k l same in cc)
        | inr differs ↦ differs
      ]

      add :
          (d : Option (ZoneDecision R)) (ids : List Text)
          → ((t : Trade R)
              → d ≡ some (trade t)
              → IsBacked F config feed memory (evaluate_pair_zone F config naming feed memory).1 t)
          → is_member k ids ≡ false
          → is_member k (cons_signal d ids) ≡ false
      add none ids backs ih = ih
      add (some (no_trade r s o)) ids backs ih = ih
      add (some (trade t)) ids backs ih =
          rw (other k (t.zone).zone_id h (backs t refl).candidate.fresh, ih) refl

  abbrev pub AreDistinct : List Text → Type 0
  AreDistinct [] = Unit
  AreDistinct (k ∷ ks) = (is_member k ks ≡ false) × AreDistinct ks

  -- Over every sequence of calls of evaluate, from every memory of the strategy and with whatever
  -- candles, no zone_id is proposed for a trade twice.
  pub signalled-AreDistinct :
      (feeds : List (Feed R)) (memory : Memory R) → AreDistinct (signalled feeds memory)
  unfolding signalled
  signalled-AreDistinct [] memory = tt
  signalled-AreDistinct (feed ∷ feeds) memory =
      let out = evaluate_pair_zone F config naming feed memory in
      add out.0 (evaluate_pair_zone-BacksTrades feed memory).1 (signalled-AreDistinct feeds out.1)
    where
      add :
          (d : Option (ZoneDecision R))
          → ((t : Trade R)
              → d ≡ some (trade t)
              → IsBacked F config feed memory (evaluate_pair_zone F config naming feed memory).1 t)
          → AreDistinct (signalled feeds (evaluate_pair_zone F config naming feed memory).1)
          → AreDistinct
              (cons_signal d (signalled feeds (evaluate_pair_zone F config naming feed memory).1))
      add none backs ih = ih
      add (some (no_trade r s o)) backs ih = ih
      add (some (trade t)) backs ih =
          (confirmed_is_not_signalled feeds _ _ (backs t refl).candidate.entered, ih)
