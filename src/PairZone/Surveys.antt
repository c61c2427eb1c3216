-- ===== src/PairZone/Surveys.antt =====
-- Every candidate that the loop of `evaluate` collects was confirmed by the candle of this call.
use xauusd_bot.Base.{
  ℕ, ◌≡◌, refl, Bool, true, false, Option, none, some, List, [], ◌∷◌, Text, All, All-mono, arith,
  inl, inr, Bool-cases, if_case,
}
use xauusd_bot.Risk.Floats.{Floats}
use xauusd_bot.PairZone.Types.{MarketCandle, Direction, PairZone, Config, LifeState, Memory}
use xauusd_bot.PairZone.Detection.{is_member}
use xauusd_bot.PairZone.Life.{Life, lifecycle}
use xauusd_bot.PairZone.Decision.{
  Survey, same_direction, is_confirmed, count_touches, at_timestamp, newly_confirmed,
  first_candidate, text_lt,
}
use xauusd_bot.PairZone.Evaluation.{note_zone, survey_zones}
use xauusd_bot.PairZone.Lifecycles.{lifecycle-Means}
use xauusd_bot.PairZone.Candidates.{
  Grows, Grows-same, Grows-trans, count_touches-confirmed_ids, lifecycle-Grows, lifecycle-is_member,
  IsConfirmedBy, confirmed-IsConfirmedBy,
}

-- What `newly_confirmed` tests.
pub record IsFresh {R : Type 0} (already : Bool) (timestamp : ℕ) (life : Life R)
    (c : MarketCandle R) : Type 0 where
  pub fresh : already ≡ false
  pub state : is_confirmed life.state ≡ true
  pub confirmation : life.confirmation ≡ some c
  pub current : c.timestamp ≡ timestamp

module _ {R : Type 0} where
  at_timestamp-some :
      (timestamp : ℕ) (o : Option (MarketCandle R)) (c : MarketCandle R)
      → at_timestamp timestamp o ≡ some c
      → (o ≡ some c) × (c.timestamp ≡ timestamp)
  unfolding at_timestamp
  at_timestamp-some timestamp none c e = absurd (cc)
  at_timestamp-some timestamp (some d) c e = ground (arith, e)

  newly_confirmed-IsFresh :
      (already : Bool) (timestamp : ℕ) (life : Life R) (c : MarketCandle R)
      → newly_confirmed already timestamp life ≡ some c
      → IsFresh already timestamp life c
  unfolding newly_confirmed
  newly_confirmed-IsFresh true timestamp life c e = absurd (cc)
  newly_confirmed-IsFresh false timestamp life c e = elim (Bool-cases (is_confirmed life.state)) [
    | inl yes_confirmed ↦
        let found = at_timestamp-some timestamp life.confirmation c (rw yes_confirmed at e) in
        record { fresh = refl; state = yes_confirmed; confirmation = found.0; current = found.1 }
    | inr other ↦ absurd (let impossible = rw other at e in cc)
  ]

  note_zone-All :
      (P : PairZone R × MarketCandle R → Type 0) (h1 : Option Direction) (zone : PairZone R)
      (state : LifeState) (o : Option (MarketCandle R)) (survey : Survey R)
      → All P survey.candidates
      → ((c : MarketCandle R) → o ≡ some c → same_direction h1 zone.direction ≡ true → P (zone, c))
      → All P (note_zone h1 zone state o survey).candidates
  unfolding note_zone
  note_zone-All P h1 zone state none survey all h = all
  note_zone-All P h1 zone state (some c) survey all h =
      if_case (λ (s : Survey R). All P s.candidates) (same_direction h1 zone.direction) _ _
        (λ e. (h c refl e, all)) (λ e. all)

  pub first_candidate-All :
      (P : PairZone R × MarketCandle R → Type 0) (cs : List (PairZone R × MarketCandle R))
      (best : PairZone R × MarketCandle R)
      → P best
      → All P cs
      → P (first_candidate best cs)
  unfolding first_candidate
  first_candidate-All P [] best h all = h
  first_candidate-All P (c ∷ cs) best h all =
      first_candidate-All P cs _
        (if_case P (text_lt (c.0).zone_id (best.0).zone_id) c best (λ e. all.0) (λ e. h)) all.1

  Grows-false :
      (start final : Memory R) (k : Text)
      → Grows start final
      → is_member k final.confirmed_ids ≡ false
      → is_member k start.confirmed_ids ≡ false
  Grows-false start final k g e = elim (Bool-cases (is_member k start.confirmed_ids)) [
    | inl there ↦ absurd (let later = g.keeps k there in cc)
    | inr absent ↦ absent
  ]

module _ {R : Type 0} (F : Floats R) (config : Config R) (h1 : Option Direction) (timestamp : ℕ)
    (m5 : List (MarketCandle R)) where
  -- A zone with its candle, between the memory before the loop and the memory after it.
  pub record IsCandidate (start final : Memory R) (candidate : PairZone R × MarketCandle R)
      : Type 0 where
    pub fresh : is_member (candidate.0).zone_id start.confirmed_ids ≡ false
    pub entered : is_member (candidate.0).zone_id final.confirmed_ids ≡ true
    pub aligned : same_direction h1 (candidate.0).direction ≡ true
    pub current : (candidate.1).timestamp ≡ timestamp
    pub backed : IsConfirmedBy F config candidate.0 timestamp m5 candidate.1

  pub IsCandidate-earlier :
      (start next final : Memory R) (candidate : PairZone R × MarketCandle R)
      → Grows start next
      → IsCandidate next final candidate
      → IsCandidate start final candidate
  IsCandidate-earlier start next final candidate g c = record {
    fresh = Grows-false start next (candidate.0).zone_id g c.fresh;
    entered = c.entered;
    aligned = c.aligned;
    current = c.current;
    backed = c.backed;
  }

  -- After one turn of the loop.
  abbrev next_memory : PairZone R → Memory R → Memory R
  next_memory zone memory =
      count_touches zone (lifecycle F config zone timestamp m5 memory).0.touches
        (lifecycle F config zone timestamp m5 memory).1

  next_memory-Grows :
      (zone : PairZone R) (memory : Memory R) → Grows memory (next_memory zone memory)
  next_memory-Grows zone memory =
      Grows-trans _ _ _ (lifecycle-Grows F config zone timestamp m5 memory)
        (Grows-same _ _ (count_touches-confirmed_ids zone _ _))

  pub survey_zones-Grows :
      (zones : List (PairZone R)) (memory : Memory R)
      → Grows memory (survey_zones F config h1 timestamp m5 zones memory).1
  unfolding survey_zones
  survey_zones-Grows [] memory = Grows-same _ _ refl
  survey_zones-Grows (zone ∷ zones) memory =
      Grows-trans _ _ _ (next_memory-Grows zone memory)
        (survey_zones-Grows zones (next_memory zone memory))

  new-IsCandidate :
      (zone : PairZone R) (memory final : Memory R) (c : MarketCandle R)
      → Grows (next_memory zone memory) final
      → same_direction h1 zone.direction ≡ true
      → IsFresh
          (is_member zone.zone_id memory.confirmed_ids)
          timestamp
          (lifecycle F config zone timestamp m5 memory).0
          c
      → IsCandidate memory final (zone, c)
  new-IsCandidate zone memory final c g aligned new = record {
    fresh = new.fresh;
    entered = g.keeps zone.zone_id (
        rw (count_touches-confirmed_ids zone)
          (lifecycle-is_member F config zone timestamp m5 memory new.state));
    aligned = aligned;
    current = new.current;
    backed =
        confirmed-IsConfirmedBy F config zone timestamp m5 _ _ _ _ c
          (lifecycle-Means F config zone timestamp m5 memory) new.state new.confirmation;
  }

  pub survey_zones-IsCandidate :
      (zones : List (PairZone R)) (memory : Memory R)
      → All
          (IsCandidate memory (survey_zones F config h1 timestamp m5 zones memory).1)
          (survey_zones F config h1 timestamp m5 zones memory).0.candidates
  unfolding survey_zones
  survey_zones-IsCandidate [] memory = tt
  survey_zones-IsCandidate (zone ∷ zones) memory =
      let next = next_memory zone memory in
      let final = (survey_zones F config h1 timestamp m5 zones next).1 in
      note_zone-All (IsCandidate memory final) h1 zone _ _ _
        (All-mono (IsCandidate next final) (IsCandidate memory final) _
          (λ c. IsCandidate-earlier memory next final c (next_memory-Grows zone memory))
          (survey_zones-IsCandidate zones next))
        (λ c e aligned.
          new-IsCandidate zone memory final c (survey_zones-Grows zones next) aligned
            (newly_confirmed-IsFresh _ timestamp _ c e))
