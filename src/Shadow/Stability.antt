-- ===== src/Shadow/Stability.antt =====
-- services/shadow_outcome.py: an evaluation looks at no past candle, and a final one stays.
use xauusd_bot.Base.{
  ℕ, ◌≡◌, refl, sym, ◌∙◌, ap, subst, Bool, true, false, ◌&&◌, ◌||◌, Option, none, some, List, [],
  ◌∷◌, ◌++◌, All, length, take, ltb, if_case, Bool-cases, inl, inr, ◌⊎◌, arith, false≢true, ◌≤◌,
}
use xauusd_bot.Risk.Floats.{Floats}
use xauusd_bot.Shadow.Evaluation.{
  Candle, Side, buy, sell, no_trade, Decision, TerminalStatus, still_pending, Evaluated, Plan,
  Walked, touched, through, base, waiting_for_future_candles, sorted_candles, after, hits_target,
  hits_stop, marked, walk, after_walk, planned, has_geometry, evaluate_plan, evaluate_prices,
  evaluate_side, evaluate_decision,
}
use xauusd_bot.Shadow.Order.{IsBefore, after-append, future-append, take-append, take_full}

abbrev pub is_terminal : TerminalStatus → Bool
is_terminal still_pending = false
is_terminal _ = true

module _ {R : Type 0} where
  walked_cases :
      (w : Walked R)
      → ((x : Evaluated R) × (w ≡ touched x))
        ⊎ ((e : Evaluated R) × (last : Option (Candle R)) × (w ≡ through e last))
  walked_cases (touched x) = inl (x, refl)
  walked_cases (through e last) = inr (e, last, refl)

  -- The status of what the loop passes on.
  abbrev IsPendingWalk : Walked R → Type 0
  IsPendingWalk (touched x) = Unit
  IsPendingWalk (through e last) = e.terminal_status ≡ still_pending

after_past :
    {R : Type 0} (t : ℕ) (c : Candle R) (cs : List (Candle R))
    → ltb t c.timestamp ≡ false
    → after t (c ∷ cs) ≡ after t cs
unfolding after
after_past t c cs past = rw past

module _ {R : Type 0} (F : Floats R) (is_finite : R → Bool) where
  module _ (plan : Plan R) where
    walk-pending :
        (cs : List (Candle R)) (index : ℕ) (mfe mae : R) (e : Evaluated R)
        (last : Option (Candle R))
        → e.terminal_status ≡ still_pending
        → IsPendingWalk (walk F is_finite plan index mfe mae e last cs)
    unfolding walk marked base
    walk-pending [] index mfe mae e last h = h
    walk-pending (c ∷ cs) index mfe mae e last h =
        if_case IsPendingWalk (hits_target F is_finite plan c || hits_stop F is_finite plan c) _ _
          (λ b. tt) (λ b. walk-pending cs _ _ _ _ _ refl)

    walk-append :
        (cs : List (Candle R)) (index : ℕ) (mfe mae : R) (e : Evaluated R)
        (last : Option (Candle R)) (later : List (Candle R)) (x : Evaluated R)
        → walk F is_finite plan index mfe mae e last cs ≡ touched x
        → walk F is_finite plan index mfe mae e last (cs ++ later) ≡ touched x
    unfolding walk
    walk-append [] index mfe mae e last later x h = absurd (cc)
    walk-append (c ∷ cs) index mfe mae e last later x h =
        elim (Bool-cases (hits_target F is_finite plan c || hits_stop F is_finite plan c)) [
          | inl b ↦ rw b (rw b at h)
          | inr b ↦ rw b (walk-append cs _ _ _ _ _ later x (rw b at h))
        ]

    -- The walk that evaluate_plan begins.
    abbrev whole_walk : List (Candle R) → Walked R
    whole_walk cs =
        walk F is_finite plan 0 plan.entry plan.entry
          (base still_pending waiting_for_future_candles) none cs

    abbrev ends_with : ℕ → List (Candle R) → Evaluated R
    ends_with horizon_bars cs = after_walk F is_finite plan horizon_bars (length cs) (whole_walk cs)

    touched-append :
        (horizon_bars : ℕ) (cs rest : List (Candle R)) (x : Evaluated R)
        → whole_walk cs ≡ touched x
        → ends_with horizon_bars (cs ++ rest) ≡ ends_with horizon_bars cs
    unfolding after_walk
    touched-append horizon_bars cs rest x e =
        ap (after_walk F is_finite plan horizon_bars (length (cs ++ rest)))
          (walk-append cs 0 plan.entry plan.entry _ none rest x e)
        ∙ sym (ap (after_walk F is_finite plan horizon_bars (length cs)) e)

    -- A walk that is through is final only at the horizon.
    through-full :
        (horizon_bars : ℕ) (cs : List (Candle R)) (e : Evaluated R) (last : Option (Candle R))
        → whole_walk cs ≡ through e last
        → is_terminal (ends_with horizon_bars cs).terminal_status ≡ true
        → horizon_bars ≤ length cs
    unfolding after_walk base
    through-full horizon_bars cs e last same h =
        let pending = subst IsPendingWalk same (
          walk-pending cs 0 plan.entry plan.entry (base still_pending waiting_for_future_candles)
            none refl) in
        let final =
          subst
            (λ w.
              is_terminal (after_walk F is_finite plan horizon_bars (length cs) w).terminal_status
              ≡ true)
            same h in
        elim (Bool-cases (ltb (length cs) horizon_bars)) [
          | inl short ↦ absurd (false≢true (sym (ap is_terminal pending) ∙ (rw short at final)))
          | inr full ↦ ground (arith, full)
        ]

    evaluate_walk-append :
        (horizon_bars : ℕ) (future later : List (Candle R))
        → is_terminal (ends_with horizon_bars (take horizon_bars future)).terminal_status ≡ true
        → ends_with horizon_bars (take horizon_bars (future ++ later))
          ≡ ends_with horizon_bars (take horizon_bars future)
    evaluate_walk-append horizon_bars future later h =
        let (rest, longer) = take-append horizon_bars future later in
        elim (walked_cases (whole_walk (take horizon_bars future))) [
          | inl (x, e) ↦
              ap (ends_with horizon_bars) longer
              ∙ touched-append horizon_bars (take horizon_bars future) rest x e
          | inr (e, last, same) ↦
              ap (ends_with horizon_bars)
                (take_full horizon_bars future later (through-full horizon_bars _ e last same h))
        ]

    evaluate_plan-append :
        (horizon_bars : ℕ) (future later : List (Candle R))
        → is_terminal (evaluate_plan F is_finite horizon_bars plan future).terminal_status ≡ true
        → evaluate_plan F is_finite horizon_bars plan (future ++ later)
          ≡ evaluate_plan F is_finite horizon_bars plan future
    unfolding evaluate_plan
    evaluate_plan-append horizon_bars future later h =
        elim (Bool-cases (has_geometry F is_finite plan)) [
          | inl e ↦ rw e (evaluate_walk-append horizon_bars future later (rw e at h))
          | inr e ↦ rw e
        ]

  evaluate_prices-append :
      (horizon_bars : ℕ) (is_buy : Bool) (entry stop target : Option R)
      (future later : List (Candle R))
      → is_terminal
          (evaluate_prices F is_finite horizon_bars is_buy entry stop target future).terminal_status
        ≡ true
      → evaluate_prices F is_finite horizon_bars is_buy entry stop target (future ++ later)
        ≡ evaluate_prices F is_finite horizon_bars is_buy entry stop target future
  unfolding evaluate_prices
  evaluate_prices-append horizon_bars is_buy none stop target future later h = refl
  evaluate_prices-append horizon_bars is_buy (some a) none target future later h = refl
  evaluate_prices-append horizon_bars is_buy (some a) (some b) none future later h = refl
  evaluate_prices-append horizon_bars is_buy (some a) (some b) (some c) future later h =
      elim (Bool-cases (is_finite a && is_finite b && is_finite c)) [
        | inl e ↦ rw e (
            evaluate_plan-append (planned F is_finite is_buy a b c) horizon_bars future later
              (rw e at h))
        | inr e ↦ rw e
      ]

  evaluate_side-append :
      (horizon_bars : ℕ) (side : Side) (d : Decision R) (future later : List (Candle R))
      → is_terminal (evaluate_side F is_finite horizon_bars side d future).terminal_status ≡ true
      → evaluate_side F is_finite horizon_bars side d (future ++ later)
        ≡ evaluate_side F is_finite horizon_bars side d future
  unfolding evaluate_side
  evaluate_side-append horizon_bars buy d future later h =
      evaluate_prices-append horizon_bars true d.entry_price d.stop_loss d.take_profit future later
        h
  evaluate_side-append horizon_bars sell d future later h =
      evaluate_prices-append horizon_bars false d.entry_price d.stop_loss d.take_profit future later
        h
  evaluate_side-append horizon_bars no_trade d future later h = refl

  -- An evaluation that is not PENDING stays as it is, in all its fields, when candles are added that
  -- come after all those that it was made from.
  pub evaluate_decision-append :
      (horizon_bars : ℕ) (d : Decision R) (candles later : List (Candle R))
      → All (IsBefore later) candles
      → is_terminal (evaluate_decision F is_finite horizon_bars d candles).terminal_status ≡ true
      → evaluate_decision F is_finite horizon_bars d (candles ++ later)
        ≡ evaluate_decision F is_finite horizon_bars d candles
  unfolding evaluate_decision
  evaluate_decision-append horizon_bars d candles later order h =
      ap (evaluate_side F is_finite horizon_bars d.side d)
        (future-append d.m5_candle_timestamp candles later order)
      ∙ evaluate_side-append horizon_bars d.side d _ _ h

  -- A candle that is not after the decision's own candle makes no difference to its evaluation,
  -- wherever it stands among the others.
  pub past_is_ignored :
      (horizon_bars : ℕ) (d : Decision R) (before_ : List (Candle R)) (c : Candle R)
      (candles : List (Candle R))
      → ltb d.m5_candle_timestamp c.timestamp ≡ false
      → evaluate_decision F is_finite horizon_bars d (before_ ++ c ∷ candles)
        ≡ evaluate_decision F is_finite horizon_bars d (before_ ++ candles)
  unfolding evaluate_decision
  past_is_ignored horizon_bars d before_ c candles past =
      let t = d.m5_candle_timestamp in
      ap (λ cs. evaluate_side F is_finite horizon_bars d.side d (sorted_candles cs))
        (after-append t before_ (c ∷ candles)
          ∙ ap (λ cs. after t before_ ++ cs) (after_past t c candles past)
          ∙ sym (after-append t before_ candles))
