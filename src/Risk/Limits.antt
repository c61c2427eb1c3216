-- ===== src/Risk/Limits.antt =====
-- What an approval of the risk gate guarantees.
use xauusd_bot.Base.{
  ◌+◌, ◌≡◌, refl, sym, ap, Bool, true, false, ◌||◌, Option, none, some, List, [], ◌∷◌, ltb,
  if◌then◌else◌, is_some, All, arith, inl, inr, Bool-cases,
}
use xauusd_bot.Risk.Floats.{Floats, IsOrdered, least, is_no_more_than_zero}
use xauusd_bot.Risk.Snapshot.{
  Symbol, MarketSnapshot, Position, RiskSnapshot, Tally, position_risk_amount, tally_position,
  tally_positions, empty_tally, calculate_risk_snapshot,
}
use xauusd_bot.Risk.Gate.{
  GateReason, risk_budget_exceeded, position_size_invalid, RiskGate, approved, Evaluation, block,
  risk_gate, check_volume, check_size, sized_volume, risk_per_lot, available_percent,
  evaluate_known, evaluate,
}

-- The stop of the position bounds its loss.
abbrev pub HasBoundedLoss : {R : Type 0} → Floats R → Symbol R → Position R → Type 0
HasBoundedLoss F symbol p = is_some (position_risk_amount F symbol p) ≡ true

-- The volume and the percentage of an approval, against the gate's limits.
pub record FitsIn {R : Type 0} (F : Floats R) (gate : RiskGate R) (s : MarketSnapshot R)
    (open_risk proposed volume : R) : Type 0 where
  pub at_least : F.lt volume s.symbol.volume_min ≡ false
  pub at_most : F.lt s.symbol.volume_max volume ≡ false
  pub trade : F.lt (F.add gate.max_trade_risk_percent F.nano) proposed ≡ false
  pub aggregate :
      F.lt (F.add gate.max_aggregate_risk_percent F.nano) (F.add open_risk proposed) ≡ false

module _ {R : Type 0} (F : Floats R) where
  tally_position-unbounded :
      (equity : R) (p : Position R) (o : Option R) (t : Tally R)
      → (tally_position F equity p o t).unbounded_positions
        ≡ t.unbounded_positions + (if is_some o then 0 else 1)
  unfolding tally_position
  tally_position-unbounded equity p none t = refl
  tally_position-unbounded equity p (some a) t = omega arith

  tally_positions-HasBoundedLoss :
      (symbol : Symbol R) (equity : R) (ps : List (Position R)) (t : Tally R)
      → (tally_positions F symbol equity ps t).unbounded_positions ≡ 0
      → (t.unbounded_positions ≡ 0) × All (HasBoundedLoss F symbol) ps
  unfolding tally_positions
  tally_positions-HasBoundedLoss symbol equity [] t h = (h, tt)
  tally_positions-HasBoundedLoss symbol equity (p ∷ ps) t h =
      let (zero_next, rest) = tally_positions-HasBoundedLoss symbol equity ps _ h in
      let step = tally_position-unbounded equity p (position_risk_amount F symbol p) t in
      ground (arith, step, zero_next, rest)

  -- An approval is not one of the blocks.
  if-approved :
      (b : Bool) (reason : GateReason) (y : Evaluation R) (o r proposed : R) (v : Option R)
      → (if b then block reason else y) ≡ some (approved o r proposed, v)
      → (b ≡ false) × (y ≡ some (approved o r proposed, v))
  unfolding block
  if-approved true reason y o r proposed v h = absurd (cc)
  if-approved false reason y o r proposed v h = (refl, h)

  approved_injective :
      (o r p o' r' p' : R) (v v' : Option R)
      → ◌≡◌ {A = Evaluation R} (some (approved o r p, v)) (some (approved o' r' p', v'))
      → (o ≡ o') × (p ≡ p') × (v ≡ v')
  approved_injective o r p o' r' p' v v' h = (cc, cc, cc)

  or_false : (a b : Bool) → a || b ≡ false → (a ≡ false) × (b ≡ false)
  or_false true b h = cc
  or_false false b h = (refl, h)

  module _ (gate : RiskGate R) (s : MarketSnapshot R) where
    check_volume-FitsIn :
        (o r per_lot volume o' r' proposed : R) (v : Option R)
        → check_volume F gate s o r per_lot volume ≡ some (approved o' r' proposed, v)
        → (o' ≡ o) × (v ≡ some volume) × FitsIn F gate s o' proposed volume
    unfolding check_volume
    check_volume-FitsIn o r per_lot volume o' r' proposed v h =
        let (sizes, h1) = if-approved _ _ _ o' r' proposed v h in
        let (trade, h2) = if-approved _ _ _ o' r' proposed v h1 in
        let (aggregate, h3) = if-approved _ _ _ o' r' proposed v h2 in
        let (least_, most) = or_false _ _ sizes in
        let (same_open, same, same_volume) = approved_injective _ _ _ o' r' proposed _ v h3 in
        (
          sym same_open,
          sym same_volume,
          record {
            at_least = least_;
            at_most = most;
            trade = rw (sym same) trade;
            aggregate = rw (sym same, sym same_open) aggregate;
          },
        )

    check_size-FitsIn :
        (o r per_lot : R) (size : Option R) (o' r' proposed : R) (v : Option R)
        → check_size F gate s o r per_lot size ≡ some (approved o' r' proposed, v)
        → (volume : R) × (o' ≡ o) × (v ≡ some volume) × FitsIn F gate s o' proposed volume
    unfolding check_size
    check_size-FitsIn o r per_lot none o' r' proposed v h = absurd (cc)
    check_size-FitsIn o r per_lot (some volume) o' r' proposed v h =
        let (a, b, c) = check_volume-FitsIn o r per_lot volume o' r' proposed v h in
        (volume, a, b, c)

    evaluate_known-FitsIn :
        (entry stop : R) (open_risk remaining : Option R) (o' r' proposed : R) (v : Option R)
        → evaluate_known F gate s entry stop open_risk remaining ≡ some (approved o' r' proposed, v)
        → (volume : R) × (open_risk ≡ some o')
          × (v ≡ some volume)
          × FitsIn F gate s o' proposed volume
    unfolding evaluate_known block
    evaluate_known-FitsIn entry stop none remaining o' r' proposed v h = absurd (cc)
    evaluate_known-FitsIn entry stop (some o) none o' r' proposed v h = absurd (cc)
    evaluate_known-FitsIn entry stop (some o) (some r) o' r' proposed v h =
        let per_lot = risk_per_lot F s entry stop in
        let available = available_percent F gate o r in
        let (_, h1) =
          if-approved (is_no_more_than_zero F available) risk_budget_exceeded _ o' r' proposed v
            h in
        let (_, h2) =
          if-approved
            (is_no_more_than_zero F s.symbol.trade_tick_size
              || is_no_more_than_zero F s.symbol.trade_tick_value_loss
              || is_no_more_than_zero F s.account.equity)
            position_size_invalid _ o' r' proposed v h1 in
        let (_, h3) =
          if-approved (is_no_more_than_zero F per_lot) position_size_invalid _ o' r' proposed v
            h2 in
        let (volume, same, is_volume, fits) =
          check_size-FitsIn o r per_lot (sized_volume F s available per_lot) o' r' proposed v h3 in
        (volume, ap some (sym same), is_volume, fits)

    evaluate-FitsIn :
        (risk : RiskSnapshot R) (entry stop o' r' proposed : R) (v : Option R)
        → evaluate F gate s risk entry stop ≡ some (approved o' r' proposed, v)
        → (ltb 0 risk.unbounded_positions_count ≡ false)
          × ((volume : R) × (risk.open_risk_percent ≡ some o')
              × (v ≡ some volume)
              × FitsIn F gate s o' proposed volume)
    unfolding evaluate
    evaluate-FitsIn risk entry stop o' r' proposed v h =
        let (bounded, h1) = if-approved _ _ _ o' r' proposed v h in
        (bounded, evaluate_known-FitsIn entry stop _ _ o' r' proposed v h1)

module _ {R : Type 0} (F : Floats R) (order : IsOrdered F) where
  least_lem : (a b : R) → F.lt b (least F a b) ≡ false
  unfolding least
  least_lem a b = elim (Bool-cases (F.lt b a)) [
    | inl e ↦ rw (e) (order.irreflexive b)
    | inr e ↦ rw (e) e
  ]

  -- What stays below a limit that `min` has lowered stays below the limit.
  capped_lem :
      (a b p : R) → F.lt (F.add (least F a b) F.nano) p ≡ false → F.lt (F.add b F.nano) p ≡ false
  capped_lem a b p h =
      order.transitive p (F.add (least F a b) F.nano) (F.add b F.nano) h
        (order.add_mono (least F a b) b F.nano (least_lem a b))

  -- Whatever limits the settings ask for, a trade that the gate approves over the risk computed
  -- from the same market is one where every open position has a stop that bounds its loss, and its
  -- volume lies within the symbol's bounds, its risk is at most two percent of the equity, and the
  -- open risk with it at most six percent, each up to 1e-9. Numbers are supposed to be no NaN.
  pub approved_within_limits :
      (max_trade max_aggregate shown_trade shown_aggregate : R) (s : MarketSnapshot R)
      (entry stop open_risk remaining proposed : R) (v : Option R)
      → evaluate F
          (risk_gate F max_trade max_aggregate)
          s
          (calculate_risk_snapshot F s shown_trade shown_aggregate)
          entry
          stop
        ≡ some (approved open_risk remaining proposed, v)
      → All (HasBoundedLoss F s.symbol) s.positions
        × ((volume : R) × (v ≡ some volume)
            × (F.lt volume s.symbol.volume_min ≡ false)
            × (F.lt s.symbol.volume_max volume ≡ false)
            × (F.lt (F.add (F.of_nat 2) F.nano) proposed ≡ false)
            × (F.lt (F.add (F.of_nat 6) F.nano) (F.add open_risk proposed) ≡ false))
  unfolding risk_gate calculate_risk_snapshot
  approved_within_limits max_trade max_aggregate c d s entry stop open_risk remaining proposed v h =
      let gate = risk_gate F max_trade max_aggregate in
      let risk = calculate_risk_snapshot F s c d in
      let (bounded, found) =
        evaluate-FitsIn F gate s risk entry stop open_risk remaining proposed v h in
      let (volume, _, is_volume, fits) = found in
      let none_unbounded : risk.unbounded_positions_count ≡ 0 = ground (arith, bounded) in
      (
        (tally_positions-HasBoundedLoss F s.symbol s.account.equity s.positions (empty_tally F)
            none_unbounded).1,
        (
          volume,
          is_volume,
          fits.at_least,
          fits.at_most,
          capped_lem max_trade (F.of_nat 2) proposed fits.trade,
          capped_lem max_aggregate (F.of_nat 6) (F.add open_risk proposed) fits.aggregate,
        ),
      )
