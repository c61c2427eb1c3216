-- ===== src/Demo/Safety.antt =====
-- What an order that reached the broker has behind it, and what its answer is recorded as.
use xauusd_bot.Base.{
  ℕ, ◌≡◌, ap, sym, subst, ◌∙◌, true, false, Option, none, some, ◌∷◌, if◌then◌else◌, arith, inl, inr,
  some-injective,
}
use xauusd_bot.Risk.Floats.{Floats, IsOrdered}
use xauusd_bot.Risk.Gate.{approved, risk_gate, evaluate}
use xauusd_bot.Risk.Limits.{approved_within_limits}
use xauusd_bot.Demo.Types.{
  rejected, indeterminate, acknowledged, Request, BrokerResult, Desk, DemoRecord, DemoSettings,
  DemoLibrary,
}
use xauusd_bot.Demo.Request.{entry_of}
use xauusd_bot.Demo.Records.{
  returns, is_enabled, demo_execution_armed, existing, updated, update_record, is_accepted,
  int_or_none,
}
use xauusd_bot.Demo.Service.{
  Turn, broker_rejects, broker_unclear, broker_acknowledges, has_ticket, record_broker_result,
  execute,
}
use xauusd_bot.Demo.Steps.{Submission, execute-Step}
use xauusd_bot.Demo.Cleared.{Cleared, WithinLimits, preflight-Cleared, longer_lem}

module _ {R : Type 0} (F : Floats R) (lib : DemoLibrary) (cfg : DemoSettings R) where
  Cleared-WithinLimits :
      (turn : Turn R) (request : Request R)
      → IsOrdered F
      → (c : Cleared F lib cfg turn request) → WithinLimits F lib cfg c.current request
  Cleared-WithinLimits turn request order c =
      let p = c.trade in
      let approval =
        subst
          (λ risk.
            evaluate F (risk_gate F cfg.max_trade_risk_percent cfg.max_aggregate_risk_percent)
              c.current risk (entry_of F lib cfg turn.signal c.current) p.stop
            ≡ some (approved p.open_risk p.remaining c.proposed, some request.volume))
          c.market.is_risk p.approval in
      let (bounded, rest) =
        approved_within_limits F order cfg.max_trade_risk_percent cfg.max_aggregate_risk_percent
          cfg.max_trade_risk_percent cfg.max_aggregate_risk_percent c.current _ p.stop p.open_risk
          p.remaining c.proposed (some request.volume) approval in
      let (volume, same, low, high, trade, aggregate) = rest in
      let is_volume : volume ≡ request.volume = sym (some-injective same) in
      record {
        bounded = bounded;
        at_least = subst (λ v. F.lt v c.current.symbol.volume_min ≡ false) is_volume low;
        at_most = subst (λ v. F.lt c.current.symbol.volume_max v ≡ false) is_volume high;
        open_risk = p.open_risk;
        proposed = c.proposed;
        trade = trade;
        aggregate = aggregate;
      }

  Submission-request :
      (turn : Turn R) (desk t : Desk R) (request : Request R)
      → (s : Submission F lib cfg turn desk t) → t.sent ≡ (turn.signal.id, request) ∷ desk.sent
      → s.request ≡ request
  Submission-request turn desk t request s e =
      let same : (turn.signal.id, s.request) ∷ desk.sent ≡ (turn.signal.id, request) ∷ desk.sent =
        sym s.order ∙ e in
      cc

  -- An order that a call of `execute` hands to the broker has passed the gates: execution was
  -- enabled in the settings and the kill switch armed before the checks and before the order, the
  -- signal had no earlier row, the terminal showed a demo account and a tick that is neither old nor
  -- from the future, the price lies near the plan and between stop and target on the sides of its
  -- direction, the order carries these rounded levels, every open position has a stop that bounds
  -- its loss, and volume and risk keep the limits of the symbol and of two and six percent. Numbers
  -- are supposed to be no NaN.
  pub sent_order_is_Cleared :
      (order : IsOrdered F) (turn : Turn R) (desk : Desk R) (request : Request R)
      → (execute F lib cfg turn desk).1.sent ≡ (turn.signal.id, request) ∷ desk.sent
      → (c : Cleared F lib cfg turn request) × WithinLimits F lib cfg c.current request
        × (cfg.demo_execution_enabled ≡ true)
        × (demo_execution_armed desk ≡ true)
        × (is_enabled turn.control_then ≡ true)
        × (existing turn.signal.id desk.records ≡ none)
  sent_order_is_Cleared order turn desk request grown = elim (execute-Step F lib cfg turn desk) [
    | inl quiet ↦ absurd (longer_lem F lib cfg _ _ (sym grown ∙ quiet.unsent))
    | inr s ↦
        let same = Submission-request turn desk _ request s grown in
        let c =
          subst (Cleared F lib cfg turn) same
            (preflight-Cleared F lib cfg turn s.request s.risk_percent s.evidence s.checked) in
        (c, Cleared-WithinLimits turn request order c, s.enabled, s.armed, s.armed_then, s.first)
  ]

updated_returns :
    {R : Type 0} (i : ℕ) (f : DemoRecord R → DemoRecord R) (found : Option (DemoRecord R))
    (desk : Desk R) (r : DemoRecord R)
    → (updated i f found desk).0 ≡ returns (some r)
    → (old : DemoRecord R) × (r ≡ f old)
unfolding updated
updated_returns i f none desk r h = absurd (cc)
updated_returns i f (some old) desk r h = (old, cc)

-- The status that the broker's answer is recorded under: ACKNOWLEDGED exactly if its code is one of
-- the accepted ones and it names an order, deal or position, INDETERMINATE exactly if the code is
-- accepted and no ticket is there, and otherwise REJECTED; the row is not left PENDING.
pub broker_result_status :
    {R : Type 0} (turn : Turn R) (result : BrokerResult) (desk : Desk R) (r : DemoRecord R)
    → (record_broker_result turn result desk).0 ≡ returns (some r)
    → r.status ≡ (
        if is_accepted turn.api (int_or_none result.retcode)
        then if has_ticket turn result then acknowledged else indeterminate
        else rejected)
unfolding record_broker_result update_record broker_rejects broker_unclear broker_acknowledges
broker_result_status turn result desk r h =
    let (old, same) = updated_returns _ _ _ desk r h in ap (λ x. x.status) same ∙ ground arith
