-- ===== src/Demo/Gates.antt =====
-- What stands behind an order: the account, the market and the risk that let it through.
use xauusd_bot.Base.{
  unnegated, ℕ, ◌≡◌, ap, sym, ◌∙◌, Bool, true, false, not, ◌&&◌, Option, some, List, Text, arith,
}
use xauusd_bot.Risk.Floats.{Floats}
use xauusd_bot.Risk.Snapshot.{
  Symbol, Account, Tick, Position, MarketSnapshot, RiskSnapshot, calculate_risk_snapshot,
}
use xauusd_bot.Risk.Gate.{approved, risk_gate, evaluate}
use xauusd_bot.Demo.Types.{
  Signal, Evidence, Request, DemoSettings, DemoLibrary, Reading, unreadable, no_symbol, reads, Api,
}
use xauusd_bot.Demo.Preflight.{
  passed, is_buy, is_sell, is_demo, is_stale, are_candles_invalid, read_current_state,
}
use xauusd_bot.Demo.Request.{
  entry_of, is_far, check_levels, order_request, place_order, price_order, build_request,
  demo_magic_number,
}
use xauusd_bot.Demo.Passing.{
  bind_passed, then_passed, passed-injective, refuse_if-then, or_refuse-bind, sized_passed,
}

module _ {R : Type 0} (F : Floats R) (lib : DemoLibrary) (cfg : DemoSettings R) where
  -- The market as `read_current_state` has found it.
  pub record Reads (signal : Signal R) (s : MarketSnapshot R) (reading : Reading R)
      (current : MarketSnapshot R) (risk : RiskSnapshot R) (modes : Option ℕ) : Type 0 where
    pub now : ℕ
    pub symbol : Symbol R
    pub tick : Tick R
    pub account : Account R
    pub positions : List (Position R)
    pub answered : reading ≡ reads symbol tick account positions modes now
    pub demo : is_demo account ≡ true
    pub fresh : is_stale cfg.max_tick_age now tick.timestamp ≡ false
    pub candles : are_candles_invalid now s.candles_m5 ≡ false
    pub is_current : current ≡ record s {
      symbol = symbol;
      tick = tick;
      account = account;
      positions = positions;
      generated_at = now;
    }
    pub is_risk :
        risk
        ≡ calculate_risk_snapshot F current cfg.max_trade_risk_percent
            cfg.max_aggregate_risk_percent

  pub read_current_state-Reads :
      (signal : Signal R) (s : MarketSnapshot R) (reading : Reading R) (current : MarketSnapshot R)
      (risk : RiskSnapshot R) (modes : Option ℕ)
      → read_current_state F lib cfg signal s reading ≡ passed (current, risk, modes)
      → Reads signal s reading current risk modes
  unfolding read_current_state
  read_current_state-Reads signal s unreadable current risk modes h = absurd (cc)
  read_current_state-Reads signal s no_symbol current risk modes h = absurd (cc)
  read_current_state-Reads signal s (reads symbol tick account positions m now) current risk modes
        h =
      let (demo, h1) = refuse_if-then _ _ _ _ _ h in
      let (fresh, h2) = refuse_if-then _ _ _ _ _ h1 in
      let (candles, h3) = refuse_if-then _ _ _ _ _ h2 in
      let same = passed-injective _ _ h3 in
      let same_market = ap (λ x. x.0) same in
      record {
        now = now;
        symbol = symbol;
        tick = tick;
        account = account;
        positions = positions;
        answered = ap (λ x. reads symbol tick account positions x now) (ap (λ x. x.2) same);
        demo = unnegated _ demo;
        fresh = fresh;
        candles = candles;
        is_current = sym same_market;
        is_risk =
            sym (ap (λ x. x.1) same)
            ∙ ap
                (λ x.
                  calculate_risk_snapshot F x cfg.max_trade_risk_percent
                    cfg.max_aggregate_risk_percent)
                same_market;
      }

  -- The plan of the signal, the price and the volume behind an order.
  pub record Priced (signal : Signal R) (current : MarketSnapshot R) (risk : RiskSnapshot R)
      (request : Request R) (proposed : R) : Type 0 where
    pub planned : R
    pub stop : R
    pub target : R
    pub has_entry : signal.entry_price ≡ some planned
    pub has_stop : signal.stop_loss ≡ some stop
    pub has_target : signal.take_profit ≡ some target
    pub near : is_far F lib cfg current (entry_of F lib cfg signal current) planned ≡ false
    pub buy_sides :
        is_buy lib signal ≡ true
        → (F.lt stop (entry_of F lib cfg signal current) ≡ true)
          × (F.lt (entry_of F lib cfg signal current) target ≡ true)
    pub sell_sides :
        is_sell lib signal ≡ true
        → (F.lt target (entry_of F lib cfg signal current) ≡ true)
          × (F.lt (entry_of F lib cfg signal current) stop ≡ true)
    pub open_risk : R
    pub remaining : R
    pub approval :
        evaluate F
          (risk_gate F cfg.max_trade_risk_percent cfg.max_aggregate_risk_percent)
          current
          risk
          (entry_of F lib cfg signal current)
          stop
        ≡ some (approved open_risk remaining proposed, some request.volume)
    pub price : request.price ≡ F.round current.symbol.digits (entry_of F lib cfg signal current)
    pub sl : request.sl ≡ F.round current.symbol.digits stop
    pub tp : request.tp ≡ F.round current.symbol.digits target
    pub magic : request.magic ≡ demo_magic_number

  sides_lem : (b x y : Bool) → b && not (x && y) ≡ false → b ≡ true → (x ≡ true) × (y ≡ true)
  sides_lem b x y h on = ground arith

  module _ (signal : Signal R) (s : MarketSnapshot R) (e : Option (Evidence R))
      (planned stop target : R)
      (passes : check_levels F lib cfg signal s e planned stop target ≡ passed tt) where
    levels :
        (is_far F lib cfg s (entry_of F lib cfg signal s) planned ≡ false)
        × (is_buy lib signal
              && not (
                  F.lt stop (entry_of F lib cfg signal s)
                  && F.lt (entry_of F lib cfg signal s) target)
            ≡ false)
        × (is_sell lib signal
              && not (
                  F.lt target (entry_of F lib cfg signal s)
                  && F.lt (entry_of F lib cfg signal s) stop)
            ≡ false)
    unfolding check_levels
    levels =
        let (_, h1) = then_passed _ _ _ passes in
        let (near, h2) = refuse_if-then _ _ _ _ _ h1 in
        let (buy, h3) = refuse_if-then _ _ _ _ _ h2 in
        let (sell, h4) = refuse_if-then _ _ _ _ _ h3 in (near, buy, sell)

  place_order-request :
      (api : Option Api) (signal : Signal R) (s : MarketSnapshot R) (modes : Option ℕ)
      (symbol : Text) (stop target volume proposed : R) (shown : Evidence R) (request : Request R)
      (percent : R) (evidence : Evidence R)
      → place_order F lib cfg api signal s modes symbol stop target volume proposed shown
        ≡ passed (request, percent, evidence)
      → (action order_type order_time filling : ℕ) × (order_request F lib cfg signal s symbol stop
            target volume action order_type order_time filling
          ≡ request)
        × (proposed ≡ percent)
  unfolding place_order
  place_order-request api signal s modes symbol stop target volume proposed shown request percent
        evidence h =
      let (constants, _, h8) = or_refuse-bind _ _ _ _ _ h in
      let (filling, _, h9) = or_refuse-bind _ _ _ _ _ h8 in
      let (action, _, h10) = or_refuse-bind _ _ _ _ _ h9 in
      let (order_type, _, h11) = or_refuse-bind _ _ _ _ _ h10 in
      let (order_time, _, h12) = or_refuse-bind _ _ _ _ _ h11 in
      let same = passed-injective _ _ h12 in
      (action, order_type, order_time, filling, ap (λ x. x.0) same, ap (λ x. x.1) same)

  module _ (signal : Signal R) (s : MarketSnapshot R) (risk : RiskSnapshot R) where
    price_order-Priced :
        (api : Option Api) (modes : Option ℕ) (symbol : Text) (planned stop target : R)
        (shown : Evidence R) (request : Request R) (proposed : R) (evidence : Evidence R)
        → signal.entry_price ≡ some planned
        → signal.stop_loss ≡ some stop
        → signal.take_profit ≡ some target
        → price_order F lib cfg api signal s risk modes symbol planned stop target shown
          ≡ passed (request, proposed, evidence)
        → Priced signal s risk request proposed
    unfolding price_order order_request
    price_order-Priced api modes symbol planned stop target shown request proposed evidence a b c
          h =
        let (_, h5) = then_passed _ _ _ h in
        let (levelled, h6) = then_passed _ _ _ h5 in
        let (size, is_size, h7) = bind_passed _ _ _ h6 in
        let (near, buy, sell) = levels signal s (some shown) planned stop target levelled.1 in
        let (o, r, approval) = sized_passed _ _ size.0 size.1 is_size in
        let (action, order_type, order_time, filling, is_request, is_percent) =
          place_order-request api signal s modes symbol stop target size.0 size.1 shown request
            proposed evidence h7 in
        record {
          planned = planned;
          stop = stop;
          target = target;
          has_entry = a;
          has_stop = b;
          has_target = c;
          near = near;
          buy_sides = sides_lem _ _ _ buy;
          sell_sides = sides_lem _ _ _ sell;
          open_risk = o;
          remaining = r;
          approval =
              approval
              ∙ ap (λ p. some (approved o r p, some size.0)) is_percent
              ∙ ap (λ (q : Request R). some (approved o r proposed, some q.volume)) is_request;
          price = ap (λ (q : Request R). q.price) (sym is_request);
          sl = ap (λ (q : Request R). q.sl) (sym is_request);
          tp = ap (λ (q : Request R). q.tp) (sym is_request);
          magic = ap (λ (q : Request R). q.magic) (sym is_request);
        }

  pub build_request-Priced :
      (api : Option Api) (signal : Signal R) (decision : Option Text) (s : MarketSnapshot R)
      (risk : RiskSnapshot R) (modes : Option ℕ) (symbol : Text) (request : Request R)
      (proposed : R) (evidence : Evidence R)
      → build_request F lib cfg api signal decision s risk modes symbol
        ≡ passed (request, proposed, evidence)
      → Priced signal s risk request proposed
  unfolding build_request
  build_request-Priced api signal decision s risk modes symbol request proposed evidence h =
      let (_, h1) = then_passed _ _ _ h in
      let (planned, has_entry, h2) = or_refuse-bind _ _ _ _ _ h1 in
      let (stop, has_stop, h3) = or_refuse-bind _ _ _ _ _ h2 in
      let (target, has_target, h4) = or_refuse-bind _ _ _ _ _ h3 in
      price_order-Priced signal s risk api modes symbol planned stop target _ request proposed
        evidence has_entry has_stop has_target h4
