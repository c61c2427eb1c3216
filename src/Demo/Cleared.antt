-- ===== src/Demo/Cleared.antt =====
-- services/demo_execution.py: everything that stands behind an order, and the limits that it keeps.
use xauusd_bot.Base.{ℕ, suc, length, ◌∷◌, ◌≡◌, ap, false, Option, List, All, arith}
use xauusd_bot.Risk.Floats.{Floats}
use xauusd_bot.Risk.Snapshot.{MarketSnapshot, RiskSnapshot}
use xauusd_bot.Risk.Limits.{HasBoundedLoss}
use xauusd_bot.Demo.Types.{Evidence, Request, DemoSettings, DemoLibrary}
use xauusd_bot.Demo.Preflight.{passed}
use xauusd_bot.Demo.Service.{Turn, preflight}
use xauusd_bot.Demo.Passing.{bind_passed, then_passed}
use xauusd_bot.Demo.Gates.{Reads, Priced, read_current_state-Reads, build_request-Priced}

module _ {R : Type 0} (F : Floats R) (lib : DemoLibrary) (cfg : DemoSettings R) where
  -- What stands behind an order that was handed to the broker.
  pub record Cleared (turn : Turn R) (request : Request R) : Type 0 where
    pub current : MarketSnapshot R
    pub risk : RiskSnapshot R
    pub modes : Option ℕ
    pub proposed : R
    pub market : Reads F lib cfg turn.signal turn.snapshot turn.reading current risk modes
    pub trade : Priced F lib cfg turn.signal current risk request proposed

  pub preflight-Cleared :
      (turn : Turn R) (request : Request R) (percent : R) (evidence : Evidence R)
      → preflight F lib cfg turn ≡ passed (request, percent, evidence)
      → Cleared turn request
  unfolding preflight
  preflight-Cleared turn request percent evidence h =
      let (_, h1) = then_passed _ _ _ h in
      let (found, is_found, h2) = bind_passed _ _ _ h1 in
      record {
        current = found.0;
        risk = found.1;
        modes = found.2;
        proposed = percent;
        market =
            read_current_state-Reads F lib cfg turn.signal turn.snapshot turn.reading found.0
              found.1 found.2 is_found;
        trade =
            build_request-Priced F lib cfg turn.api turn.signal turn.decision found.0 found.1
              found.2 _ request percent evidence h2;
      }

  longer_length : (n : ℕ) → suc n ≡ n → ⊥
  longer_length n h = absurd (omega arith)

  pub longer_lem : {A : Type 0} (x : A) (xs : List A) → x ∷ xs ≡ xs → ⊥
  longer_lem x xs h = absurd (longer_length (length xs) (ap length h))

  -- The limits that an order keeps.
  pub record WithinLimits (current : MarketSnapshot R) (request : Request R) : Type 0 where
    pub bounded : All (HasBoundedLoss F current.symbol) current.positions
    pub at_least : F.lt request.volume current.symbol.volume_min ≡ false
    pub at_most : F.lt current.symbol.volume_max request.volume ≡ false
    pub open_risk : R
    pub proposed : R
    pub trade : F.lt (F.add (F.of_nat 2) F.nano) proposed ≡ false
    pub aggregate : F.lt (F.add (F.of_nat 6) F.nano) (F.add open_risk proposed) ≡ false
