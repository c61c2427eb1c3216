-- ===== src/PairZone/Verdicts.antt =====
-- What the state that `_lifecycle` returns says of the candles.
use xauusd_bot.Base.{
  ℕ, suc, ◌+◌, ◌≡◌, refl, sym, ap, subst, Bool, true, false, not, ◌&&◌, Option, none, some, List,
  [], ◌∷◌, ◌++◌, if◌then◌else◌, All, arith, inl, inr, Bool-cases, if_case,
}
use xauusd_bot.Risk.Floats.{Floats}
use xauusd_bot.PairZone.Types.{MarketCandle, PairZone, Config}
use xauusd_bot.PairZone.Life.{
  Passage, broken, passed, intersects, confirms, breaks, touches_with, first_of, pass_candles,
}

module _ {R : Type 0} (F : Floats R) (config : Config R) (zone : PairZone R) where
  abbrev pub Unbroken : List (MarketCandle R) → Type 0
  Unbroken = All (λ c. breaks F config zone c ≡ false)

  abbrev pub Unconfirmed : List (MarketCandle R) → Type 0
  Unconfirmed = All (λ c. confirms F config zone c ≡ false)

  -- How often the candles come into the zone from outside.
  unfoldable pub entries : (inside : Bool) → List (MarketCandle R) → ℕ
  entries inside [] = 0
  entries inside (c ∷ cs) =
      (if intersects F config zone c && not inside then 1 else 0)
      + entries (intersects F config zone c) cs

  -- The first candle that closes beyond the zone, and the entries up to it.
  pub record FirstBreak (inside : Bool) (touches : ℕ) (cs : List (MarketCandle R)) : Type 0 where
    pub earlier : List (MarketCandle R)
    pub culprit : MarketCandle R
    pub later : List (MarketCandle R)
    pub split : cs ≡ earlier ++ culprit ∷ later
    pub unbroken : Unbroken earlier
    pub breaking : breaks F config zone culprit ≡ true
    pub counted : touches ≡ entries inside (earlier ++ culprit ∷ [])

  -- The first of the candles that confirms.
  pub record FirstConfirmation (cs : List (MarketCandle R)) (c : MarketCandle R) : Type 0 where
    pub earlier : List (MarketCandle R)
    pub later : List (MarketCandle R)
    pub split : cs ≡ earlier ++ c ∷ later
    pub unconfirmed : Unconfirmed earlier
    pub confirming : confirms F config zone c ≡ true

  unfoldable pub ConfirmationAfter :
      Option (MarketCandle R) → List (MarketCandle R) → Option (MarketCandle R) → Type 0
  ConfirmationAfter (some x) cs g = g ≡ some x
  ConfirmationAfter none cs none = Unconfirmed cs
  ConfirmationAfter none cs (some c) = FirstConfirmation cs c

  -- What the loop returns, from a state in its middle.
  unfoldable pub Told :
      (touches : ℕ) (inside : Bool)
      → Option (MarketCandle R)
      → List (MarketCandle R)
      → Passage R
      → Type 0
  Told touches inside first cs (broken n c) = (k : ℕ) × (n ≡ touches + k) × FirstBreak inside k cs
  Told touches inside first cs (passed n g) =
      Unbroken cs × (n ≡ touches + entries inside cs) × ConfirmationAfter first cs g

  touches_with-add :
      (inside : Bool) (n : ℕ) (c : MarketCandle R)
      → touches_with F config zone inside n c
        ≡ n + (if intersects F config zone c && not inside then 1 else 0)
  unfolding touches_with
  touches_with-add inside n c =
      if_case (λ (k : ℕ). (if intersects F config zone c && not inside then suc n else n) ≡ n + k)
        (intersects F config zone c && not inside) 1 0 (λ e. rw e (omega arith))
        (λ e. rw e (omega arith))

  FirstBreak-later :
      (inside : Bool) (k : ℕ) (c : MarketCandle R) (cs : List (MarketCandle R))
      → breaks F config zone c ≡ false
      → FirstBreak (intersects F config zone c) k cs
      → FirstBreak inside ((if intersects F config zone c && not inside then 1 else 0) + k) (c ∷ cs)
  unfolding entries
  FirstBreak-later inside k c cs whole b = record {
    earlier = c ∷ b.earlier;
    culprit = b.culprit;
    later = b.later;
    split = ap (λ ds. c ∷ ds) b.split;
    unbroken = (whole, b.unbroken);
    breaking = b.breaking;
    counted = ap (λ n. (if intersects F config zone c && not inside then 1 else 0) + n) b.counted;
  }

  ConfirmationAfter-first_of :
      (first : Option (MarketCandle R)) (c : MarketCandle R) (cs : List (MarketCandle R))
      (g : Option (MarketCandle R))
      → ConfirmationAfter (first_of F config zone first c) cs g
      → ConfirmationAfter first (c ∷ cs) g
  unfolding ConfirmationAfter first_of
  ConfirmationAfter-first_of (some x) c cs g h = h
  ConfirmationAfter-first_of none c cs g h = elim (Bool-cases (confirms F config zone c)) [
    | inl yet ↦ found yet g (rw yet at h)
    | inr quiet ↦ passed_by quiet g (rw quiet at h)
  ]
    where
      found :
          confirms F config zone c ≡ true
          → (g : Option (MarketCandle R)) → g ≡ some c
          → ConfirmationAfter none (c ∷ cs) g
      found yet none e = absurd (cc)
      found yet (some d) e =
          subst (λ (o : Option (MarketCandle R)). ConfirmationAfter none (c ∷ cs) o) (sym e)
            (record { earlier = []; later = cs; split = refl; unconfirmed = tt; confirming = yet })

      passed_by :
          confirms F config zone c ≡ false
          → (g : Option (MarketCandle R)) → ConfirmationAfter none cs g
          → ConfirmationAfter none (c ∷ cs) g
      passed_by quiet none h = (quiet, h)
      passed_by quiet (some d) h = record {
        earlier = c ∷ h.earlier;
        later = h.later;
        split = ap (λ ds. c ∷ ds) h.split;
        unconfirmed = (quiet, h.unconfirmed);
        confirming = h.confirming;
      }

  Told-later :
      (touches : ℕ) (inside : Bool) (first : Option (MarketCandle R)) (c : MarketCandle R)
      (cs : List (MarketCandle R)) (p : Passage R)
      → breaks F config zone c ≡ false
      → Told
          (touches_with F config zone inside touches c)
          (intersects F config zone c)
          (first_of F config zone first c)
          cs
          p
      → Told touches inside first (c ∷ cs) p
  unfolding Told entries
  Told-later touches inside first c cs (broken n d) whole (k, e, b) = (
    (if intersects F config zone c && not inside then 1 else 0) + k,
    omega (arith, e, touches_with-add inside touches c),
    FirstBreak-later inside k c cs whole b,
  )
  Told-later touches inside first c cs (passed n g) whole (all, e, later) = (
    (whole, all),
    omega (arith, e, touches_with-add inside touches c),
    ConfirmationAfter-first_of first c cs g later,
  )

  pub pass_candles-Told :
      (cs : List (MarketCandle R)) (touches : ℕ) (inside : Bool) (first : Option (MarketCandle R))
      → Told touches inside first cs (pass_candles F config zone touches inside first cs)
  unfolding pass_candles Told ConfirmationAfter entries
  pass_candles-Told [] touches inside (some x) = (tt, omega arith, refl)
  pass_candles-Told [] touches inside none = (tt, omega arith, tt)
  pass_candles-Told (c ∷ cs) touches inside first =
      if_case (Told touches inside first (c ∷ cs)) (breaks F config zone c) _ _
        (λ e. (
          (if intersects F config zone c && not inside then 1 else 0) + 0,
          omega (arith, touches_with-add inside touches c),
          record {
            earlier = [];
            culprit = c;
            later = cs;
            split = refl;
            unbroken = tt;
            breaking = e;
            counted = refl;
          },
        ))
        (λ e. Told-later touches inside first c cs _ e (
          pass_candles-Told cs (touches_with F config zone inside touches c)
            (intersects F config zone c) (first_of F config zone first c)))
