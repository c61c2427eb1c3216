-- ===== src/Shadow/Touches.antt =====
-- services/shadow_outcome.py: each status says what the candles did, and which of them did it.
use xauusd_bot.Base.{
  ℕ, ◌≡◌, refl, sym, ◌∙◌, ap, Bool, true, false, ◌||◌, Option, none, some, List, [], ◌∷◌, ◌++◌, All,
  length, take, ltb, if_case, Bool-cases, inl, inr, false≢true,
}
use xauusd_bot.Risk.Floats.{Floats}
use xauusd_bot.Shadow.Evaluation.{
  Candle, TerminalStatus, still_pending, tp_hit, sl_hit, ambiguous, expired, invalid, Evaluated,
  Plan, Walked, touched, through, base, waiting_for_future_candles, hits_target, hits_stop, marked,
  finish, expire, walk, after_walk, has_geometry, evaluate_plan,
}

module _ {R : Type 0} (F : Floats R) (is_finite : R → Bool) (plan : Plan R) where
  abbrev pub IsUntouched : Candle R → Type 0
  IsUntouched c = hits_target F is_finite plan c || hits_stop F is_finite plan c ≡ false

  -- The first candle that touches a price, and which prices it touches.
  pub record FirstTouch (cs : List (Candle R)) (tp sl : Bool) : Type 0 where
    pub before_it : List (Candle R)
    pub candle : Candle R
    pub after_it : List (Candle R)
    pub split : cs ≡ before_it ++ candle ∷ after_it
    pub quiet : All IsUntouched before_it
    pub at_target : hits_target F is_finite plan candle ≡ tp
    pub at_stop : hits_stop F is_finite plan candle ≡ sl

  -- What a status says of the candles within the horizon.
  unfoldable pub Justified : ℕ → List (Candle R) → TerminalStatus → Type 0
  Justified horizon_bars cs still_pending =
      All IsUntouched cs × (ltb (length cs) horizon_bars ≡ true)
  Justified horizon_bars cs expired = All IsUntouched cs × (ltb (length cs) horizon_bars ≡ false)
  Justified horizon_bars cs tp_hit = FirstTouch cs true false
  Justified horizon_bars cs sl_hit = FirstTouch cs false true
  Justified horizon_bars cs ambiguous = FirstTouch cs true true
  Justified horizon_bars cs invalid = has_geometry F is_finite plan ≡ false

  -- The same of a status that the loop returns.
  TouchStatus : List (Candle R) → TerminalStatus → Type 0
  TouchStatus cs tp_hit = FirstTouch cs true false
  TouchStatus cs sl_hit = FirstTouch cs false true
  TouchStatus cs ambiguous = FirstTouch cs true true
  TouchStatus cs _ = ⊥

  WalkTouch : List (Candle R) → Walked R → Type 0
  WalkTouch cs (touched x) = TouchStatus cs x.terminal_status
  WalkTouch cs (through e last) = All IsUntouched cs × (e.terminal_status ≡ still_pending)

  FirstTouch-later :
      (c : Candle R) (cs : List (Candle R)) (tp sl : Bool)
      → IsUntouched c
      → FirstTouch cs tp sl
      → FirstTouch (c ∷ cs) tp sl
  FirstTouch-later c cs tp sl quiet t = record {
    before_it = c ∷ t.before_it;
    candle = t.candle;
    after_it = t.after_it;
    split = ap (λ ds. c ∷ ds) t.split;
    quiet = (quiet, t.quiet);
    at_target = t.at_target;
    at_stop = t.at_stop;
  }

  TouchStatus-later :
      (c : Candle R) (cs : List (Candle R)) (status : TerminalStatus)
      → IsUntouched c
      → TouchStatus cs status
      → TouchStatus (c ∷ cs) status
  unfolding TouchStatus
  TouchStatus-later c cs tp_hit quiet t = FirstTouch-later c cs true false quiet t
  TouchStatus-later c cs sl_hit quiet t = FirstTouch-later c cs false true quiet t
  TouchStatus-later c cs ambiguous quiet t = FirstTouch-later c cs true true quiet t
  TouchStatus-later c cs still_pending quiet t = absurd t
  TouchStatus-later c cs expired quiet t = absurd t
  TouchStatus-later c cs invalid quiet t = absurd t

  WalkTouch-later :
      (c : Candle R) (cs : List (Candle R)) (w : Walked R)
      → IsUntouched c
      → WalkTouch cs w
      → WalkTouch (c ∷ cs) w
  unfolding WalkTouch
  WalkTouch-later c cs (touched x) quiet t = TouchStatus-later c cs x.terminal_status quiet t
  WalkTouch-later c cs (through e last) quiet t = ((quiet, t.0), t.1)

  finish-TouchStatus :
      (c : Candle R) (cs : List (Candle R)) (e : Evaluated R) (tp sl : Bool)
      → hits_target F is_finite plan c ≡ tp
      → hits_stop F is_finite plan c ≡ sl
      → tp || sl ≡ true
      → TouchStatus (c ∷ cs) (finish F is_finite plan tp sl c e).terminal_status
  unfolding finish TouchStatus
  finish-TouchStatus c cs e true true t s h = record {
    before_it = [];
    candle = c;
    after_it = cs;
    split = refl;
    quiet = tt;
    at_target = t;
    at_stop = s;
  }
  finish-TouchStatus c cs e true false t s h = record {
    before_it = [];
    candle = c;
    after_it = cs;
    split = refl;
    quiet = tt;
    at_target = t;
    at_stop = s;
  }
  finish-TouchStatus c cs e false true t s h = record {
    before_it = [];
    candle = c;
    after_it = cs;
    split = refl;
    quiet = tt;
    at_target = t;
    at_stop = s;
  }
  finish-TouchStatus c cs e false false t s h = absurd (false≢true h)

  walk-WalkTouch :
      (cs : List (Candle R)) (index : ℕ) (mfe mae : R) (e : Evaluated R) (last : Option (Candle R))
      → e.terminal_status ≡ still_pending
      → WalkTouch cs (walk F is_finite plan index mfe mae e last cs)
  unfolding walk marked base WalkTouch
  walk-WalkTouch [] index mfe mae e last h = (tt, h)
  walk-WalkTouch (c ∷ cs) index mfe mae e last h =
      if_case (WalkTouch (c ∷ cs)) (hits_target F is_finite plan c || hits_stop F is_finite plan c)
        _ _ (λ b. finish-TouchStatus c cs _ _ _ refl refl b)
        (λ b. WalkTouch-later c cs _ b (walk-WalkTouch cs _ _ _ _ _ refl))

  TouchStatus-Justified :
      (h : ℕ) (cs : List (Candle R)) (status : TerminalStatus)
      → TouchStatus cs status
      → Justified h cs status
  unfolding TouchStatus Justified
  TouchStatus-Justified h cs tp_hit t = t
  TouchStatus-Justified h cs sl_hit t = t
  TouchStatus-Justified h cs ambiguous t = t
  TouchStatus-Justified h cs still_pending t = absurd t
  TouchStatus-Justified h cs expired t = absurd t
  TouchStatus-Justified h cs invalid t = absurd t

  HasLast : Walked R → Type 0
  HasLast (touched x) = Unit
  HasLast (through e none) = ⊥
  HasLast (through e (some c)) = Unit

  walk-HasLast :
      (cs : List (Candle R)) (index : ℕ) (mfe mae : R) (e : Evaluated R) (c : Candle R)
      → HasLast (walk F is_finite plan index mfe mae e (some c) cs)
  unfolding walk HasLast
  walk-HasLast [] index mfe mae e c = tt
  walk-HasLast (d ∷ cs) index mfe mae e c =
      if_case HasLast (hits_target F is_finite plan d || hits_stop F is_finite plan d) _ _ (λ b. tt)
        (λ b. walk-HasLast cs _ _ _ _ d)

  -- Where there are as many candles as the horizon has bars, there is a last one.
  full-HasLast :
      (h : ℕ) (cs : List (Candle R)) (index : ℕ) (mfe mae : R) (e : Evaluated R)
      → ltb 0 h ≡ true
      → ltb (length cs) h ≡ false
      → HasLast (walk F is_finite plan index mfe mae e none cs)
  unfolding walk HasLast
  full-HasLast h [] index mfe mae e some_bars full = absurd (false≢true (sym full ∙ some_bars))
  full-HasLast h (d ∷ cs) index mfe mae e some_bars full =
      if_case HasLast (hits_target F is_finite plan d || hits_stop F is_finite plan d) _ _ (λ b. tt)
        (λ b. walk-HasLast cs _ _ _ _ d)

  after_walk-Justified :
      (h : ℕ) (cs : List (Candle R)) (w : Walked R)
      → (ltb (length cs) h ≡ false → HasLast w)
      → WalkTouch cs w
      → Justified h cs (after_walk F is_finite plan h (length cs) w).terminal_status
  unfolding after_walk WalkTouch expire Justified HasLast
  after_walk-Justified h cs (touched x) has_last t = TouchStatus-Justified h cs x.terminal_status t
  after_walk-Justified h cs (through e none) has_last t = elim (Bool-cases (ltb (length cs) h)) [
    | inl short ↦ rw (short, t.1) (t.0, short)
    | inr full ↦ absurd (has_last full)
  ]
  after_walk-Justified h cs (through e (some c)) has_last t =
      elim (Bool-cases (ltb (length cs) h)) [
        | inl short ↦ rw (short, t.1) (t.0, short)
        | inr full ↦ rw full (t.0, full)
      ]

  -- The status of evaluate_plan says what happened within the horizon, which is of at least one bar:
  -- TP_HIT, SL_HIT and AMBIGUOUS that the first candle which touched the target or the stop touched the one, the other or both,
  -- EXPIRED and PENDING that none did and that the horizon is full or not, INVALID that the prices are
  -- in no order that can be traded.
  pub evaluate_plan-Justified :
      (horizon_bars : ℕ) (future : List (Candle R))
      → ltb 0 horizon_bars ≡ true
      → Justified horizon_bars
          (take horizon_bars future)
          (evaluate_plan F is_finite horizon_bars plan future).terminal_status
  unfolding evaluate_plan Justified base
  evaluate_plan-Justified horizon_bars future some_bars =
      let cs = take horizon_bars future in
      let start : Evaluated R = base still_pending waiting_for_future_candles in
      elim (Bool-cases (has_geometry F is_finite plan)) [
        | inl e ↦ rw e (
            after_walk-Justified horizon_bars cs
              (walk F is_finite plan 0 plan.entry plan.entry start none cs)
              (full-HasLast horizon_bars cs 0 plan.entry plan.entry start some_bars)
              (walk-WalkTouch cs 0 plan.entry plan.entry start none refl))
        | inr e ↦ rw e e
      ]
