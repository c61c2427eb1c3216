-- ===== src/Shadow/Order.antt =====
-- services/shadow_outcome.py: the candles in the order in which they are read.
use xauusd_bot.Base.{
  ℕ, zero, suc, ◌≡◌, refl, ap, ◌∙◌, true, List, [], ◌∷◌, ◌++◌, All, ltb, if_case, Bool-cases, inl,
  inr, arith, take, All-mono, length, ◌≤◌,
}
use xauusd_bot.Shadow.Evaluation.{Candle, comes_first, insert_candle, sorted_candles, after}

module _ {R : Type 0} where
  -- Every one of the later candles comes after the candle.
  abbrev pub IsBefore : List (Candle R) → Candle R → Type 0
  IsBefore later c = All (λ d. comes_first c d ≡ true) later

  module _ (P : Candle R → Type 0) where
    All-insert_candle :
        (c : Candle R) (cs : List (Candle R)) → P c → All P cs → All P (insert_candle c cs)
    unfolding insert_candle
    All-insert_candle c [] p all = (p, tt)
    All-insert_candle c (d ∷ ds) p all =
        if_case (All P) (comes_first c d) _ _ (λ e. (p, all))
          (λ e. (all.0, All-insert_candle c ds p all.1))

    All-sorted_candles : (cs : List (Candle R)) → All P cs → All P (sorted_candles cs)
    unfolding sorted_candles
    All-sorted_candles [] all = tt
    All-sorted_candles (c ∷ cs) all =
        All-insert_candle c (sorted_candles cs) all.0 (All-sorted_candles cs all.1)

    All-after : (t : ℕ) (cs : List (Candle R)) → All P cs → All P (after t cs)
    unfolding after
    All-after t [] all = tt
    All-after t (c ∷ cs) all =
        if_case (All P) (ltb t c.timestamp) _ _ (λ e. (all.0, All-after t cs all.1))
          (λ e. All-after t cs all.1)

  insert_candle-append :
      (c : Candle R) (cs later : List (Candle R))
      → IsBefore later c
      → insert_candle c (cs ++ later) ≡ insert_candle c cs ++ later
  unfolding insert_candle
  insert_candle-append c [] [] before_ = refl
  insert_candle-append c [] (d ∷ ds) before_ = rw (before_.0)
  insert_candle-append c (d ∷ ds) later before_ = elim (Bool-cases (comes_first c d)) [
    | inl e ↦ rw e
    | inr e ↦ rw (e, insert_candle-append c ds later before_)
  ]

  sorted_candles-append :
      (cs later : List (Candle R))
      → All (IsBefore later) cs
      → sorted_candles (cs ++ later) ≡ sorted_candles cs ++ sorted_candles later
  unfolding sorted_candles
  sorted_candles-append [] later all = refl
  sorted_candles-append (c ∷ cs) later all = rw (sorted_candles-append cs later all.1) (
      insert_candle-append c (sorted_candles cs) (sorted_candles later)
        (All-sorted_candles (λ d. comes_first c d ≡ true) later all.0))

  pub after-append :
      (t : ℕ) (cs later : List (Candle R)) → after t (cs ++ later) ≡ after t cs ++ after t later
  unfolding after
  after-append t [] later = refl
  after-append t (c ∷ cs) later = elim (Bool-cases (ltb t c.timestamp)) [
    | inl e ↦ rw (e, after-append t cs later)
    | inr e ↦ rw (e, after-append t cs later)
  ]

  IsBefore-after :
      (t : ℕ) (cs later : List (Candle R))
      → All (IsBefore later) cs
      → All (IsBefore (after t later)) cs
  IsBefore-after t cs later =
      All-mono (IsBefore later) (IsBefore (after t later)) cs
        (λ c before_. All-after (λ d. comes_first c d ≡ true) t later before_)

  -- Later candles are read after the ones that are there.
  pub future-append :
      (t : ℕ) (cs later : List (Candle R))
      → All (IsBefore later) cs
      → sorted_candles (after t (cs ++ later))
        ≡ sorted_candles (after t cs) ++ sorted_candles (after t later)
  future-append t cs later all =
      ap sorted_candles (after-append t cs later)
      ∙ sorted_candles-append (after t cs) (after t later)
          (All-after (IsBefore (after t later)) t cs (IsBefore-after t cs later all))

  -- What a prefix of a longer list is.
  pub take-append :
      (n : ℕ) (cs later : List (Candle R))
      → (rest : List (Candle R)) × (take n (cs ++ later) ≡ take n cs ++ rest)
  take-append zero cs later = ([], refl)
  take-append (suc n) [] later = (take (suc n) later, refl)
  take-append (suc n) (c ∷ cs) later =
      let (rest, e) = take-append n cs later in (rest, ap (λ xs. c ∷ xs) e)

  pub take_full :
      (n : ℕ) (cs later : List (Candle R))
      → n ≤ length (take n cs)
      → take n (cs ++ later) ≡ take n cs
  take_full zero cs later h = refl
  take_full (suc n) [] later h = absurd (omega arith)
  take_full (suc n) (c ∷ cs) later h = ap (λ xs. c ∷ xs) (take_full n cs later (omega arith))
