-- ===== src/Shadow/Passes.antt =====
-- services/shadow_outcome.py: what passes of the worker leave as it was.
use xauusd_bot.Base.{
  ℕ, ◌+◌, ◌≡◌, ◌≢◌, ◌⊎◌, ◌≤◌, refl, sym, ap, subst, ◌∙◌, Bool, true, false, not, ◌&&◌, Option, some,
  List, [], ◌∷◌, ◌++◌, ◌==◌, if◌then◌else◌, All, arith, inl, inr, Bool-cases, if_case,
}
use xauusd_bot.Shadow.Evaluation.{Evaluated}
use xauusd_bot.Shadow.Worker.{Key, OutcomeRow, key_before, is_unsettled, has_id, update_outcome}
use xauusd_bot.Shadow.Ranks.{settled_before}

module _ {R : Type 0} where
  -- The primary key of the table.
  abbrev pub HasUniqueIds : List (OutcomeRow R) → Type 0
  HasUniqueIds [] = Unit
  HasUniqueIds (t ∷ ts) = All (λ u. u.key.id ≢ t.key.id) ts × HasUniqueIds ts

  abbrev pub IsSettled : OutcomeRow R → Type 0
  IsSettled t = is_unsettled t.outcome.terminal_status ≡ false

module _ {R : Type 0} (kept : Option ℕ) where
  -- The rows of which this is about: those that are settled, and the one with an id, if one is meant.
  abbrev pub IsKept : OutcomeRow R → Type 0
  IsKept t = (is_unsettled t.outcome.terminal_status ≡ false) ⊎ (some t.key.id ≡ kept)

  abbrev pub Evolved : OutcomeRow R → OutcomeRow R → Type 0
  Evolved t u = (u.key ≡ t.key) × (IsKept t → u ≡ t)

  -- The first rows of the later table are those of the earlier one, a kept one without a change.
  abbrev pub Keeps : List (OutcomeRow R) → List (OutcomeRow R) → Type 0
  Keeps [] us = Unit
  Keeps (t ∷ ts) [] = ⊥
  Keeps (t ∷ ts) (u ∷ us) = Evolved t u × Keeps ts us

  -- The same with no further rows.
  abbrev pub Evolves : List (OutcomeRow R) → List (OutcomeRow R) → Type 0
  Evolves [] [] = Unit
  Evolves [] (u ∷ us) = ⊥
  Evolves (t ∷ ts) [] = ⊥
  Evolves (t ∷ ts) (u ∷ us) = Evolved t u × Evolves ts us

  -- 2,000 settled rows come before the row with the id, which is there.
  pub record IsStarved (rows : List (OutcomeRow R)) : Type 0 where
    pub present : (id : ℕ) → some id ≡ kept → has_id id rows ≡ true
    pub behind : All (λ q. some q.key.id ≡ kept → 2000 ≤ settled_before q.key rows) rows

  pub Evolves-Keeps : (ts us : List (OutcomeRow R)) → Evolves ts us → Keeps ts us
  Evolves-Keeps [] us e = tt
  Evolves-Keeps (t ∷ ts) [] e = e
  Evolves-Keeps (t ∷ ts) (u ∷ us) e = (e.0, Evolves-Keeps ts us e.1)

  pub Evolves-refl : (ts : List (OutcomeRow R)) → Evolves ts ts
  Evolves-refl [] = tt
  Evolves-refl (t ∷ ts) = ((refl, λ k. refl), Evolves-refl ts)

  pub Keeps-refl : (ts : List (OutcomeRow R)) → Keeps ts ts
  Keeps-refl ts = Evolves-Keeps ts ts (Evolves-refl ts)

  pub Keeps-append : (ts us new : List (OutcomeRow R)) → Keeps ts us → Keeps ts (us ++ new)
  Keeps-append [] us new e = tt
  Keeps-append (t ∷ ts) [] new e = absurd e
  Keeps-append (t ∷ ts) (u ∷ us) new e = (e.0, Keeps-append ts us new e.1)

  Evolved-trans : (t u v : OutcomeRow R) → Evolved t u → Evolved u v → Evolved t v
  Evolved-trans t u v e f = (f.0 ∙ e.0, λ k. f.1 (subst IsKept (sym (e.1 k)) k) ∙ e.1 k)

  pub Keeps-trans : (ts us vs : List (OutcomeRow R)) → Keeps ts us → Keeps us vs → Keeps ts vs
  Keeps-trans [] us vs e f = tt
  Keeps-trans (t ∷ ts) [] vs e f = absurd e
  Keeps-trans (t ∷ ts) (u ∷ us) [] e f = f
  Keeps-trans (t ∷ ts) (u ∷ us) (v ∷ vs) e f =
      (Evolved-trans t u v e.0 f.0, Keeps-trans ts us vs e.1 f.1)

  -- An update of a row that is not kept.
  pub Evolves-update_outcome :
      (id : ℕ) (f : Evaluated R → Evaluated R) (ts us : List (OutcomeRow R))
      → All (λ t. IsKept t → t.key.id ≢ id) ts
      → Evolves ts us
      → Evolves ts (update_outcome id f us)
  unfolding update_outcome
  Evolves-update_outcome id f [] [] all e = tt
  Evolves-update_outcome id f [] (u ∷ us) all e = e
  Evolves-update_outcome id f (t ∷ ts) [] all e = e
  Evolves-update_outcome id f (t ∷ ts) (u ∷ us) all e = (
    if_case (Evolved t) (u.key.id == id) _ _
        (λ same. (
          (e.0).0,
          λ k.
              absurd
                (all.0 k (ap (λ (key : Key). key.id) (sym (e.0).0) ∙ eq_of_test u.key.id id same)),
        ))
        (λ differs. e.0),
    Evolves-update_outcome id f ts us all.1 e.1,
  )
    where
      eq_of_test : (a b : ℕ) → a == b ≡ true → a ≡ b
      eq_of_test a b h = ground arith

  pub Evolves-settled_before :
      (k : Key) (ts us : List (OutcomeRow R))
      → Evolves ts us
      → settled_before k ts ≤ settled_before k us
  unfolding settled_before
  Evolves-settled_before k [] [] e = omega arith
  Evolves-settled_before k [] (u ∷ us) e = absurd e
  Evolves-settled_before k (t ∷ ts) [] e = absurd e
  Evolves-settled_before k (t ∷ ts) (u ∷ us) e =
      let ih = Evolves-settled_before k ts us e.1 in
      elim (Bool-cases (is_unsettled t.outcome.terminal_status)) [
        | inl p ↦
            rw (p, (e.0).0)
              (pending_counts (key_before t.key k) (is_unsettled u.outcome.terminal_status) ih)
        | inr settled ↦ rw ((e.0).1 (inl settled)) (omega (arith, ih))
      ]
    where
      pending_counts :
          (b p : Bool)
          → settled_before k ts ≤ settled_before k us
          → (if b && not true then 1 else 0) + settled_before k ts
            ≤ (if b && not p then 1 else 0) + settled_before k us
      pending_counts true true h = omega (arith, h)
      pending_counts true false h = omega (arith, h)
      pending_counts false p h = omega (arith, h)
