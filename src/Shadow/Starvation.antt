-- ===== src/Shadow/Starvation.antt =====
-- services/shadow_outcome.py: a settled outcome is final, and one behind 2,000 of them is never
-- looked at.
use xauusd_bot.Base.{
  ℕ, ◌≡◌, ◌≢◌, ◌≤◌, ◌<◌, sym, ap, ◌∙◌, Bool, true, false, Option, none, some, List, [], ◌∷◌, ◌++◌,
  All, All-mono, arith, inl, inr, if_case,
}
use xauusd_bot.Risk.Floats.{Floats}
use xauusd_bot.Shadow.Evaluation.{Decision}
use xauusd_bot.Shadow.Worker.{
  Key, DecisionRow, OutcomeRow, Counts, is_unsettled, has_outcome, has_id, pending_row,
  ensure_pending, ensure_all, listed_outcomes, find_decision, not_found, Answers, evaluate_found,
  evaluate_row, evaluate_rows,
}
use xauusd_bot.Shadow.Ranks.{settled_before, listed_outcomes-rank, listed_outcomes-All}
use xauusd_bot.Shadow.Passes.{
  HasUniqueIds, IsSettled, IsKept, Evolves, IsStarved, Evolves-update_outcome,
}

module _ {A : Type 0} (P Q : A → Type 0) where
  All-both : (xs : List A) → All P xs → All Q xs → All (λ x. P x × Q x) xs
  All-both [] a b = tt
  All-both (x ∷ xs) a b = ((a.0, b.0), All-both xs a.1 b.1)

module _ {A : Type 0} (P Q S : A → Type 0) where
  All-three : (xs : List A) → All P xs → All Q xs → All S xs → All (λ x. P x × Q x × S x) xs
  All-three [] a b c = tt
  All-three (x ∷ xs) a b c = ((a.0, b.0, c.0), All-three xs a.1 b.1 c.1)

module _ {A : Type 0} (P : A → Type 0) where
  All-append_one : (xs : List A) (x : A) → All P xs → P x → All P (xs ++ x ∷ [])
  All-append_one [] x a p = (p, tt)
  All-append_one (y ∷ xs) x a p = (a.0, All-append_one xs x a.1 p)

module _ {R : Type 0} where
  pub has_id-false :
      (id : ℕ) (rows : List (OutcomeRow R)) → has_id id rows ≡ false → All (λ t. t.key.id ≢ id) rows
  unfolding has_id
  has_id-false id [] h = tt
  has_id-false id (t ∷ ts) h = (λ e. ground (arith, h), has_id-false id ts (ground (arith, h)))

  pub HasUniqueIds-append :
      (rows : List (OutcomeRow R)) (row : OutcomeRow R)
      → HasUniqueIds rows
      → All (λ t. t.key.id ≢ row.key.id) rows
      → HasUniqueIds (rows ++ row ∷ [])
  HasUniqueIds-append [] row u h = (tt, tt)
  HasUniqueIds-append (t ∷ ts) row u h = (
    All-append_one (λ u. u.key.id ≢ t.key.id) ts row u.0 (λ e. h.0 (sym e)),
    HasUniqueIds-append ts row u.1 h.1,
  )

  -- What an insertion of a row with a new id keeps, ensure_pending keeps.
  module _ (P : List (OutcomeRow R) → Type 0)
      (step : (rows : List (OutcomeRow R)) (row : OutcomeRow R)
        → P rows
        → has_id row.key.id rows ≡ false
        → P (rows ++ row ∷ [])) where
    ensure_pending_keeps :
        (now : ℕ) (draw : ℕ → ℕ) (d : DecisionRow R) (counts : Counts) (rows : List (OutcomeRow R))
        → P rows
        → P (ensure_pending now draw d (counts, rows)).1
    unfolding ensure_pending pending_row
    ensure_pending_keeps now draw d counts rows h =
        if_case (λ (out : Counts × List (OutcomeRow R)). P out.1) (has_outcome d.key.id rows) _ _
          (λ _. h)
          (λ _.
            if_case (λ (out : Counts × List (OutcomeRow R)). P out.1) (has_id (draw d.key.id) rows)
              _ _ (λ _. h) (λ fresh. step rows (pending_row now (draw d.key.id) d) h fresh))

    pub ensure_all_keeps :
        (now : ℕ) (draw : ℕ → ℕ) (ds : List (DecisionRow R)) (out : Counts × List (OutcomeRow R))
        → P out.1
        → P (ensure_all now draw ds out).1
    unfolding ensure_all
    ensure_all_keeps now draw [] out h = h
    ensure_all_keeps now draw (d ∷ ds) out h =
        ensure_all_keeps now draw ds (ensure_pending now draw d out)
          (ensure_pending_keeps now draw d out.0 out.1 h)

  -- A pending row and a settled one have different ids.
  pending_is_apart :
      (rows : List (OutcomeRow R))
      → HasUniqueIds rows
      → All
          (λ q.
            is_unsettled q.outcome.terminal_status ≡ true
            → All (λ t. IsSettled t → t.key.id ≢ q.key.id) rows)
          rows
  pending_is_apart [] u = tt
  pending_is_apart (x ∷ xs) u = (
    λ p. (
      λ settled. absurd (let clash = sym p ∙ settled in cc),
      All-mono (λ t. t.key.id ≢ x.key.id) (λ t. IsSettled t → t.key.id ≢ x.key.id) xs
          (λ t apart settled. apart) u.0,
    ),
    All-mono
        (λ q.
          (q.key.id ≢ x.key.id)
          × (is_unsettled q.outcome.terminal_status ≡ true
              → All (λ t. IsSettled t → t.key.id ≢ q.key.id) xs))
        (λ q.
          is_unsettled q.outcome.terminal_status ≡ true
          → All (λ t. IsSettled t → t.key.id ≢ q.key.id) (x ∷ xs))
        xs (λ q both p. ((λ settled e. both.0 (sym e)), both.1 p))
        (All-both _ _ xs u.0 (pending_is_apart xs u.1)),
  )

  has_id-append :
      (id : ℕ) (ts : List (OutcomeRow R)) (row : OutcomeRow R)
      → has_id id ts ≡ true
      → has_id id (ts ++ row ∷ []) ≡ true
  unfolding has_id
  has_id-append id [] row h = absurd (cc)
  has_id-append id (t ∷ ts) row h = ground (arith, h, has_id-append id ts row)

  settled_before-append :
      (k : Key) (ts : List (OutcomeRow R)) (row : OutcomeRow R)
      → settled_before k ts ≤ settled_before k (ts ++ row ∷ [])
  unfolding settled_before
  settled_before-append k [] row = omega arith
  settled_before-append k (t ∷ ts) row = omega (arith, settled_before-append k ts row)

module _ {R : Type 0} (kept : Option ℕ) where
  pub IsStarved-append :
      (rows : List (OutcomeRow R)) (row : OutcomeRow R)
      → IsStarved kept rows
      → has_id row.key.id rows ≡ false
      → IsStarved kept (rows ++ row ∷ [])
  IsStarved-append rows row s fresh = record {
    present = λ id e. has_id-append id rows row (s.present id e);
    behind =
        All-append_one (λ q. some q.key.id ≡ kept → 2000 ≤ settled_before q.key (rows ++ row ∷ []))
          rows row
          (All-mono (λ q. some q.key.id ≡ kept → 2000 ≤ settled_before q.key rows)
            (λ q. some q.key.id ≡ kept → 2000 ≤ settled_before q.key (rows ++ row ∷ [])) rows
            (λ q h e. omega (arith, h e, settled_before-append q.key rows row)) s.behind)
          (λ e. absurd (let clash = sym (s.present row.key.id e) ∙ fresh in cc));
  }

  -- A row that is listed and pending is neither settled nor the one that is starved.
  unfoldable pub Apart : List (OutcomeRow R) → OutcomeRow R → Type 0
  Apart rows q =
      is_unsettled q.outcome.terminal_status ≡ true
      → All (λ t. IsKept kept t → t.key.id ≢ q.key.id) rows

  pub listed_outcomes-Apart :
      (rows : List (OutcomeRow R))
      → HasUniqueIds rows
      → IsStarved kept rows
      → All (Apart rows) (listed_outcomes rows)
  unfolding Apart
  listed_outcomes-Apart rows u s =
      All-mono
        (λ q.
          (settled_before q.key rows < 2000)
          × (some q.key.id ≡ kept → 2000 ≤ settled_before q.key rows)
          × (is_unsettled q.outcome.terminal_status ≡ true
              → All (λ t. IsSettled t → t.key.id ≢ q.key.id) rows))
        (Apart rows) _
        (λ q (early, late, apart) p.
          All-mono (λ t. IsSettled t → t.key.id ≢ q.key.id)
            (λ t. IsKept kept t → t.key.id ≢ q.key.id) rows
            (λ t differs is_kept.
              kept_differs t q differs (λ e. absurd (omega (arith, early, late e))) is_kept)
            (apart p))
        (All-three _ _ _ _ (listed_outcomes-rank rows) (listed_outcomes-All _ rows s.behind)
          (listed_outcomes-All _ rows (pending_is_apart rows u)))
    where
      kept_differs :
          (t q : OutcomeRow R)
          → (IsSettled t → t.key.id ≢ q.key.id)
          → ¬ (some q.key.id ≡ kept)
          → IsKept kept t
          → t.key.id ≢ q.key.id
      kept_differs t q settled other (inl s) = settled s
      kept_differs t q settled other (inr e) = λ same. other (ap some (sym same) ∙ e)

module _ {R : Type 0} (F : Floats R) (is_finite : R → Bool) (horizon_bars : ℕ)
    (kept : Option ℕ) where
  evaluate_row-Evolves :
      (answers : Answers F is_finite horizon_bars) (decisions : List (DecisionRow R))
      (q : OutcomeRow R) (counts : Counts) (ts us : List (OutcomeRow R))
      → Apart kept ts q
      → Evolves kept ts us
      → Evolves kept ts (evaluate_row F is_finite horizon_bars answers decisions q (counts, us)).1
  unfolding evaluate_row Apart
  evaluate_row-Evolves answers decisions q counts ts us apart e =
      if_case (λ (out : Counts × List (OutcomeRow R)). Evolves kept ts out.1)
        (is_unsettled q.outcome.terminal_status) _ _
        (λ p. found (apart p) (find_decision q.decision_id decisions)) (λ _. e)
    where
      found :
          All (λ t. IsKept kept t → t.key.id ≢ q.key.id) ts
          → (d : Option (Decision R))
          → Evolves kept ts (evaluate_found F is_finite horizon_bars answers q d (counts, us)).1
      found away none =
          unfold evaluate_found in Evolves-update_outcome kept q.key.id not_found ts us away e
      found away (some d) =
          unfold evaluate_found in Evolves-update_outcome kept q.key.id _ ts us away e

  pub evaluate_rows-Evolves :
      (answers : Answers F is_finite horizon_bars) (decisions : List (DecisionRow R))
      (listed : List (OutcomeRow R)) (ts : List (OutcomeRow R)) (out : Counts × List (OutcomeRow R))
      → All (Apart kept ts) listed
      → Evolves kept ts out.1
      → Evolves kept ts (evaluate_rows F is_finite horizon_bars answers decisions listed out).1
  unfolding evaluate_rows
  evaluate_rows-Evolves answers decisions [] ts out apart e = e
  evaluate_rows-Evolves answers decisions (q ∷ listed) ts out apart e =
      evaluate_rows-Evolves answers decisions listed ts _ apart.1
        (evaluate_row-Evolves answers decisions q out.0 ts out.1 apart.0 e)
