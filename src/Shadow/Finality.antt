-- ===== src/Shadow/Finality.antt =====
-- services/shadow_outcome.py: what holds over every sequence of the worker's passes.
use xauusd_bot.Base.{
  ℕ, Option, none, some, ◌≡◌, ◌≢◌, ◌≤◌, refl, sym, subst, ◌∙◌, Bool, List, [], ◌∷◌, All, All-mono,
  arith,
}
use xauusd_bot.Risk.Floats.{Floats}
use xauusd_bot.Shadow.Worker.{
  Key, DecisionRow, OutcomeRow, has_id, ensure_all, unresolved_decisions, listed_outcomes, Answers,
  evaluate_once,
}
use xauusd_bot.Shadow.Ranks.{settled_before}
use xauusd_bot.Shadow.Passes.{
  HasUniqueIds, Keeps, Evolves, IsStarved, Evolves-Keeps, Evolves-refl, Keeps-refl, Keeps-append,
  Keeps-trans, Evolves-settled_before,
}
use xauusd_bot.Shadow.Starvation.{
  has_id-false, HasUniqueIds-append, ensure_all_keeps, IsStarved-append, listed_outcomes-Apart,
  evaluate_rows-Evolves,
}

module _ {R : Type 0} (kept : Option ℕ) where
  Evolves-has_id :
      (ts us : List (OutcomeRow R)) → Evolves kept ts us → (id : ℕ) → has_id id us ≡ has_id id ts
  unfolding has_id
  Evolves-has_id [] [] e id = refl
  Evolves-has_id [] (u ∷ us) e id = absurd e
  Evolves-has_id (t ∷ ts) [] e id = absurd e
  Evolves-has_id (t ∷ ts) (u ∷ us) e id = rw ((e.0).0, Evolves-has_id ts us e.1 id) refl

  -- A property of the keys.
  Evolves-All :
      (P : Key → Type 0) (ts us : List (OutcomeRow R))
      → Evolves kept ts us
      → All (λ t. P t.key) ts
      → All (λ u. P u.key) us
  Evolves-All P [] [] e all = tt
  Evolves-All P [] (u ∷ us) e all = absurd e
  Evolves-All P (t ∷ ts) [] e all = absurd e
  Evolves-All P (t ∷ ts) (u ∷ us) e all =
      (subst P (sym (e.0).0) all.0, Evolves-All P ts us e.1 all.1)

  Evolves-HasUniqueIds :
      (ts us : List (OutcomeRow R)) → Evolves kept ts us → HasUniqueIds ts → HasUniqueIds us
  Evolves-HasUniqueIds [] [] e h = tt
  Evolves-HasUniqueIds [] (u ∷ us) e h = absurd e
  Evolves-HasUniqueIds (t ∷ ts) [] e h = absurd e
  Evolves-HasUniqueIds (t ∷ ts) (u ∷ us) e h = (
    Evolves-All (λ k. k.id ≢ u.key.id) ts us e.1 (rw (e.0).0 h.0),
    Evolves-HasUniqueIds ts us e.1 h.1,
  )

  Evolves-IsStarved :
      (ts us : List (OutcomeRow R)) → Evolves kept ts us → IsStarved kept ts → IsStarved kept us
  Evolves-IsStarved ts us e s = record {
    present = λ id h. Evolves-has_id ts us e id ∙ s.present id h;
    behind =
        All-mono (λ q. some q.key.id ≡ kept → 2000 ≤ settled_before q.key ts)
          (λ q. some q.key.id ≡ kept → 2000 ≤ settled_before q.key us) us
          (λ q h same. omega (arith, h same, Evolves-settled_before kept q.key ts us e))
          (Evolves-All (λ k. some k.id ≡ kept → 2000 ≤ settled_before k ts) ts us e s.behind);
  }

  -- What is carried from pass to pass.
  abbrev pub IsStuck : List (OutcomeRow R) → List (OutcomeRow R) → Type 0
  IsStuck start rows = Keeps kept start rows × HasUniqueIds rows × IsStarved kept rows

module _ {R : Type 0} (F : Floats R) (is_finite : R → Bool) (horizon_bars : ℕ) where
  evaluate_once-IsStuck :
      (kept : Option ℕ) (answers : Answers F is_finite horizon_bars)
      (decisions : List (DecisionRow R)) (start rows : List (OutcomeRow R))
      → IsStuck kept start rows
      → IsStuck kept start (evaluate_once F is_finite horizon_bars answers decisions rows).1
  unfolding evaluate_once
  evaluate_once-IsStuck kept answers decisions start rows stuck =
      let out =
        ensure_all answers.now answers.draw (unresolved_decisions rows decisions)
          (record { created = 0; pending = 0; terminal = 0; errors = 0 }, rows) in
      let (keeps, unique, starved) =
        ensure_all_keeps (IsStuck kept start)
          (λ ts row h fresh. (
            Keeps-append kept start ts (row ∷ []) h.0,
            HasUniqueIds-append ts row h.1 (has_id-false row.key.id ts fresh),
            IsStarved-append kept ts row h.2 fresh,
          ))
          answers.now answers.draw (unresolved_decisions rows decisions)
          (record { created = 0; pending = 0; terminal = 0; errors = 0 }, rows) stuck in
      let evolves =
        evaluate_rows-Evolves F is_finite horizon_bars kept answers decisions
          (listed_outcomes out.1) out.1 out (listed_outcomes-Apart kept out.1 unique starved)
          (Evolves-refl kept out.1) in
      (
        Keeps-trans kept start out.1 _ keeps (Evolves-Keeps kept out.1 _ evolves),
        Evolves-HasUniqueIds kept out.1 _ evolves unique,
        Evolves-IsStarved kept out.1 _ evolves starved,
      )

  -- The passes of `_run`, each with the decisions that are there by then.
  unfoldable pub evaluate_passes :
      List (Answers F is_finite horizon_bars × List (DecisionRow R))
      → List (OutcomeRow R)
      → List (OutcomeRow R)
  evaluate_passes [] rows = rows
  evaluate_passes ((answers, decisions) ∷ passes) rows =
      evaluate_passes passes (evaluate_once F is_finite horizon_bars answers decisions rows).1

  passes-IsStuck :
      (kept : Option ℕ) (passes : List (Answers F is_finite horizon_bars × List (DecisionRow R)))
      (start rows : List (OutcomeRow R))
      → IsStuck kept start rows
      → IsStuck kept start (evaluate_passes passes rows)
  unfolding evaluate_passes
  passes-IsStuck kept [] start rows stuck = stuck
  passes-IsStuck kept ((answers, decisions) ∷ passes) start rows stuck =
      passes-IsStuck kept passes start _
        (evaluate_once-IsStuck kept answers decisions start rows stuck)

  NothingIsStarved : (rows : List (OutcomeRow R)) → IsStarved none rows
  NothingIsStarved rows = record { present = λ id e. absurd (cc); behind = All-everywhere rows }
    where
      All-everywhere :
          (us : List (OutcomeRow R))
          → All (λ q. some q.key.id ≡ none → 2000 ≤ settled_before q.key rows) us
      All-everywhere [] = tt
      All-everywhere (u ∷ us) = (λ e. absurd (cc), All-everywhere us)

  -- Over every sequence of passes of evaluate_once, from a table with unique ids and whatever
  -- decisions, candles and new ids the passes get, each row keeps its place, its id and its
  -- timestamps, and a row that is not PENDING stays as it is in all its fields.
  pub settled_outcome_is_final :
      (passes : List (Answers F is_finite horizon_bars × List (DecisionRow R)))
      (rows : List (OutcomeRow R))
      → HasUniqueIds rows
      → Keeps none rows (evaluate_passes passes rows)
  settled_outcome_is_final passes rows unique =
      (passes-IsStuck none passes rows rows (Keeps-refl none rows, unique, NothingIsStarved rows)).0

  -- A row that 2,000 rows which are not PENDING precede in the order of
  -- ShadowOutcomeRepository.list stays as it is, PENDING for instance, over every sequence of
  -- passes of evaluate_once, from a table with unique ids and whatever decisions, candles and new
  -- ids the passes get.
  pub starved_outcome_stays :
      (id : ℕ) (passes : List (Answers F is_finite horizon_bars × List (DecisionRow R)))
      (rows : List (OutcomeRow R))
      → HasUniqueIds rows
      → IsStarved (some id) rows
      → Keeps (some id) rows (evaluate_passes passes rows)
  starved_outcome_stays id passes rows unique starved =
      (passes-IsStuck (some id) passes rows rows (Keeps-refl (some id) rows, unique, starved)).0
