-- ===== src/Shadow/Ranks.antt =====
-- services/shadow_outcome.py: which rows the worker's ordered and limited list leaves out.
use xauusd_bot.Base.{
  ℕ, zero, suc, ◌+◌, ◌≡◌, ◌<◌, refl, true, false, not, ◌&&◌, List, [], ◌∷◌, take, if◌then◌else◌,
  All, All-mono, arith, if_case,
}
use xauusd_bot.Shadow.Worker.{
  Key, OutcomeRow, key_before, insert_row, order_by_key, is_unsettled, listed_outcomes,
}

key_before_irreflexive : (a : Key) → key_before a a ≡ false
unfolding key_before
key_before_irreflexive a = ground arith

key_before_asymmetric : (a b : Key) → key_before a b ≡ true → key_before b a ≡ false
unfolding key_before
key_before_asymmetric a b h = ground arith

key_before_transitive :
    (a b c : Key) → key_before b a ≡ false → key_before c b ≡ false → key_before c a ≡ false
unfolding key_before
key_before_transitive a b c h k = ground arith

module _ {R : Type 0} where
  IsOrdered : List (OutcomeRow R) → Type 0
  IsOrdered [] = Unit
  IsOrdered (a ∷ bs) = All (λ b. key_before b.key a.key ≡ false) bs × IsOrdered bs

  insert_row-All :
      (P : OutcomeRow R → Type 0) (a : OutcomeRow R) (bs : List (OutcomeRow R))
      → P a
      → All P bs
      → All P (insert_row (λ row. row.key) a bs)
  unfolding insert_row
  insert_row-All P a [] h all = (h, tt)
  insert_row-All P a (b ∷ bs) h all =
      if_case (All P) (key_before b.key a.key) _ _ (λ e. (all.0, insert_row-All P a bs h all.1))
        (λ e. (h, all))

  order_by_key-All :
      (P : OutcomeRow R → Type 0) (rows : List (OutcomeRow R))
      → All P rows
      → All P (order_by_key (λ row. row.key) rows)
  unfolding order_by_key
  order_by_key-All P [] all = tt
  order_by_key-All P (a ∷ bs) all = insert_row-All P a _ all.0 (order_by_key-All P bs all.1)

  take-All :
      (P : OutcomeRow R → Type 0) (n : ℕ) (rows : List (OutcomeRow R))
      → All P rows
      → All P (take n rows)
  take-All P zero rows all = tt
  take-All P (suc n) [] all = tt
  take-All P (suc n) (a ∷ bs) all = (all.0, take-All P n bs all.1)

  insert_row-IsOrdered :
      (a : OutcomeRow R) (bs : List (OutcomeRow R))
      → IsOrdered bs
      → IsOrdered (insert_row (λ row. row.key) a bs)
  unfolding insert_row IsOrdered
  insert_row-IsOrdered a [] s = (tt, tt)
  insert_row-IsOrdered a (b ∷ bs) s =
      if_case IsOrdered (key_before b.key a.key) _ _
        (λ e. (
          insert_row-All (λ c. key_before c.key b.key ≡ false) a bs
              (key_before_asymmetric b.key a.key e) s.0,
          insert_row-IsOrdered a bs s.1,
        ))
        (λ e. (
          (
            e,
            All-mono (λ c. key_before c.key b.key ≡ false) (λ c. key_before c.key a.key ≡ false) bs
                (λ c. key_before_transitive a.key b.key c.key e) s.0,
          ),
          s,
        ))

  order_by_key-IsOrdered :
      (rows : List (OutcomeRow R)) → IsOrdered (order_by_key (λ row. row.key) rows)
  unfolding order_by_key IsOrdered
  order_by_key-IsOrdered [] = tt
  order_by_key-IsOrdered (a ∷ bs) = insert_row-IsOrdered a _ (order_by_key-IsOrdered bs)

  -- How many rows that are not pending come before a key.
  unfoldable pub settled_before : Key → List (OutcomeRow R) → ℕ
  settled_before k [] = 0
  settled_before k (row ∷ rows) =
      (if key_before row.key k && not (is_unsettled row.outcome.terminal_status) then 1 else 0)
      + settled_before k rows

  settled_before-insert_row :
      (k : Key) (a : OutcomeRow R) (bs : List (OutcomeRow R))
      → settled_before k (insert_row (λ row. row.key) a bs) ≡ settled_before k (a ∷ bs)
  unfolding insert_row settled_before
  settled_before-insert_row k a [] = refl
  settled_before-insert_row k a (b ∷ bs) =
      if_case
        (λ (rows : List (OutcomeRow R)). settled_before k rows ≡ settled_before k (a ∷ b ∷ bs))
        (key_before b.key a.key) _ _ (λ e. omega (arith, settled_before-insert_row k a bs))
        (λ e. refl)

  settled_before-order_by_key :
      (k : Key) (rows : List (OutcomeRow R))
      → settled_before k (order_by_key (λ row. row.key) rows) ≡ settled_before k rows
  unfolding order_by_key settled_before
  settled_before-order_by_key k [] = refl
  settled_before-order_by_key k (a ∷ bs) = omega (
    arith,
    settled_before-insert_row k a (order_by_key (λ row. row.key) bs),
    settled_before-order_by_key k bs,
  )

  settled_before_none :
      (k : Key) (rows : List (OutcomeRow R))
      → All (λ b. key_before b.key k ≡ false) rows
      → settled_before k rows ≡ 0
  unfolding settled_before
  settled_before_none k [] all = refl
  settled_before_none k (b ∷ bs) all = rw (all.0, settled_before_none k bs all.1) refl

  IsOrdered-rank :
      (n : ℕ) (rows : List (OutcomeRow R))
      → IsOrdered rows
      → All (λ q. settled_before q.key rows < n) (take n rows)
  unfolding settled_before IsOrdered
  IsOrdered-rank zero rows s = tt
  IsOrdered-rank (suc n) [] s = tt
  IsOrdered-rank (suc n) (a ∷ bs) s = (
    rw (key_before_irreflexive a.key, settled_before_none a.key bs s.0) (omega arith),
    All-mono (λ q. settled_before q.key bs < n) (λ q. settled_before q.key (a ∷ bs) < suc n) _
        (λ q h. at_most_one q.key h) (IsOrdered-rank n bs s.1),
  )
    where
      at_most_one : (k : Key) → settled_before k bs < n → settled_before k (a ∷ bs) < suc n
      at_most_one k h =
          if_case (λ (m : ℕ). m + settled_before k bs < suc n)
            (key_before a.key k && not (is_unsettled a.outcome.terminal_status)) 1 0
            (λ _. omega arith) (λ _. omega arith)

  -- Fewer than 2,000 settled rows come before a row that is listed.
  pub listed_outcomes-rank :
      (rows : List (OutcomeRow R))
      → All (λ q. settled_before q.key rows < 2000) (listed_outcomes rows)
  unfolding listed_outcomes
  listed_outcomes-rank rows =
      All-mono (λ q. settled_before q.key (order_by_key (λ row. row.key) rows) < 2000)
        (λ q. settled_before q.key rows < 2000) _
        (λ q h. rw (settled_before-order_by_key q.key rows) at h)
        (IsOrdered-rank 2000 _ (order_by_key-IsOrdered rows))

  -- What holds of all rows holds of those that are listed.
  pub listed_outcomes-All :
      (P : OutcomeRow R → Type 0) (rows : List (OutcomeRow R))
      → All P rows
      → All P (listed_outcomes rows)
  unfolding listed_outcomes
  listed_outcomes-All P rows all = take-All P 2000 _ (order_by_key-All P rows all)
