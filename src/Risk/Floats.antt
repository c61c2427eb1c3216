-- ===== src/Risk/Floats.antt =====
-- Python's `float`, of which the code uses these operations; nothing here says how they round.
use xauusd_bot.Base.{ℕ, Bool, false, Option, ◌≡◌, if◌then◌else◌}

pub record Floats (R : Type 0) : Type 0 where
  pub of_nat : ℕ → R
  pub add : R → R → R
  pub sub : R → R → R
  pub mul : R → R → R
  pub div : R → R → R
  pub abs : R → R
  pub lt : R → R → Bool
  pub le : R → R → Bool
  -- `math.floor`, `none` where it raises.
  pub floor : R → Option R
  -- `round(x, digits)`
  pub round : ℕ → R → R
  -- `1e-9`
  pub nano : R

-- What the code relies on for numbers that are no NaN: the order is total, and adding the same
-- number keeps it.
pub record IsOrdered {R : Type 0} (F : Floats R) : Type 0 where
  pub irreflexive : (a : R) → F.lt a a ≡ false
  pub transitive : (a b c : R) → F.lt b a ≡ false → F.lt c b ≡ false → F.lt c a ≡ false
  pub add_mono : (a b e : R) → F.lt b a ≡ false → F.lt (F.add b e) (F.add a e) ≡ false

module _ {R : Type 0} (F : Floats R) where
  -- `min(a, b)`, which keeps the first of two equals.
  unfoldable pub least : R → R → R
  least a b = if F.lt b a then b else a

  -- `x > 0`
  abbrev pub is_positive : R → Bool
  is_positive x = F.lt (F.of_nat 0) x

  -- `x <= 0`
  abbrev pub is_no_more_than_zero : R → Bool
  is_no_more_than_zero x = F.le x (F.of_nat 0)
