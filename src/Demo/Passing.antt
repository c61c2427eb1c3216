-- ===== src/Demo/Passing.antt =====
-- services/demo_execution.py: how a block of checks that passes is taken apart.
use xauusd_bot.Base.{◌≡◌, refl, Bool, true, false, Option, none, some}
use xauusd_bot.Risk.Gate.{blocked, approved, Evaluation}
use xauusd_bot.Demo.Types.{Rejection, Evidence}
use xauusd_bot.Demo.Preflight.{
  Preflight, passed, refused, raised, ◌>>=◌, ◌>>◌, refuse_if, or_refuse,
}
use xauusd_bot.Demo.Request.{sized}

-- How a block of checks that passes is taken apart.
module _ {R A B : Type 0} where
  pub bind_passed :
      (m : Preflight R A) (f : A → Preflight R B) (b : B)
      → m >>= f ≡ passed b
      → (a : A) × (m ≡ passed a) × (f a ≡ passed b)
  unfolding ◌>>=◌
  bind_passed (passed a) f b h = (a, refl, h)
  bind_passed (refused r e) f b h = absurd (cc)
  bind_passed raised f b h = absurd (cc)

  pub then_passed :
      (m : Preflight R A) (k : Preflight R B) (b : B)
      → m >> k ≡ passed b
      → ((a : A) × (m ≡ passed a)) × (k ≡ passed b)
  unfolding ◌>>◌
  then_passed (passed a) k b h = ((a, refl), h)
  then_passed (refused r e) k b h = absurd (cc)
  then_passed raised k b h = absurd (cc)

pub passed-injective :
    {R A : Type 0} (a b : A) → ◌≡◌ {A = Preflight R A} (passed a) (passed b) → a ≡ b
passed-injective a b h = cc

module _ {R : Type 0} where
  refuse_if_passed :
      (b : Bool) (r : Rejection) (e : Option (Evidence R)) (u : Unit {0})
      → refuse_if b r e ≡ passed u
      → b ≡ false
  unfolding refuse_if
  refuse_if_passed true r e u h = absurd (cc)
  refuse_if_passed false r e u h = refl

  -- A check that passes, and the rest of the block.
  pub refuse_if-then :
      {B : Type 0} (b : Bool) (r : Rejection) (e : Option (Evidence R)) (k : Preflight R B) (c : B)
      → refuse_if b r e >> k ≡ passed c
      → (b ≡ false) × (k ≡ passed c)
  refuse_if-then b r e k c h =
      let (first, rest) = then_passed (refuse_if b r e) k c h in
      (refuse_if_passed b r e first.0 first.1, rest)

  pub or_refuse-bind :
      {A B : Type 0} (o : Option A) (r : Rejection) (e : Option (Evidence R))
      (f : A → Preflight R B) (c : B)
      → or_refuse o r e >>= f ≡ passed c
      → (a : A) × (o ≡ some a) × (f a ≡ passed c)
  unfolding or_refuse ◌>>=◌
  or_refuse-bind none r e f c h = absurd (cc)
  or_refuse-bind (some a) r e f c h = (a, refl, h)

  pub sized_passed :
      (v : Evaluation R) (e : Option (Evidence R)) (volume proposed : R)
      → sized v e ≡ passed (volume, proposed)
      → (o : R) × (r : R) × (v ≡ some (approved o r proposed, some volume))
  unfolding sized
  sized_passed none e volume proposed h = absurd (cc)
  sized_passed (some (blocked reason, v)) e volume proposed h = absurd (cc)
  sized_passed (some (approved o r p, none)) e volume proposed h = absurd (cc)
  sized_passed (some (approved o r p, some v)) e volume proposed h = (o, r, cc)
