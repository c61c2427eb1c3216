-- ===== src/Csrf/Slices.antt =====
-- The two parts of a list of bytes, as Python's slices take them.
use xauusd_bot.Base.{ℕ, zero, suc, ◌+◌, ◌≡◌, refl, ap, [], ◌∷◌, ◌++◌, Text, length, take, arith}

-- What follows the first bytes.
unfoldable pub drop : ℕ → Text → Text
drop zero xs = xs
drop (suc n) [] = []
drop (suc n) (x ∷ xs) = drop n xs

pub length-++ : (xs ys : Text) (n m : ℕ) → length xs ≡ n → length ys ≡ m → length (xs ++ ys) ≡ n + m
length-++ [] ys n m h k = omega (arith, h, k)
length-++ (x ∷ xs) ys zero m h k = absurd (omega (arith, h))
length-++ (x ∷ xs) ys (suc n) m h k =
    let rest = length-++ xs ys n m (omega (arith, h)) k in omega (arith, rest)

pub take-++ : (xs ys : Text) (n : ℕ) → length xs ≡ n → take n (xs ++ ys) ≡ xs
take-++ [] ys zero h = refl
take-++ [] ys (suc n) h = absurd (omega (arith, h))
take-++ (x ∷ xs) ys zero h = absurd (omega (arith, h))
take-++ (x ∷ xs) ys (suc n) h = ap (λ zs. x ∷ zs) (take-++ xs ys n (omega (arith, h)))

pub drop-++ : (xs ys : Text) (n : ℕ) → length xs ≡ n → drop n (xs ++ ys) ≡ ys
unfolding drop
drop-++ [] ys zero h = refl
drop-++ [] ys (suc n) h = absurd (omega (arith, h))
drop-++ (x ∷ xs) ys zero h = absurd (omega (arith, h))
drop-++ (x ∷ xs) ys (suc n) h = drop-++ xs ys n (omega (arith, h))

pub take-drop : (n : ℕ) (xs : Text) → take n xs ++ drop n xs ≡ xs
unfolding drop
take-drop zero xs = refl
take-drop (suc n) [] = refl
take-drop (suc n) (x ∷ xs) = ap (λ zs. x ∷ zs) (take-drop n xs)

pub length-take_lem : (n m : ℕ) (xs : Text) → length xs ≡ n + m → length (take n xs) ≡ n
length-take_lem zero m xs h = refl
length-take_lem (suc n) m [] h = absurd (omega (arith, h))
length-take_lem (suc n) m (x ∷ xs) h = ap suc (length-take_lem n m xs (omega (arith, h)))
