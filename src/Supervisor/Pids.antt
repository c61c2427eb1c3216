-- ===== src/Supervisor/Pids.antt =====
-- services/supervisor.py: which pids the sorted sets hold.
use xauusd_bot.Base.{
  ◌≡◌, refl, ap, true, ◌||◌, List, [], ◌∷◌, ◌==◌, arith, Bool-cases, inl, inr, ◌⊎◌,
}
use xauusd_bot.Supervisor.Types.{Pid}
use xauusd_bot.Supervisor.Trees.{
  elem, add_pid, add_pids, insert_sorted, sorted, reverse_onto, sorted_reverse,
}

same_pid : (x p : Pid) → x == p ≡ true → x ≡ p
same_pid x p h = ground (arith, h)

pub elem-same : (x p : Pid) (ps : List Pid) → x == p ≡ true → elem x ps ≡ elem p ps
elem-same x p ps h = ap (λ q. elem q ps) (same_pid x p h)

pub elem-add_pid : (x p : Pid) (ps : List Pid) → elem x (add_pid p ps) ≡ x == p || elem x ps
unfolding add_pid elem
elem-add_pid x p ps = elim (Bool-cases (x == p)) [
  | inl e ↦ ground (arith, e, elem-same x p ps e)
  | inr e ↦ ground (arith, e)
]

pub elem-add_pids : (x : Pid) (ps qs : List Pid) → elem x (add_pids ps qs) ≡ elem x ps || elem x qs
unfolding add_pids elem
elem-add_pids x ps [] = ground arith
elem-add_pids x ps (q ∷ qs) = ground (arith, elem-add_pids x (add_pid q ps) qs, elem-add_pid x q ps)

elem-insert_sorted : (x p : Pid) (ps : List Pid) → elem x (insert_sorted p ps) ≡ x == p || elem x ps
unfolding insert_sorted elem
elem-insert_sorted x p [] = refl
elem-insert_sorted x p (q ∷ qs) = ground (arith, elem-insert_sorted x p qs)

pub elem-sorted : (x : Pid) (ps : List Pid) → elem x (sorted ps) ≡ elem x ps
unfolding sorted elem
elem-sorted x [] = refl
elem-sorted x (p ∷ ps) = ground (arith, elem-insert_sorted x p (sorted ps), elem-sorted x ps)

elem-reverse_onto :
    (x : Pid) (ps qs : List Pid) → elem x (reverse_onto ps qs) ≡ elem x ps || elem x qs
unfolding reverse_onto elem
elem-reverse_onto x [] qs = refl
elem-reverse_onto x (p ∷ ps) qs = ground (arith, elem-reverse_onto x ps (p ∷ qs))

pub elem-sorted_reverse : (x : Pid) (ps : List Pid) → elem x (sorted_reverse ps) ≡ elem x ps
unfolding sorted_reverse elem
elem-sorted_reverse x ps = ground (arith, elem-reverse_onto x (sorted ps) [], elem-sorted x ps)

-- The cases of a pid that a set with one more holds.
pub elem-add_pid-cases :
    (x p : Pid) (ps : List Pid) → elem x (add_pid p ps) ≡ true → (p ≡ x) ⊎ (elem x ps ≡ true)
elem-add_pid-cases x p ps h = ground (arith, h, elem-add_pid x p ps)
