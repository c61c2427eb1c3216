-- ===== src/Demo/Once.antt =====
-- A signal is handed to the broker at most once.
use xauusd_bot.Base.{
  ℕ, ◌+◌, ◌≤◌, ◌≡◌, refl, subst, Bool, true, false, List, [], ◌∷◌, ◌==◌, if◌then◌else◌, is_some,
  arith, inl, inr,
}
use xauusd_bot.Risk.Floats.{Floats}
use xauusd_bot.Demo.Types.{Request, Desk, DemoRecord, DemoSettings, DemoLibrary}
use xauusd_bot.Demo.Records.{existing}
use xauusd_bot.Demo.Service.{Turn, execute, execute_all}
use xauusd_bot.Demo.Rows.{Silent}
use xauusd_bot.Demo.Steps.{Submission, execute-Step}

-- How many orders of the signal the broker has got.
abbrev pub count_sent : {R : Type 0} → ℕ → List (ℕ × Request R) → ℕ
count_sent i [] = 0
count_sent i ((j, request) ∷ rest) = (if j == i then 1 else 0) + count_sent i rest

abbrev pub one_if : Bool → ℕ
one_if true = 1
one_if false = 0

-- A signal without a row was never sent, and one with a row at most once.
abbrev pub SentOnce : {R : Type 0} → Desk R → Type 0
SentOnce desk = (i : ℕ) → count_sent i desk.sent ≤ one_if (is_some (existing i desk.records))

one_if_mono : (a b : Bool) → (a ≡ true → b ≡ true) → one_if a ≤ one_if b
one_if_mono true b h = ground (arith, h refl)
one_if_mono false b h = ground arith

module _ {R : Type 0} where
  counted :
      (j i : ℕ) (request : Request R) (rest : List (ℕ × Request R)) (rows : List (DemoRecord R))
      → is_some (existing j rows) ≡ true
      → count_sent j rest ≤ 0
      → count_sent i rest ≤ one_if (is_some (existing i rows))
      → count_sent i ((j, request) ∷ rest) ≤ one_if (is_some (existing i rows))
  counted j i request rest rows row none_sent before = ground arith

  Silent-SentOnce : (desk t : Desk R) → Silent desk t → SentOnce desk → SentOnce t
  Silent-SentOnce desk t quiet once i =
      let kept = one_if_mono _ _ (quiet.keeps i) in
      let before = once i in rw quiet.unsent (omega (arith, before, kept))

module _ {R : Type 0} (F : Floats R) (lib : DemoLibrary) (cfg : DemoSettings R) where
  Submission-SentOnce :
      (turn : Turn R) (desk t : Desk R)
      → Submission F lib cfg turn desk t
      → SentOnce desk
      → SentOnce t
  Submission-SentOnce turn desk t s once i =
      let kept = one_if_mono _ _ (s.keeps i) in
      let before = once i in
      let unsent : count_sent turn.signal.id desk.sent ≤ 0 =
        subst (λ o. count_sent turn.signal.id desk.sent ≤ one_if (is_some o)) s.first
          (once turn.signal.id) in
      rw s.order (
        counted turn.signal.id i s.request desk.sent _ s.has_row unsent
          (omega (arith, before, kept)))

  -- From a desk where it holds, in particular from an empty one, every sequence of calls keeps that
  -- no signal is handed to the broker twice and none without a row of its own, whatever the terminal
  -- answers and whatever rows and switches other tasks and processes write meanwhile.
  pub at_most_once :
      (turns : List (Turn R)) (desk : Desk R)
      → SentOnce desk
      → SentOnce (execute_all F lib cfg turns desk)
  unfolding execute_all
  at_most_once [] desk once = once
  at_most_once (t ∷ ts) desk once =
      at_most_once ts (execute F lib cfg t desk).1 (elim (execute-Step F lib cfg t desk) [
        | inl quiet ↦ Silent-SentOnce desk _ quiet once
        | inr s ↦ Submission-SentOnce t desk _ s once
      ])
