-- ===== src/Base/Texts.antt =====
-- Texts that the source spells out, and sets of texts.
use Prim.Native.Char.{code}
use Prim.Native.String.{String}
use mathlib.Core.Path.{◌≡◌, subst, sym}
use mathlib.Core.Logic.{inl, inr}
use mathlib.Core.Bool.{Bool, true, false, ◌&&◌, ◌||◌}
use mathlib.Core.List.{List, [], ◌∷◌}
use xauusd_bot.Base.Tests.{Bool-cases, and_left, and_right}
use xauusd_bot.Base.Lists.{Text, text_eq, text_eq→eq}

-- The code points of a quoted text.
abbrev pub codes : String → Text
codes String.[] = []
codes (String.◌∷◌ c s) = code c ∷ codes s

-- `text in texts`
unfoldable pub has_text : Text → List Text → Bool
has_text t [] = false
has_text t (u ∷ us) = text_eq t u || has_text t us

-- A test that all of the texts pass.
unfoldable pub all_texts : (Text → Bool) → List Text → Bool
all_texts f [] = true
all_texts f (u ∷ us) = f u && all_texts f us

pub has_text-all_texts :
    (f : Text → Bool) (t : Text) (us : List Text)
    → all_texts f us ≡ true
    → has_text t us ≡ true
    → f t ≡ true
unfolding has_text all_texts
has_text-all_texts f t [] all h = cc
has_text-all_texts f t (u ∷ us) all h = elim (Bool-cases (text_eq t u)) [
  | inl e ↦ subst (λ x. f x ≡ true) (sym (text_eq→eq t u e)) (and_left (f u) (all_texts f us) all)
  | inr e ↦ has_text-all_texts f t us (and_right (f u) (all_texts f us) all) (rw e at h)
]
