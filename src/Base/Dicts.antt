-- ===== src/Base/Dicts.antt =====
-- A Python `dict` whose keys are texts, as an association list in the order of insertion.
use mathlib.Core.Path.{◌≡◌, refl, subst}
use mathlib.Core.Logic.{inl, inr}
use mathlib.Core.Option.{Option, none, some}
use mathlib.Core.List.{List, [], ◌∷◌}
use native.Mathlib.Omega.{arith}
use xauusd_bot.Base.Tests.{if◌then◌else◌, Bool-cases, if_case, some-injective}
use xauusd_bot.Base.Lists.{Text, All, text_eq, text_eq_refl}

abbrev pub Dict : Type 0 → Type 0
Dict A = List (Text × A)

module _ {A : Type 0} where
  -- `d.get(key)`
  unfoldable pub dict_get : Text → Dict A → Option A
  dict_get k [] = none
  dict_get k ((l, a) ∷ d) = if text_eq k l then some a else dict_get k d

  -- `d[key] = value`, which keeps the place of a key that is there.
  unfoldable pub dict_set : Text → A → Dict A → Dict A
  dict_set k a [] = (k, a) ∷ []
  dict_set k a ((l, b) ∷ d) = if text_eq k l then (l, a) ∷ d else (l, b) ∷ dict_set k a d

  -- `d.pop(key, None)`
  unfoldable pub dict_pop : Text → Dict A → Dict A
  dict_pop k [] = []
  dict_pop k ((l, b) ∷ d) = if text_eq k l then dict_pop k d else (l, b) ∷ dict_pop k d

  -- `d.get(key, default)`
  abbrev pub or_default : A → Option A → A
  or_default a none = a
  or_default a (some b) = b

  pub dict_get-dict_set : (k : Text) (a : A) (d : Dict A) → dict_get k (dict_set k a d) ≡ some a
  unfolding dict_get dict_set
  dict_get-dict_set k a [] = rw (text_eq_refl k)
  dict_get-dict_set k a ((l, b) ∷ d) = ground (arith, dict_get-dict_set k a d)

  pub dict_get-dict_pop : (k : Text) (d : Dict A) → dict_get k (dict_pop k d) ≡ none
  unfolding dict_get dict_pop
  dict_get-dict_pop k [] = refl
  dict_get-dict_pop k ((l, b) ∷ d) = ground (arith, dict_get-dict_pop k d)

  -- A property of all values.
  module _ (P : A → Type 0) where
    abbrev pub AllValues : Dict A → Type 0
    AllValues d = All (λ entry. P entry.1) d

    pub AllValues-dict_set :
        (k : Text) (a : A) (d : Dict A) → P a → AllValues d → AllValues (dict_set k a d)
    unfolding dict_set
    AllValues-dict_set k a [] h all = (h, tt)
    AllValues-dict_set k a ((l, b) ∷ d) h all =
        if_case AllValues (text_eq k l) _ _ (λ e. (h, all.1))
          (λ e. (all.0, AllValues-dict_set k a d h all.1))

    pub AllValues-dict_get :
        (k : Text) (a : A) (d : Dict A) → AllValues d → dict_get k d ≡ some a → P a
    unfolding dict_get
    AllValues-dict_get k a [] all e = absurd (cc)
    AllValues-dict_get k a ((l, b) ∷ d) all e = elim (Bool-cases (text_eq k l)) [
      | inl same ↦ subst P (some-injective (rw same at e)) all.0
      | inr differs ↦ AllValues-dict_get k a d all.1 (rw differs at e)
    ]
