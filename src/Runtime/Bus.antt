-- ===== src/Runtime/Bus.antt =====
-- events/bus.py: the subscribers of an event and in which order they get it.
use xauusd_bot.Base.{
  ◌≡◌, refl, ap, Bool, true, false, ◌&&◌, ◌||◌, Option, none, some, List, [], ◌∷◌, ◌++◌, map, Text,
  text_eq, All, if◌then◌else◌, if_case,
}

-- `Subscription`; of the handler, the events for which it raises.
pub record Subscription (E : Type 0) : Type 0 where
  pub name : Text
  pub raises_for : E → Bool
  pub critical : Bool

module _ {E : Type 0} where
  unfoldable pub has_name : Text → List (Subscription E) → Bool
  has_name n [] = false
  has_name n (s ∷ ss) = text_eq s.name n || has_name n ss

  -- `subscribe`; `none` is a ValueError.
  unfoldable pub subscribe : Subscription E → List (Subscription E) → Option (List (Subscription E))
  subscribe s subscriptions =
      if has_name s.name subscriptions then none else some (subscriptions ++ s ∷ [])

  -- `publish`: the subscribers that were called, and the one whose exception left it.
  unfoldable pub publish : E → List (Subscription E) → List Text × Option Text
  publish event [] = ([], none)
  publish event (s ∷ ss) =
      let (called, raised) = publish event ss in
      if s.raises_for event && s.critical
      then (s.name ∷ [], some s.name)
      else (s.name ∷ called, raised)

  -- A subscriber whose failure stops nothing.
  abbrev pub IsIsolated : E → Subscription E → Type 0
  IsIsolated event s = s.raises_for event && s.critical ≡ false

  pub record Stops (event : E) (ss : List (Subscription E)) (called : List Text) (name : Text)
      : Type 0 where
    pub earlier : List (Subscription E)
    pub culprit : Subscription E
    pub later : List (Subscription E)
    pub split : ss ≡ earlier ++ culprit ∷ later
    pub isolated : All (IsIsolated event) earlier
    pub fails : culprit.raises_for event && culprit.critical ≡ true
    pub named : culprit.name ≡ name
    pub all_before : called ≡ map (λ s. s.name) earlier ++ name ∷ []

  -- What became of an event.
  abbrev pub Delivered : E → List (Subscription E) → List Text × Option Text → Type 0
  Delivered event ss (called, none) = All (IsIsolated event) ss × (called ≡ map (λ s. s.name) ss)
  Delivered event ss (called, some name) = Stops event ss called name

  Delivered-cons :
      (event : E) (s : Subscription E) (ss : List (Subscription E)) (called : List Text)
      (raised : Option Text)
      → IsIsolated event s
      → Delivered event ss (called, raised)
      → Delivered event (s ∷ ss) (s.name ∷ called, raised)
  Delivered-cons event s ss called none isolated d = ((isolated, d.0), ap (λ ns. s.name ∷ ns) d.1)
  Delivered-cons event s ss called (some name) isolated d = record {
    earlier = s ∷ d.earlier;
    culprit = d.culprit;
    later = d.later;
    split = ap (λ xs. s ∷ xs) d.split;
    isolated = (isolated, d.isolated);
    fails = d.fails;
    named = d.named;
    all_before = ap (λ ns. s.name ∷ ns) d.all_before;
  }

  -- An event reaches all subscribers in the order of their subscription, whatever fails among those
  -- that are not critical; where it does not, it has reached all of them up to the first critical one
  -- that fails, and none after it.
  pub publish-Delivered :
      (event : E) (ss : List (Subscription E)) → Delivered event ss (publish event ss)
  unfolding publish
  publish-Delivered event [] = (tt, refl)
  publish-Delivered event (s ∷ ss) =
      if_case (Delivered event (s ∷ ss)) (s.raises_for event && s.critical) _ _
        (λ e. record {
          earlier = [];
          culprit = s;
          later = ss;
          split = refl;
          isolated = tt;
          fails = e;
          named = refl;
          all_before = refl;
        })
        (λ e. Delivered-cons event s ss _ _ e (publish-Delivered event ss))
