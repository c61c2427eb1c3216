-- ===== src/Demo/Steps.antt =====
-- What one call of `execute` may do: nothing that the broker sees, or one order past every gate.
use xauusd_bot.Base.{
  ◌≡◌, ◌⊎◌, refl, false≢true, sym, Bool, true, false, not, ◌||◌, Option, none, some, ◌∷◌,
  if◌then◌else◌, is_some, Bool-cases, inl, inr,
}
use xauusd_bot.Risk.Floats.{Floats}
use xauusd_bot.Demo.Types.{
  Evidence, Request, DemoRecord, Desk, DemoSettings, DemoLibrary, preflight_error,
}
use xauusd_bot.Demo.Preflight.{Preflight, passed, refused, raised}
use xauusd_bot.Demo.Records.{
  Outcome, returns, is_enabled, demo_execution_armed, existing, insert_record,
}
use xauusd_bot.Demo.Service.{
  Turn, candidate_row, switched_off, submit, inserted_pending, persist_pending, execute_after,
  decided, meanwhile, preflight, execute,
}
use xauusd_bot.Demo.Rows.{
  Keeps, Silent, existing-++, update_record-Silent, sent-Silent, row-Keeps, row_found,
  insert_record-cases, persist_rejection-Silent,
}

both_on : (a b : Bool) → not a || not b ≡ false → (a ≡ true) × (b ≡ true)
both_on true true h = (refl, refl)
both_on true false h = absurd (false≢true (sym h))
both_on false b h = absurd (false≢true (sym h))

module _ {R : Type 0} where
  -- The broker got the order `request`, and the signal has a row.
  pub record Sends (turn : Turn R) (request : Request R) (desk t : Desk R) : Type 0 where
    pub order : t.sent ≡ (turn.signal.id, request) ∷ desk.sent
    pub keeps : Keeps desk.records t.records
    pub armed : is_enabled desk.control ≡ true
    pub has_row : is_some (existing turn.signal.id t.records) ≡ true

  module _ (turn : Turn R) where
    -- Past the insertion of a row for the signal.
    submit-Step :
        (request : Request R) (desk : Desk R)
        → is_some (existing turn.signal.id desk.records) ≡ true
        → Silent desk (submit turn request desk).1
          ⊎ Sends turn request desk (submit turn request desk).1
    unfolding submit switched_off demo_execution_armed
    submit-Step request desk row = elim (Bool-cases (is_enabled desk.control)) [
      | inl e ↦
          let next : Desk R = record desk { sent = (turn.signal.id, request) ∷ desk.sent } in
          let quiet = sent-Silent turn turn.sending next in
          inr (
            rw e (record {
              order = quiet.unsent;
              keeps = quiet.keeps;
              armed = e;
              has_row = quiet.keeps turn.signal.id row;
            }))
      | inr e ↦ inl (rw e (update_record-Silent _ _ desk (λ r. refl)))
    ]

    Sends-insert :
        (request : Request R) (row : DemoRecord R) (desk t : Desk R)
        → Sends turn request (record desk { records = row ∷ desk.records }) t
        → Sends turn request desk t
    Sends-insert request row desk t s = record {
      order = s.order;
      keeps = λ i h. s.keeps i (row-Keeps turn row desk.records i h);
      armed = s.armed;
      has_row = s.has_row;
    }

    Silent-insert :
        (row : DemoRecord R) (desk t : Desk R)
        → Silent (record desk { records = row ∷ desk.records }) t
        → Silent desk t
    Silent-insert row desk t s = record {
      unsent = s.unsent;
      keeps = λ i h. s.keeps i (row-Keeps turn row desk.records i h);
    }

    inserted_pending-Step :
        (request : Request R) (row : DemoRecord R) (desk : Desk R)
        → row.forward_signal_id ≡ turn.signal.id
        → Silent desk (inserted_pending turn request desk (insert_record row desk)).1
          ⊎ Sends turn request desk (inserted_pending turn request desk (insert_record row desk)).1
    unfolding inserted_pending
    inserted_pending-Step request row desk same = elim (insert_record-cases turn row desk) [
      | inl e ↦ inl (rw e (record { unsent = refl; keeps = λ j h. h }))
      | inr e ↦
          rw e
            (elim (submit-Step request (record desk { records = row ∷ desk.records })
              (row_found turn row desk.records same)) [
                | inl quiet ↦ inl (Silent-insert row desk _ quiet)
                | inr order ↦ inr (Sends-insert request row desk _ order)
              ])
    ]

    persist_pending-Step :
        (request : Request R) (percent : R) (evidence : Evidence R) (desk : Desk R)
        → Silent desk (persist_pending turn request percent evidence desk).1
          ⊎ Sends turn request desk (persist_pending turn request percent evidence desk).1
    unfolding persist_pending candidate_row
    persist_pending-Step request percent evidence desk = inserted_pending-Step request _ desk refl

  -- An order that a call of `execute` has handed to the broker: every gate let it through, the kill
  -- switch was armed at both looks, and no earlier row was there.
  pub record Submission (F : Floats R) (lib : DemoLibrary) (cfg : DemoSettings R) (turn : Turn R)
      (desk t : Desk R) : Type 0 where
    pub request : Request R
    pub risk_percent : R
    pub evidence : Evidence R
    pub checked : preflight F lib cfg turn ≡ passed (request, risk_percent, evidence)
    pub enabled : cfg.demo_execution_enabled ≡ true
    pub armed : demo_execution_armed desk ≡ true
    pub armed_then : is_enabled turn.control_then ≡ true
    pub first : existing turn.signal.id desk.records ≡ none
    pub order : t.sent ≡ (turn.signal.id, request) ∷ desk.sent
    pub keeps : Keeps desk.records t.records
    pub has_row : is_some (existing turn.signal.id t.records) ≡ true

  meanwhile-Silent :
      (turn : Turn R) (desk t : Desk R) → Silent (meanwhile turn desk) t → Silent desk t
  unfolding meanwhile
  meanwhile-Silent turn desk t s = record {
    unsent = s.unsent;
    keeps = λ i h. s.keeps i (existing-++ i turn.other_rows desk.records h);
  }

  module _ (F : Floats R) (lib : DemoLibrary) (cfg : DemoSettings R) (turn : Turn R)
      (desk : Desk R) where
    -- Either nothing is sent, or the order has passed everything.
    abbrev pub Step : Desk R → Type 0
    Step t = Silent desk t ⊎ Submission F lib cfg turn desk t

    decided-Step :
        (outcome : Preflight R (Request R × R × Evidence R))
        → preflight F lib cfg turn ≡ outcome
        → cfg.demo_execution_enabled ≡ true
        → demo_execution_armed desk ≡ true
        → existing turn.signal.id desk.records ≡ none
        → Step (decided turn outcome (meanwhile turn desk)).1
    unfolding decided meanwhile
    decided-Step (refused reason evidence) e on armed first =
        inl (meanwhile-Silent turn desk _ (persist_rejection-Silent turn reason evidence _))
    decided-Step raised e on armed first =
        inl (meanwhile-Silent turn desk _ (persist_rejection-Silent turn preflight_error none _))
    decided-Step (passed (request, percent, evidence)) e on armed first =
        elim (persist_pending-Step turn request percent evidence (meanwhile turn desk)) [
          | inl quiet ↦ inl (meanwhile-Silent turn desk _ quiet)
          | inr s ↦ inr (record {
            request = request;
            risk_percent = percent;
            evidence = evidence;
            checked = e;
            enabled = on;
            armed = armed;
            armed_then = s.armed;
            first = first;
            order = s.order;
            keeps = λ i h. s.keeps i (existing-++ i turn.other_rows desk.records h);
            has_row = s.has_row;
          })
        ]

    execute_after-Step :
        (found : Option (DemoRecord R))
        → cfg.demo_execution_enabled ≡ true
        → demo_execution_armed desk ≡ true
        → existing turn.signal.id desk.records ≡ found
        → Step (execute_after F lib cfg turn desk found).1
    unfolding execute_after
    execute_after-Step (some r) on armed e = inl (record { unsent = refl; keeps = λ j h. h })
    execute_after-Step none on armed e = decided-Step (preflight F lib cfg turn) refl on armed e

    if-Step :
        (b : Bool) (x y : Outcome R × Desk R)
        → (b ≡ true → Step x.1)
        → (b ≡ false → Step y.1)
        → Step (if◌then◌else◌ {A = Outcome R × Desk R} b x y).1
    if-Step true x y h k = h refl
    if-Step false x y h k = k refl

    -- A call of `execute` sends nothing to the broker, or it sends one order of its signal: then the
    -- preflight passed with this request, execution was enabled, the kill switch was armed before
    -- and after the preflight, and the signal had no row and has one now. Signals that have a row
    -- keep one.
    pub execute-Step : Step (execute F lib cfg turn desk).1
    unfolding execute
    execute-Step =
        if-Step _ (returns none, desk) _ (λ _. inl (record { unsent = refl; keeps = λ j h. h }))
          (λ open_. let (on, armed) = both_on _ _ open_ in execute_after-Step _ on armed refl)
