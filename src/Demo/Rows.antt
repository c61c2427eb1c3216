-- ===== src/Demo/Rows.antt =====
-- services/demo_execution.py: the writes that the broker does not see keep a row for every signal
-- that has one.
use xauusd_bot.Base.{
  ℕ, ◌≡◌, ◌⊎◌, refl, ◌∙◌, true, Option, none, some, List, [], ◌∷◌, ◌++◌, is_some, arith, Bool-cases,
  inl, inr,
}
use xauusd_bot.Demo.Types.{
  Rejection, Evidence, BrokerResult, DemoRecord, Desk, Sending, send_raises, answers,
}
use xauusd_bot.Demo.Records.{
  existing, find_record, record_clash, insert_record, update_rows, updated, update_record,
}
use xauusd_bot.Demo.Service.{
  Turn, inserted_rejection, persist_rejection, broker_rejects, broker_unclear, broker_acknowledges,
  record_broker_result, send_failed, sent, rejection_after,
}

-- A signal that has a row keeps one.
abbrev pub Keeps : {R : Type 0} → List (DemoRecord R) → List (DemoRecord R) → Type 0
Keeps before after =
    (i : ℕ) → is_some (existing i before) ≡ true → is_some (existing i after) ≡ true

module _ {R : Type 0} where
  -- The broker saw nothing.
  pub record Silent (desk t : Desk R) : Type 0 where
    pub unsent : t.sent ≡ desk.sent
    pub keeps : Keeps desk.records t.records

  existing-update_rows :
      (f : DemoRecord R → DemoRecord R)
      → ((r : DemoRecord R) → (f r).forward_signal_id ≡ r.forward_signal_id)
      → (i j : ℕ) (rs : List (DemoRecord R))
      → is_some (existing i (update_rows j f rs)) ≡ is_some (existing i rs)
  unfolding existing update_rows
  existing-update_rows f same i j [] = refl
  existing-update_rows f same i j (r ∷ rs) =
      ground (arith, same r, existing-update_rows f same i j rs)

  pub existing-++ :
      (i : ℕ) (others rs : List (DemoRecord R))
      → is_some (existing i rs) ≡ true
      → is_some (existing i (others ++ rs)) ≡ true
  unfolding existing
  existing-++ i [] rs h = h
  existing-++ i (o ∷ os) rs h = ground (arith, existing-++ i os rs h)

  updated-Silent :
      (i : ℕ) (f : DemoRecord R → DemoRecord R) (found : Option (DemoRecord R)) (desk : Desk R)
      → ((r : DemoRecord R) → (f r).forward_signal_id ≡ r.forward_signal_id)
      → Silent desk (updated i f found desk).1
  unfolding updated
  updated-Silent i f none desk same = record { unsent = refl; keeps = λ j h. h }
  updated-Silent i f (some r) desk same = record {
    unsent = refl;
    keeps = λ j h. existing-update_rows f same j i desk.records ∙ h;
  }

  pub update_record-Silent :
      (i : ℕ) (f : DemoRecord R → DemoRecord R) (desk : Desk R)
      → ((r : DemoRecord R) → (f r).forward_signal_id ≡ r.forward_signal_id)
      → Silent desk (update_record i f desk).1
  unfolding update_record
  update_record-Silent i f desk same = updated-Silent i f (find_record i desk.records) desk same

  module _ (turn : Turn R) where
    record_broker_result-Silent :
        (result : BrokerResult) (desk : Desk R)
        → Silent desk (record_broker_result turn result desk).1
    unfolding record_broker_result broker_rejects broker_unclear broker_acknowledges
    record_broker_result-Silent result desk = update_record-Silent _ _ desk (λ r. ground arith)

    pub sent-Silent : (sending : Sending) (desk : Desk R) → Silent desk (sent turn sending desk).1
    unfolding sent send_failed
    sent-Silent send_raises desk = update_record-Silent _ _ desk (λ r. refl)
    sent-Silent (answers result) desk = record_broker_result-Silent result desk

    pub row-Keeps : (row : DemoRecord R) (rs : List (DemoRecord R)) → Keeps rs (row ∷ rs)
    unfolding existing
    row-Keeps row rs i h = ground arith

    pub row_found :
        (row : DemoRecord R) (rs : List (DemoRecord R))
        → row.forward_signal_id ≡ turn.signal.id
        → is_some (existing turn.signal.id (row ∷ rs)) ≡ true
    unfolding existing
    row_found row rs same = ground arith

    pub insert_record-cases :
        (row : DemoRecord R) (desk : Desk R)
        → (insert_record row desk ≡ none)
          ⊎ (insert_record row desk ≡ some (record desk { records = row ∷ desk.records }))
    unfolding insert_record
    insert_record-cases row desk = elim (Bool-cases (record_clash row desk.records)) [
      | inl e ↦ inl (rw e refl)
      | inr e ↦ inr (rw e refl)
    ]

    rejection-Silent :
        (row : DemoRecord R) (desk : Desk R)
        → Silent desk (inserted_rejection turn row desk (insert_record row desk)).1
    unfolding inserted_rejection
    rejection-Silent row desk = elim (insert_record-cases row desk) [
      | inl e ↦ rw e (record { unsent = refl; keeps = λ j h. h })
      | inr e ↦ rw e (record { unsent = refl; keeps = row-Keeps row desk.records })
    ]

    rejection_after-Silent :
        (row : DemoRecord R) (desk : Desk R) (found : Option (DemoRecord R))
        → Silent desk (rejection_after turn row desk found).1
    unfolding rejection_after
    rejection_after-Silent row desk none = rejection-Silent row desk
    rejection_after-Silent row desk (some r) = record { unsent = refl; keeps = λ j h. h }

    pub persist_rejection-Silent :
        (reason : Rejection) (evidence : Option (Evidence R)) (desk : Desk R)
        → Silent desk (persist_rejection turn reason evidence desk).1
    unfolding persist_rejection
    persist_rejection-Silent reason evidence desk = rejection_after-Silent _ desk _
