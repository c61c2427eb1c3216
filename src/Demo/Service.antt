-- ===== src/Demo/Service.antt =====
-- services/demo_execution.py: the kill switch, and the submission of one signal at most once.
use xauusd_bot.Base.{
  ℕ, Bool, not, ◌||◌, Option, none, some, List, [], ◌∷◌, ◌++◌, Text, take, if◌then◌else◌, is_some,
}
use xauusd_bot.Risk.Floats.{Floats}
use xauusd_bot.Risk.Snapshot.{MarketSnapshot}
use xauusd_bot.Demo.Types.{
  Status, pending, rejected, indeterminate, acknowledged, Rejection, preflight_error,
  kill_switch_disabled_before_order, order_send_error, broker_rejected,
  broker_acceptance_without_ticket, Signal, Intelligence, Evidence, Request, BrokerResult, Api,
  DemoRecord, Control, Desk, DemoSettings, DemoLibrary, Reading, Sending, send_raises, answers,
}
use xauusd_bot.Demo.Preflight.{
  Preflight, passed, refused, raised, ◌>>=◌, ◌>>◌, setup_type_of, validate_provenance,
  read_current_state,
}
use xauusd_bot.Demo.Request.{build_request}
use xauusd_bot.Demo.Records.{
  Outcome, returns, persistence_fails, demo_execution_armed, existing, insert_record, update_record,
  int_or_none, positive_int_or_none, is_accepted, unavailable_text, text_or, candidate_of,
  session_of, symbol_of, zone_if,
}

-- One call of `execute`: its arguments, the answers of the terminal, and what other tasks and
-- processes commit between the look for an earlier row and the writing of one.
pub record Turn (R : Type 0) : Type 0 where
  pub signal : Signal R
  pub decision : Option Text
  pub snapshot : MarketSnapshot R
  pub intelligence : Option Intelligence
  pub reading : Reading R
  pub api : Option Api
  pub record_id : ℕ
  pub other_rows : List (DemoRecord R)
  pub control_then : Option Control
  pub sending : Sending
  pub now : ℕ

module _ {R : Type 0} (turn : Turn R) where
  unfoldable pub candidate_id : Text
  candidate_id =
      text_or (candidate_of turn.intelligence) (text_or turn.signal.setup_event_id unavailable_text)

  -- The row that `_insert_record` adds.
  unfoldable pub candidate_row :
      (session : Option ℕ)
      → Status
      → Option Rejection
      → Option (Request R)
      → (volume risk_percent : Option R) → Option (Evidence R)
      → DemoRecord R
  candidate_row session status reason request volume risk_percent evidence = record {
    id = turn.record_id;
    forward_signal_id = turn.signal.id;
    forward_session_id = session;
    intelligence_candidate_id = candidate_id;
    pair_zone_event_id = zone_if (setup_type_of turn.signal) turn.signal.zone_id;
    setup_type = setup_type_of turn.signal;
    setup_event_id = turn.signal.setup_event_id;
    symbol = symbol_of turn.snapshot turn.intelligence;
    direction = turn.signal.decision;
    status = status;
    rejection_reason = reason;
    planned_entry = turn.signal.entry_price;
    submitted_entry = elim request [ none ↦ none | some q ↦ some q.price ];
    stop_loss = turn.signal.stop_loss;
    take_profit = turn.signal.take_profit;
    volume = volume;
    risk_percent = risk_percent;
    evidence = evidence;
    request = request;
    result = none;
    broker_retcode = none;
    broker_order_ticket = none;
    broker_deal_ticket = none;
    broker_position_ticket = none;
    broker_comment = none;
    submitted_at = none;
    acknowledged_at = none;
  }

  -- The row that has won the race for the signal.
  unfoldable pub winner : Option (DemoRecord R) → Outcome R
  winner (some r) = returns (some r)
  winner none = persistence_fails

  unfoldable pub inserted_rejection : DemoRecord R → Desk R → Option (Desk R) → Outcome R × Desk R
  inserted_rejection row desk (some next) = (returns (some row), next)
  inserted_rejection row desk none = (winner (existing turn.signal.id desk.records), desk)

  unfoldable pub rejection_after :
      DemoRecord R → Desk R → Option (DemoRecord R) → Outcome R × Desk R
  rejection_after row desk (some r) = (returns (some r), desk)
  rejection_after row desk none = inserted_rejection row desk (insert_record row desk)

  -- `_persist_rejection`
  unfoldable pub persist_rejection : Rejection → Option (Evidence R) → Desk R → Outcome R × Desk R
  persist_rejection reason evidence desk =
      rejection_after
        (candidate_row (session_of turn.signal turn.intelligence) rejected (some reason) none none
          none evidence)
        desk (existing turn.signal.id desk.records)

  -- What `_record_broker_result` writes.
  unfoldable pub broker_rejects : BrokerResult → DemoRecord R → DemoRecord R
  broker_rejects result r = record r {
    status = rejected;
    rejection_reason = some broker_rejected;
    broker_retcode = int_or_none result.retcode;
    result = some result;
    broker_order_ticket = positive_int_or_none result.order;
    broker_deal_ticket = positive_int_or_none result.deal;
    broker_position_ticket = positive_int_or_none result.position;
    broker_comment = some (take 255 result.comment);
    submitted_at = some turn.now;
  }

  unfoldable pub broker_unclear : BrokerResult → DemoRecord R → DemoRecord R
  broker_unclear result r = record r {
    status = indeterminate;
    rejection_reason = some broker_acceptance_without_ticket;
    broker_retcode = int_or_none result.retcode;
    result = some result;
    submitted_at = some turn.now;
  }

  unfoldable pub broker_acknowledges : BrokerResult → DemoRecord R → DemoRecord R
  broker_acknowledges result r = record r {
    status = acknowledged;
    broker_retcode = int_or_none result.retcode;
    result = some result;
    broker_order_ticket = positive_int_or_none result.order;
    broker_deal_ticket = positive_int_or_none result.deal;
    broker_position_ticket = positive_int_or_none result.position;
    broker_comment = some (take 255 result.comment);
    submitted_at = some turn.now;
    acknowledged_at = some turn.now;
  }

  unfoldable pub has_ticket : BrokerResult → Bool
  has_ticket result =
      is_some (positive_int_or_none result.order)
      || is_some (positive_int_or_none result.deal)
      || is_some (positive_int_or_none result.position)

  -- `_record_broker_result`
  unfoldable pub record_broker_result : BrokerResult → Desk R → Outcome R × Desk R
  record_broker_result result = update_record turn.record_id (
      if not (is_accepted turn.api (int_or_none result.retcode))
      then broker_rejects result
      else if not (has_ticket result)
      then broker_unclear result
      else broker_acknowledges result)

  unfoldable pub send_failed : DemoRecord R → DemoRecord R
  send_failed r = record r {
    status = indeterminate;
    rejection_reason = some order_send_error;
    submitted_at = some turn.now;
  }

  unfoldable pub sent : Sending → Desk R → Outcome R × Desk R
  sent send_raises = update_record turn.record_id send_failed
  sent (answers result) = record_broker_result result

  unfoldable pub switched_off : DemoRecord R → DemoRecord R
  switched_off r = record r {
    status = rejected;
    rejection_reason = some kill_switch_disabled_before_order;
  }

  -- From the second look at the kill switch on.
  unfoldable pub submit : Request R → Desk R → Outcome R × Desk R
  submit request desk =
      if not (demo_execution_armed desk)
      then update_record turn.record_id switched_off desk
      else sent turn.sending (record desk { sent = (turn.signal.id, request) ∷ desk.sent })

  unfoldable pub inserted_pending : Request R → Desk R → Option (Desk R) → Outcome R × Desk R
  inserted_pending request desk (some next) = submit request next
  inserted_pending request desk none = (winner (existing turn.signal.id desk.records), desk)

  -- `_persist_pending` and what follows it.
  unfoldable pub persist_pending : Request R → R → Evidence R → Desk R → Outcome R × Desk R
  persist_pending request risk_percent evidence desk = inserted_pending request desk (
      insert_record
        (candidate_row (some turn.signal.session_id) pending none (some request)
          (some request.volume) (some risk_percent) (some evidence))
        desk)

  unfoldable pub decided : Preflight R (Request R × R × Evidence R) → Desk R → Outcome R × Desk R
  decided (passed (request, risk_percent, evidence)) = persist_pending request risk_percent evidence
  decided (refused reason evidence) = persist_rejection reason evidence
  decided raised = persist_rejection preflight_error none

  -- What other tasks and processes have committed in the meantime.
  unfoldable pub meanwhile : Desk R → Desk R
  meanwhile desk = record desk {
    control = turn.control_then;
    records = turn.other_rows ++ desk.records;
  }

module _ {R : Type 0} (F : Floats R) (lib : DemoLibrary) (cfg : DemoSettings R) where
  -- Everything before the order is written down.
  unfoldable pub preflight : Turn R → Preflight R (Request R × R × Evidence R)
  preflight turn = do
    validate_provenance turn.signal turn.intelligence
    (current, risk, filling_modes) ←
        read_current_state F lib cfg turn.signal turn.snapshot turn.reading
    build_request F lib cfg turn.api turn.signal turn.decision current risk filling_modes
        (symbol_of turn.snapshot turn.intelligence)

  unfoldable pub execute_after : Turn R → Desk R → Option (DemoRecord R) → Outcome R × Desk R
  execute_after turn desk (some r) = (returns (some r), desk)
  execute_after turn desk none = decided turn (preflight turn) (meanwhile turn desk)

  -- `execute`, of which the notifications are left out: they change nothing and do not fail.
  unfoldable pub execute : Turn R → Desk R → Outcome R × Desk R
  execute turn desk =
      if not cfg.demo_execution_enabled || not (demo_execution_armed desk)
      then (returns none, desk)
      else execute_after turn desk (existing turn.signal.id desk.records)

  unfoldable pub execute_all : List (Turn R) → Desk R → Desk R
  execute_all [] desk = desk
  execute_all (t ∷ ts) desk = execute_all ts (execute t desk).1
