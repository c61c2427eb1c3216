-- ===== src/Demo/Records.antt =====
-- services/demo_execution.py: the kill switch, the rows of demo_execution_records and the readings
-- of the broker's answer.
use xauusd_bot.Base.{
  ℕ, ℤ, pos, Bool, false, ◌||◌, Option, none, some, List, [], ◌∷◌, Text, take, ltb, ◌==◌,
  if◌then◌else◌, is_some,
}
use xauusd_bot.Risk.Snapshot.{MarketSnapshot}
use xauusd_bot.Demo.Types.{
  Attribute, absent, malformed, whole, SetupType, pair_zone_rejection, Signal, Intelligence, Api,
  DemoRecord, Control, Desk,
}
use xauusd_bot.Demo.Preflight.{is_blank}

pub data Outcome (R : Type 0) : Type 0 where
  returns : Option (DemoRecord R) → Outcome R
  persistence_fails record_disappeared : Outcome R

abbrev pub is_enabled : Option Control → Bool
is_enabled none = false
is_enabled (some c) = c.enabled

module _ {R : Type 0} where
  -- `demo_execution_armed`
  unfoldable pub demo_execution_armed : Desk R → Bool
  demo_execution_armed desk = is_enabled desk.control

  -- `set_demo_execution_enabled`, which creates the row where there is none.
  unfoldable pub set_demo_execution_enabled :
      Bool → (reason updated_by : Text) → Desk R → Bool × Desk R
  set_demo_execution_enabled enabled reason updated_by desk = (
    enabled,
    record desk {
      control =
          some (record {
            enabled = enabled;
            reason = take 128 reason;
            updated_by = take 64 updated_by;
          });
    },
  )

  -- `_existing`
  unfoldable pub existing : ℕ → List (DemoRecord R) → Option (DemoRecord R)
  existing i [] = none
  existing i (r ∷ rs) = if r.forward_signal_id == i then some r else existing i rs

  -- `session.get(DemoExecutionRecord, record_id)`
  unfoldable pub find_record : ℕ → List (DemoRecord R) → Option (DemoRecord R)
  find_record i [] = none
  find_record i (r ∷ rs) = if r.id == i then some r else find_record i rs

  -- The primary key and `uq_demo_execution_forward_signal`.
  unfoldable pub record_clash : DemoRecord R → List (DemoRecord R) → Bool
  record_clash r rs = is_some (find_record r.id rs) || is_some (existing r.forward_signal_id rs)

  -- `session.add` and `flush`: `none` is an IntegrityError.
  unfoldable pub insert_record : DemoRecord R → Desk R → Option (Desk R)
  insert_record r desk =
      if record_clash r desk.records
      then none
      else some (record desk { records = r ∷ desk.records })

  unfoldable pub update_rows :
      ℕ → (DemoRecord R → DemoRecord R) → List (DemoRecord R) → List (DemoRecord R)
  update_rows i f [] = []
  update_rows i f (r ∷ rs) = (if r.id == i then f r else r) ∷ update_rows i f rs

  unfoldable pub updated :
      ℕ → (DemoRecord R → DemoRecord R) → Option (DemoRecord R) → Desk R → Outcome R × Desk R
  updated i f none desk = (record_disappeared, desk)
  updated i f (some r) desk =
      (returns (some (f r)), record desk { records = update_rows i f desk.records })

  -- `_update`
  unfoldable pub update_record : ℕ → (DemoRecord R → DemoRecord R) → Desk R → Outcome R × Desk R
  update_record i f desk = updated i f (find_record i desk.records) desk

-- `_int_or_none`
unfoldable pub int_or_none : Attribute → Option ℤ
int_or_none absent = none
int_or_none malformed = none
int_or_none (whole n) = some n

abbrev pub positive : Option ℤ → Option ℕ
positive (some (pos n)) = if ltb 0 n then some n else none
positive _ = none

-- `_positive_int_or_none`
unfoldable pub positive_int_or_none : Attribute → Option ℕ
positive_int_or_none a = positive (int_or_none a)

abbrev pub is_code : Option ℕ → ℕ → Bool
is_code none n = false
is_code (some m) n = m == n

-- `retcode in _accepted_ret_codes(api)`
unfoldable pub is_accepted : Option Api → Option ℤ → Bool
is_accepted (some api) (some (pos n)) =
    is_code api.trade_retcode_done n
    || is_code api.trade_retcode_done_partial n
    || is_code api.trade_retcode_placed n
is_accepted _ _ = false

-- "unavailable"
abbrev pub unavailable_text : Text
unavailable_text = 117 ∷ 110 ∷ 97 ∷ 118 ∷ 97 ∷ 105 ∷ 108 ∷ 97 ∷ 98 ∷ 108 ∷ 101 ∷ []

abbrev pub text_or : Option Text → Text → Text
text_or none default = default
text_or (some t) default = if is_blank (some t) then default else t

abbrev pub candidate_of : Option Intelligence → Option Text
candidate_of none = none
candidate_of (some i) = i.candidate_id

abbrev pub session_of : {R : Type 0} → Signal R → Option Intelligence → Option ℕ
session_of signal none = some signal.session_id
session_of signal (some i) = i.forward_session_id

abbrev pub symbol_of : {R : Type 0} → MarketSnapshot R → Option Intelligence → Text
symbol_of s none = s.symbol.name
symbol_of s (some i) = i.symbol

abbrev pub zone_if : SetupType → Option Text → Option Text
zone_if pair_zone_rejection event = event
zone_if _ _ = none
