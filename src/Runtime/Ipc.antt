-- ===== src/Runtime/Ipc.antt =====
-- services/control_ipc.py: the validation of a request, and one request on both sides of the pipe.
use xauusd_bot.Base.{
  unnegated, ◌≡◌, subst, Bool, true, false, not, ◌||◌, Option, none, some, List, [], ◌∷◌, Text,
  is_empty, length, ltb, codes, text_eq, has_text, if◌then◌else◌, if_case, Dict, dict_get,
}

-- A value of the message: a text or anything else.
pub data Value : Type 0 where
  text : Text → Value
  other_value : Value

pub data Message : Type 0 where
  object : Dict Value → Message
  no_object : Message

-- The messages of ControlIpcError.
pub data IpcError : Type 0 where
  not_an_object unknown_field invalid_types not_a_uuid not_allowlisted invalid_actor : IpcError

pub record IpcRequest : Type 0 where
  pub operation_id : Text
  pub command : Text
  pub actor : Text

pub data Validation : Type 0 where
  valid : IpcRequest → Validation
  refused : IpcError → Validation

-- `CONTROL_COMMANDS`
unfoldable pub control_commands : List Text
control_commands =
    codes "status"
    ∷ codes "start"
    ∷ codes "stop"
    ∷ codes "restart"
    ∷ codes "demo_status"
    ∷ codes "demo_on"
    ∷ codes "demo_off"
    ∷ []

unfoldable pub allowed_fields : List Text
allowed_fields = codes "operation_id" ∷ codes "command" ∷ codes "actor" ∷ []

unfoldable pub has_unknown_field : Dict Value → Bool
has_unknown_field [] = false
has_unknown_field ((key, value) ∷ fields) =
    not (has_text key allowed_fields) || has_unknown_field fields

-- `message.get("actor", "web")`
unfoldable pub actor_of : Option Value → Value
actor_of none = text (codes "web")
actor_of (some v) = v

-- The dictionary that is returned, as a message.
unfoldable pub message_of : IpcRequest → Message
message_of r = object (
    (codes "operation_id", text r.operation_id)
    ∷ (codes "command", text r.command)
    ∷ (codes "actor", text r.actor)
    ∷ [])

-- `MUTATING_CONTROL_COMMANDS`
unfoldable pub mutating_control_commands : List Text
mutating_control_commands =
    codes "start" ∷ codes "stop" ∷ codes "restart" ∷ codes "demo_on" ∷ codes "demo_off" ∷ []

module _ (is_uuid : Text → Bool) where
  unfoldable pub check_actor : (operation_id command : Text) → Value → Validation
  check_actor operation_id command other_value = refused invalid_actor
  check_actor operation_id command (text actor) =
      if is_empty actor || ltb 128 (length actor)
      then refused invalid_actor
      else valid (record { operation_id = operation_id; command = command; actor = actor })

  unfoldable pub check_fields : Option Value → Option Value → Value → Validation
  check_fields (some (text operation_id)) (some (text command)) actor =
      if not (is_uuid operation_id)
      then refused not_a_uuid
      else if not (has_text command control_commands)
      then refused not_allowlisted
      else check_actor operation_id command actor
  check_fields _ _ actor = refused invalid_types

  -- `validate_ipc_request`; `is_uuid` is whether UUID() takes the text.
  unfoldable pub validate_ipc_request : Message → Validation
  validate_ipc_request no_object = refused not_an_object
  validate_ipc_request (object fields) =
      if has_unknown_field fields
      then refused unknown_field
      else check_fields (dict_get (codes "operation_id") fields) (dict_get (codes "command") fields)
          (actor_of (dict_get (codes "actor") fields))

  -- What a valid request satisfies.
  pub record IsValidRequest (r : IpcRequest) : Type 0 where
    pub uuid : is_uuid r.operation_id ≡ true
    pub listed : has_text r.command control_commands ≡ true
    pub named : is_empty r.actor || ltb 128 (length r.actor) ≡ false

  abbrev IfValid : Validation → Type 0
  IfValid (valid r) = IsValidRequest r
  IfValid (refused e) = Unit

  check_actor-valid :
      (operation_id command : Text) (actor : Value)
      → is_uuid operation_id ≡ true
      → has_text command control_commands ≡ true
      → IfValid (check_actor operation_id command actor)
  unfolding check_actor
  check_actor-valid operation_id command other_value u l = tt
  check_actor-valid operation_id command (text actor) u l =
      if_case IfValid (is_empty actor || ltb 128 (length actor)) _ _ (λ e. tt)
        (λ e. record { uuid = u; listed = l; named = e })

  check_fields-valid : (o c : Option Value) (actor : Value) → IfValid (check_fields o c actor)
  unfolding check_fields
  check_fields-valid none c actor = tt
  check_fields-valid (some other_value) c actor = tt
  check_fields-valid (some (text o)) none actor = tt
  check_fields-valid (some (text o)) (some other_value) actor = tt
  check_fields-valid (some (text o)) (some (text c)) actor =
      if_case IfValid (not (is_uuid o)) _ _ (λ e. tt)
        (λ u.
          if_case IfValid (not (has_text c control_commands)) _ _ (λ e. tt)
            (λ l. check_actor-valid o c actor (unnegated _ u) (unnegated _ l)))

  validate-IfValid : (m : Message) → IfValid (validate_ipc_request m)
  unfolding validate_ipc_request
  validate-IfValid no_object = tt
  validate-IfValid (object fields) =
      if_case IfValid (has_unknown_field fields) _ _ (λ e. tt) (λ e. check_fields-valid _ _ _)

  validate-message_of :
      (r : IpcRequest) → IsValidRequest r → validate_ipc_request (message_of r) ≡ valid r
  unfolding validate_ipc_request message_of has_unknown_field allowed_fields has_text text_eq
      dict_get actor_of check_fields check_actor
  validate-message_of r v = rw (v.uuid, v.listed, v.named)

  -- A request that one side of the pipe has validated is accepted by the other side without a change,
  -- and its command is one of the fixed commands, its id a UUID and its actor a text of 1 to 128
  -- characters.
  pub validated_is_valid :
      (m : Message) (r : IpcRequest)
      → validate_ipc_request m ≡ valid r
      → (validate_ipc_request (message_of r) ≡ valid r) × IsValidRequest r
  validated_is_valid m r h =
      let v = subst IfValid h (validate-IfValid m) in (validate-message_of r v, v)
