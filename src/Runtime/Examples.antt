-- ===== src/Runtime/Examples.antt =====
-- events/bus.py and services/control_ipc.py: an event with a subscriber that fails, and a request.
use xauusd_bot.Base.{
  ◌≡◌, refl, Bool, true, false, List, [], ◌∷◌, Text, codes, text_eq, has_text, dict_get,
}
use xauusd_bot.Runtime.Bus.{Subscription, publish, Delivered, publish-Delivered}
use xauusd_bot.Runtime.Ipc.{
  text, Message, object, IpcRequest, valid, control_commands, allowed_fields, has_unknown_field,
  actor_of, check_actor, check_fields, validate_ipc_request, message_of, IsValidRequest,
  validated_is_valid,
}

abbrev subscriber : Text → Bool → Bool → Subscription Bool
subscriber name fails critical = record {
  name = name;
  raises_for = λ event. fails;
  critical = critical;
}

abbrev subscribers : List (Subscription Bool)
subscribers =
    subscriber (codes "log") true false
    ∷ subscriber (codes "store") true true
    ∷ subscriber (codes "chat") false false
    ∷ []

publish-Delivered_example : Delivered true subscribers (publish true subscribers)
publish-Delivered_example = publish-Delivered true subscribers

abbrev is_uuid : Text → Bool
is_uuid t = text_eq t (codes "id")

abbrev stop_message : Message
stop_message =
    object ((codes "command", text (codes "stop")) ∷ (codes "operation_id", text (codes "id")) ∷ [])

abbrev stop_request : IpcRequest
stop_request = record { operation_id = codes "id"; command = codes "stop"; actor = codes "web" }

validated_is_valid_example :
    (validate_ipc_request is_uuid (message_of stop_request) ≡ valid stop_request)
    × IsValidRequest is_uuid stop_request
unfolding control_commands allowed_fields has_unknown_field actor_of check_actor check_fields
    validate_ipc_request has_text text_eq dict_get
validated_is_valid_example = validated_is_valid is_uuid stop_message stop_request refl
