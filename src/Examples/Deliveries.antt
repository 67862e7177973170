-- ===== src/Examples/Deliveries.antt =====
-- The theorem on retried delivery events on a concrete webhook payload.
use orvo_agent.Delivery.Reported.{parse_meta_status_payload-IsReported}
use orvo_agent.Delivery.Statuses.{InPayload, IsEventOf}
use orvo_agent.Base.Membership.{In}
use orvo_agent.Base.{◌↔◌, String, none, some, List, [], ◌∷◌, ◌≡◌, refl, inl, string_eq, length}
use orvo_agent.Value.{Fields, Value, end, nil, cons, str, list, dict, field}
use orvo_agent.Delivery.Event.{WhatsAppDeliveryStatusEvent, DeliveryHost}
use orvo_agent.Delivery.Webhook.{parse_meta_status_payload}
use orvo_agent.Delivery.Store.{record_events}
use orvo_agent.Delivery.Again.{record_events-again}
use orvo_agent.Examples.Data.{example_redactor}

abbrev host : DeliveryHost
host = record { text_of = λ v. "1700000000"; dumps = λ v. "{}"; loads = λ s. some (dict end) }

abbrev listed : String → Value → Value
listed k v = dict (field k (list (cons v nil)) end)

abbrev payload : Value
payload = listed "entry" (
    listed "changes" (
      dict (
        field "value"
          (listed "statuses" (dict (field "id" (str "m1") (field "status" (str "read") end))))
          end)))

abbrev read_event : WhatsAppDeliveryStatusEvent
read_event = record {
  provider = "meta_cloud";
  message_id = "m1";
  status = "read";
  status_timestamp = none;
  recipient_id = none;
  business_id = none;
  raw = end;
}

parsed : length (parse_meta_status_payload host example_redactor payload) ≡ 1
unfolding parse_meta_status_payload string_eq
parsed = refl

abbrev first_time : List (String × WhatsAppDeliveryStatusEvent)
first_time = ("10:00", read_event) ∷ []

abbrev retried : List (String × WhatsAppDeliveryStatusEvent)
retried = ("10:05", read_event) ∷ ("10:06", read_event) ∷ []

record_events-again_example :
    record_events host retried (record_events host first_time []).1
    ≡ (length retried, (record_events host first_time []).1)
record_events-again_example =
    record_events-again host first_time retried [] (inl refl, (inl refl, tt))

parse_meta_status_payload-IsReported_example :
    In read_event (parse_meta_status_payload host example_redactor payload)
    ↔ ((s : Fields) × InPayload s payload × IsEventOf host example_redactor s read_event)
parse_meta_status_payload-IsReported_example =
    parse_meta_status_payload-IsReported host example_redactor payload read_event
