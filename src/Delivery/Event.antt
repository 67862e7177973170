-- ===== src/Delivery/Event.antt =====
-- The events of app/brain/delivery_status.py and their keys.
use orvo_agent.Base.{String, Option, none, some, [], ◌∷◌, ◌<>◌}
use orvo_agent.Value.{Value, Fields, dict, str, fields_of}
use orvo_agent.Platform.{text_or_null}

-- `str` of a value, `json.dumps(..., sort_keys=True)` and `json.loads`, which is none where it raises
pub record DeliveryHost : Type 0 where
  pub text_of : Value → String
  pub dumps : Value → String
  pub loads : String → Option Value

abbrev pub meta_provider : String
meta_provider = "meta_cloud"

-- `WhatsAppDeliveryStatusEvent`, with `raw` after its validator
pub record WhatsAppDeliveryStatusEvent : Type 0 where
  pub provider : String
  pub message_id : String
  pub status : String
  pub status_timestamp : Option String
  pub recipient_id : Option String
  pub business_id : Option String
  pub raw : Fields

-- `timestamp or ''`
abbrev pub or_empty : Option String → String
or_empty none = ""
or_empty (some s) = s

unfoldable pub build_event_key : String → String → String → Option String → String
build_event_key provider message_id status timestamp =
    provider <> "|" <> message_id <> "|" <> status <> "|" <> or_empty timestamp

unfoldable pub event_key : WhatsAppDeliveryStatusEvent → String
unfolding build_event_key
event_key e = build_event_key e.provider e.message_id e.status e.status_timestamp

-- `model_dump(mode="json")`
unfoldable pub event_dump : WhatsAppDeliveryStatusEvent → Value
event_dump e = dict (
    fields_of (
      ("provider", str e.provider)
      ∷ ("message_id", str e.message_id)
      ∷ ("status", str e.status)
      ∷ ("status_timestamp", text_or_null e.status_timestamp)
      ∷ ("recipient_id", text_or_null e.recipient_id)
      ∷ ("business_id", text_or_null e.business_id)
      ∷ ("raw", dict e.raw)
      ∷ []))
