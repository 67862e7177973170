-- ===== src/Dispatch.antt =====
-- Sending a report once: app/brain/dispatch.py, with `truncate_for_whatsapp` of
-- app/brain/reporting.py. The delivery client is a parameter; `sends` lists what it was asked so far.
pub mod Once
use orvo_agent.Base.{
  ◌<>◌, string_eq, ◌-◌, none, some, contains, not, leb, if◌then◌else◌, Option, List, String, Bool,
  [], ◌∷◌,
}
use orvo_agent.Base.Text.{len, text_prefix}

pub record DeliveryResult : Type 0 where
  pub success : Bool
  pub message_id : Option String
  pub error : Option String

pub data DispatchStatus : Type 0 where
  sent failed skipped_duplicate : DispatchStatus

pub record ReportDispatchResult : Type 0 where
  pub status : DispatchStatus
  pub idempotency_key : String
  pub delivery : Option DeliveryResult
  pub error : Option String

-- The keys of `InMemoryIdempotencyStore`, and the calls of the client with the key they were made for.
pub record Outbox : Type 0 where
  pub keys : List String
  pub sends : List (String × DeliveryResult)

abbrev pub suffix : String
suffix = "... (ver reporte completo)"

-- `truncate_for_whatsapp`, with `max_chars` at its default
unfoldable pub truncate_for_whatsapp : String → String
unfolding text_prefix
truncate_for_whatsapp text =
    if leb (len text) 1000 then text else text_prefix (1000 - len suffix) text <> suffix

-- `delivery_client.send_text(phone, text)`, after the calls that were made before
abbrev pub Client : Type 0
Client = List (String × DeliveryResult) → String → String → DeliveryResult

-- the end of `_send_text_once`, once the client has answered
unfoldable pub record_delivery : String → Outbox → DeliveryResult → ReportDispatchResult × Outbox
record_delivery key st delivery =
    let sends = (key, delivery) ∷ st.sends in
    if not delivery.success
    then (
      record {
        status = failed;
        idempotency_key = key;
        delivery = some delivery;
        error = delivery.error;
      },
      record st { sends = sends },
    )
    else (
      record { status = sent; idempotency_key = key; delivery = some delivery; error = none },
      record { keys = key ∷ st.keys; sends = sends },
    )

-- `_send_text_once`
unfoldable pub send_text_once :
    Client → String → String → String → Outbox → ReportDispatchResult × Outbox
unfolding record_delivery truncate_for_whatsapp
send_text_once client key phone text st =
    if contains st.keys key
    then (
      record { status = skipped_duplicate; idempotency_key = key; delivery = none; error = none },
      st,
    )
    else record_delivery key st (client st.sends phone (truncate_for_whatsapp text))

-- A sequence of dispatches, each with its client, key, phone and text.
unfoldable pub dispatch_all : Outbox → List (Client × String × String × String) → Outbox
dispatch_all st [] = st
dispatch_all st ((client, key, phone, text) ∷ calls) =
    dispatch_all (send_text_once client key phone text st).1 calls
