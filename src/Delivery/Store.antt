-- ===== src/Delivery/Store.antt =====
-- `SQLiteWhatsAppDeliveryStatusStore` of app/brain/delivery_status.py over its table as a list of
-- rows.
use orvo_agent.Base.{
  ℕ, zero, suc, Bool, false, ◌||◌, String, Option, none, some, List, [], ◌∷◌, ◌++◌, ◌==◌, string_eq,
  if◌then◌else◌, take, nat_eq,
}
use orvo_agent.Base.Sort.{sort_by, text_leb}
use orvo_agent.Platform.{text_or_null}
use orvo_agent.Redaction.Redactor.{Redactor}
use orvo_agent.Value.{ℤ, pos, negsuc, Value, end, dict, str, get_field, fields_of}
use orvo_agent.Delivery.Event.{WhatsAppDeliveryStatusEvent, DeliveryHost, event_dump, event_key}

-- a row of `whatsapp_delivery_status_events`
pub record DeliveryRow : Type 0 where
  pub key : String
  pub provider : String
  pub message_id : String
  pub status : String
  pub recipient_id : Option String
  pub business_id : Option String
  pub status_timestamp : Option String
  pub created_at : String
  pub event_data : String

-- the conflict on the primary key
unfoldable pub has_key : String → List DeliveryRow → Bool
has_key k [] = false
has_key k (r ∷ rows) = r.key == k || has_key k rows

-- `ORDER BY created_at DESC, message_id DESC`
unfoldable pub recent_leb : DeliveryRow → DeliveryRow → Bool
unfolding text_leb
recent_leb r s =
    if r.created_at == s.created_at
    then text_leb s.message_id r.message_id
    else text_leb s.created_at r.created_at

-- `if limit < 1: limit = 1`
unfoldable pub bounded_limit : ℤ → ℕ
bounded_limit (pos zero) = 1
bounded_limit (pos (suc n)) = suc n
bounded_limit (negsuc n) = 1

module _ (H : DeliveryHost) where
  unfoldable pub delivery_row : String → WhatsAppDeliveryStatusEvent → DeliveryRow
  unfolding event_key event_dump
  delivery_row created_at e = record {
    key = event_key e;
    provider = e.provider;
    message_id = e.message_id;
    status = e.status;
    recipient_id = e.recipient_id;
    business_id = e.business_id;
    status_timestamp = e.status_timestamp;
    created_at = created_at;
    event_data = H.dumps (event_dump e);
  }

  -- `record_event`, `INSERT OR IGNORE`, with the text of the time of the call
  unfoldable pub record_event :
      String → WhatsAppDeliveryStatusEvent → List DeliveryRow → List DeliveryRow
  unfolding has_key event_key delivery_row
  record_event now e rows =
      if has_key (event_key e) rows then rows else rows ++ (delivery_row now e ∷ [])

  -- `record_events`, with the time of each call of `record_event`, and the count that it returns
  unfoldable pub record_events :
      List (String × WhatsAppDeliveryStatusEvent) → List DeliveryRow → ℕ × List DeliveryRow
  unfolding record_event
  record_events [] rows = (0, rows)
  record_events ((now, e) ∷ es) rows =
      let rest = record_events es (record_event now e rows) in (suc rest.0, rest.1)

-- the default of `get`
abbrev raw_or_empty : Option Value → Value
raw_or_empty none = dict end
raw_or_empty (some v) = v

-- `json.loads(data).get("raw", {})`, which is none where a value that is no dict has no `get`
unfoldable pub raw_of : Option Value → Option Value
unfolding get_field
raw_of none = some (dict end)
raw_of (some (dict d)) = some (raw_or_empty (get_field d "raw"))
raw_of (some _) = none

module _ (H : DeliveryHost) (R : Redactor) where
  unfoldable pub row_projection : DeliveryRow → Value → Value
  row_projection r raw = dict (
      fields_of (
        ("provider", str r.provider)
        ∷ ("message_id", str r.message_id)
        ∷ ("status", str r.status)
        ∷ ("recipient_id", text_or_null r.recipient_id)
        ∷ ("business_id", text_or_null r.business_id)
        ∷ ("status_timestamp", text_or_null r.status_timestamp)
        ∷ ("created_at", str r.created_at)
        ∷ ("raw", R.secrets raw)
        ∷ []))

  -- `result.append(...)`
  unfoldable pub with_row : DeliveryRow → Option Value → Option (List Value) → Option (List Value)
  unfolding row_projection
  with_row r (some raw) (some rest) = some (row_projection r raw ∷ rest)
  with_row r _ _ = none

  -- the loop over the selected rows
  unfoldable pub row_projections : List DeliveryRow → Option (List Value)
  unfolding raw_of with_row
  row_projections [] = some []
  row_projections (r ∷ rows) = with_row r (raw_of (H.loads r.event_data)) (row_projections rows)

  unfoldable pub list_recent : List DeliveryRow → ℤ → Option (List Value)
  unfolding row_projections take sort_by recent_leb bounded_limit
  list_recent rows limit = row_projections (take (bounded_limit limit) (sort_by recent_leb rows))
