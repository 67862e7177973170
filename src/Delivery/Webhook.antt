-- ===== src/Delivery/Webhook.antt =====
-- `parse_meta_status_payload` of app/brain/delivery_status.py.
use orvo_agent.Base.{
  String, Option, none, some, List, [], ◌∷◌, ◌++◌, ◌==◌, string_eq, if◌then◌else◌,
}
use orvo_agent.Redaction.Redactor.{Redactor, safe_metadata}
use orvo_agent.Value.{Value, Items, Fields, null, bool, int, str, list, dict, nil, cons, get_field}
use orvo_agent.Delivery.Event.{WhatsAppDeliveryStatusEvent, DeliveryHost, meta_provider}

-- `_safe_iter`, of a value that may be missing
unfoldable pub safe_iter : Option Value → Items
safe_iter (some (list xs)) = xs
safe_iter _ = nil

-- `entry.get("changes")` of an entry that is a dict
unfoldable pub changes_of : Value → Items
unfolding safe_iter get_field
changes_of (dict entry) = safe_iter (get_field entry "changes")
changes_of _ = nil

-- `value.get("statuses")`
unfoldable pub value_statuses : Option Value → Items
unfolding safe_iter get_field
value_statuses (some (dict value)) = safe_iter (get_field value "statuses")
value_statuses _ = nil

-- the statuses of a change that is a dict
unfoldable pub statuses_of : Value → Items
unfolding value_statuses get_field
statuses_of (dict change) = value_statuses (get_field change "value")
statuses_of _ = nil

-- `isinstance(value, str) and value`
unfoldable pub non_empty_text : Option Value → Option String
non_empty_text (some (str s)) = if s == "" then none else some s
non_empty_text _ = none

module _ (H : DeliveryHost) (R : Redactor) where
  -- `str(timestamp) if timestamp is not None else None`
  unfoldable pub status_timestamp : Option Value → Option String
  status_timestamp none = none
  status_timestamp (some null) = none
  status_timestamp (some v) = some (H.text_of v)

  -- `str(recipient_id) if isinstance(recipient_id, (str, int)) else None`; a bool is an int
  unfoldable pub recipient_of : Option Value → Option String
  recipient_of (some (str s)) = some (H.text_of (str s))
  recipient_of (some (int n)) = some (H.text_of (int n))
  recipient_of (some (bool b)) = some (H.text_of (bool b))
  recipient_of _ = none

  -- the event of a status entry with its id and its status
  unfoldable pub event_of :
      Fields → Option String → Option String → Option WhatsAppDeliveryStatusEvent
  unfolding status_timestamp recipient_of get_field safe_metadata
  event_of entry (some message_id) (some status) = some (record {
    provider = meta_provider;
    message_id = message_id;
    status = status;
    status_timestamp = status_timestamp (get_field entry "timestamp");
    recipient_id = recipient_of (get_field entry "recipient_id");
    business_id = none;
    raw = safe_metadata R entry;
  })
  event_of entry _ _ = none

  unfoldable pub status_event : Value → Option WhatsAppDeliveryStatusEvent
  unfolding event_of non_empty_text get_field
  status_event (dict entry) =
      event_of entry (non_empty_text (get_field entry "id"))
        (non_empty_text (get_field entry "status"))
  status_event _ = none

  -- `events.append(...)`, of an event that is there
  abbrev pub with_event :
      Option WhatsAppDeliveryStatusEvent
      → List WhatsAppDeliveryStatusEvent
      → List WhatsAppDeliveryStatusEvent
  with_event none rest = rest
  with_event (some e) rest = e ∷ rest

  -- the loop over the statuses of a change
  unfoldable pub status_events : Items → List WhatsAppDeliveryStatusEvent
  unfolding status_event
  status_events nil = []
  status_events (cons v items) = with_event (status_event v) (status_events items)

  -- the loop over the changes of an entry
  unfoldable pub change_events : Items → List WhatsAppDeliveryStatusEvent
  unfolding status_events statuses_of
  change_events nil = []
  change_events (cons v items) = status_events (statuses_of v) ++ change_events items

  -- the loop over the entries of a payload
  unfoldable pub entry_events : Items → List WhatsAppDeliveryStatusEvent
  unfolding change_events changes_of
  entry_events nil = []
  entry_events (cons v items) = change_events (changes_of v) ++ entry_events items

  unfoldable pub parse_meta_status_payload : Value → List WhatsAppDeliveryStatusEvent
  unfolding entry_events safe_iter get_field
  parse_meta_status_payload (dict payload) = entry_events (safe_iter (get_field payload "entry"))
  parse_meta_status_payload _ = []
