-- ===== src/Delivery/Reported.antt =====
-- What the events of a webhook payload are.
use orvo_agent.Base.{Option, none, some, ◌≡◌, ◌↔◌, refl, sym, subst, ◌∙◌, string_eq, inl, inr}
use orvo_agent.Base.Membership.{In}
use orvo_agent.Redaction.Redactor.{Redactor}
use orvo_agent.Value.{
  Value, Items, Fields, null, bool, int, str, list, tuple, dict, other, nil, cons, get_field,
}
use orvo_agent.Delivery.Event.{WhatsAppDeliveryStatusEvent, DeliveryHost}
use orvo_agent.Delivery.Webhook.{
  safe_iter, changes_of, statuses_of, value_statuses, status_events, change_events, entry_events,
  parse_meta_status_payload,
}
use orvo_agent.Delivery.Statuses.{
  InItems, InField, InEntry, InPayload, IsEventOf, safe_iter-list, safe_iter-of_list, In-append,
  In-left, In-right, status_events-In, status_events-of_In,
}

-- The value stands under value and statuses of a change.
abbrev InChange : Value → Value → Type 0
InChange x v =
    (change : Fields) × (v ≡ dict change)
    × ((value : Fields) × (get_field change "value" ≡ some (dict value))
        × InField x value "statuses")

value_statuses-InField :
    (x : Value) (o : Option Value)
    → InItems x (value_statuses o)
    → (value : Fields) × (o ≡ some (dict value)) × InField x value "statuses"
unfolding value_statuses
value_statuses-InField x (some (dict value)) m = (value, refl, safe_iter-list x _ m)
value_statuses-InField x none m = elim m [ ]
value_statuses-InField x (some null) m = elim m [ ]
value_statuses-InField x (some (bool b)) m = elim m [ ]
value_statuses-InField x (some (int n)) m = elim m [ ]
value_statuses-InField x (some (str s)) m = elim m [ ]
value_statuses-InField x (some (list xs)) m = elim m [ ]
value_statuses-InField x (some (tuple xs)) m = elim m [ ]
value_statuses-InField x (some (other r)) m = elim m [ ]

statuses_of-InChange : (x v : Value) → InItems x (statuses_of v) → InChange x v
unfolding statuses_of
statuses_of-InChange x (dict change) m = (change, refl, value_statuses-InField x _ m)
statuses_of-InChange x null m = elim m [ ]
statuses_of-InChange x (bool b) m = elim m [ ]
statuses_of-InChange x (int n) m = elim m [ ]
statuses_of-InChange x (str s) m = elim m [ ]
statuses_of-InChange x (list xs) m = elim m [ ]
statuses_of-InChange x (tuple xs) m = elim m [ ]
statuses_of-InChange x (other r) m = elim m [ ]

statuses_of-of_InChange : (x v : Value) → InChange x v → InItems x (statuses_of v)
unfolding statuses_of value_statuses
statuses_of-of_InChange x v (change, q, (value, h, (items, k, m))) =
    subst (λ z. InItems x (statuses_of z)) (sym q)
      (subst (λ z. InItems x (value_statuses z)) (sym h) (safe_iter-of_list x _ items k m))

changes_of-InField :
    (x v : Value)
    → InItems x (changes_of v)
    → (entry : Fields) × (v ≡ dict entry) × InField x entry "changes"
unfolding changes_of
changes_of-InField x (dict entry) m = (entry, refl, safe_iter-list x _ m)
changes_of-InField x null m = elim m [ ]
changes_of-InField x (bool b) m = elim m [ ]
changes_of-InField x (int n) m = elim m [ ]
changes_of-InField x (str s) m = elim m [ ]
changes_of-InField x (list xs) m = elim m [ ]
changes_of-InField x (tuple xs) m = elim m [ ]
changes_of-InField x (other r) m = elim m [ ]

changes_of-of_InField :
    (x v : Value) (entry : Fields)
    → v ≡ dict entry
    → InField x entry "changes"
    → InItems x (changes_of v)
unfolding changes_of
changes_of-of_InField x v entry q (items, k, m) =
    subst (λ z. InItems x (changes_of z)) (sym q) (safe_iter-of_list x _ items k m)

module _ (H : DeliveryHost) (R : Redactor) where
  change_events-In :
      (items : Items) (e : WhatsAppDeliveryStatusEvent)
      → In e (change_events H R items)
      → (s : Fields) × ((v : Value) × InItems v items × InChange (dict s) v) × IsEventOf H R s e
  unfolding change_events
  change_events-In nil e m = elim m [ ]
  change_events-In (cons v items) e m =
      elim (In-append e (status_events H R (statuses_of v)) (change_events H R items) m) [
        | inl l ↦
            let (s, p, i) = status_events-In H R (statuses_of v) e l in
            (s, (v, inl refl, statuses_of-InChange (dict s) v p), i)
        | inr r ↦ let (s, (w, p, c), i) = change_events-In items e r in (s, (w, inr p, c), i)
      ]

  change_events-of_In :
      (items : Items) (v : Value) (s : Fields) (e : WhatsAppDeliveryStatusEvent)
      → InItems v items
      → InChange (dict s) v
      → IsEventOf H R s e
      → In e (change_events H R items)
  unfolding change_events
  change_events-of_In nil v s e m c i = elim m [ ]
  change_events-of_In (cons w items) v s e (inl q) c i =
      In-left e (status_events H R (statuses_of w)) (change_events H R items) (
        status_events-of_In H R (statuses_of w) s e
          (statuses_of-of_InChange (dict s) w (subst (InChange (dict s)) (sym q) c)) i)
  change_events-of_In (cons w items) v s e (inr m) c i =
      In-right e (status_events H R (statuses_of w)) (change_events H R items)
        (change_events-of_In items v s e m c i)

  InEntry-of_parts :
      (s entry : Fields) (v x : Value)
      → x ≡ dict entry
      → InField v entry "changes"
      → InChange (dict s) v
      → InEntry s x
  InEntry-of_parts s entry v x q (items, k, m) (change, d, rest) =
      (entry, q, (change, (items, k, subst (λ z. InItems z items) d m), rest))

  entry_events-In :
      (items : Items) (e : WhatsAppDeliveryStatusEvent)
      → In e (entry_events H R items)
      → (s : Fields) × ((v : Value) × InItems v items × InEntry s v) × IsEventOf H R s e
  unfolding entry_events
  entry_events-In nil e m = elim m [ ]
  entry_events-In (cons v items) e m =
      elim (In-append e (change_events H R (changes_of v)) (entry_events H R items) m) [
        | inl l ↦
            let (s, (w, p, c), i) = change_events-In (changes_of v) e l in
            let (entry, q, f) = changes_of-InField w v p in
            (s, (v, inl refl, InEntry-of_parts s entry w v q f c), i)
        | inr r ↦ let (s, (w, p, c), i) = entry_events-In items e r in (s, (w, inr p, c), i)
      ]

  entry_events-of_In :
      (items : Items) (v : Value) (s : Fields) (e : WhatsAppDeliveryStatusEvent)
      → InItems v items
      → InEntry s v
      → IsEventOf H R s e
      → In e (entry_events H R items)
  unfolding entry_events
  entry_events-of_In nil v s e m c i = elim m [ ]
  entry_events-of_In (cons w items) v s e (inl q) (entry, d, (change, f, rest)) i =
      In-left e (change_events H R (changes_of w)) (entry_events H R items) (
        change_events-of_In (changes_of w) (dict change) s e
          (changes_of-of_InField (dict change) w entry (q ∙ d) f) (change, refl, rest) i)
  entry_events-of_In (cons w items) v s e (inr m) c i =
      In-right e (change_events H R (changes_of w)) (entry_events H R items)
        (entry_events-of_In items v s e m c i)

  parsed-In :
      (payload : Value) (e : WhatsAppDeliveryStatusEvent)
      → In e (parse_meta_status_payload H R payload)
      → (s : Fields) × InPayload s payload × IsEventOf H R s e
  unfolding parse_meta_status_payload
  parsed-In (dict d) e m =
      let (s, (v, p, c), i) = entry_events-In (safe_iter (get_field d "entry")) e m in
      (s, (d, refl, (v, safe_iter-list v _ p, c)), i)
  parsed-In null e m = elim m [ ]
  parsed-In (bool b) e m = elim m [ ]
  parsed-In (int n) e m = elim m [ ]
  parsed-In (str s) e m = elim m [ ]
  parsed-In (list xs) e m = elim m [ ]
  parsed-In (tuple xs) e m = elim m [ ]
  parsed-In (other r) e m = elim m [ ]

  parsed-of_In :
      (payload : Value) (s : Fields) (e : WhatsAppDeliveryStatusEvent)
      → InPayload s payload
      → IsEventOf H R s e
      → In e (parse_meta_status_payload H R payload)
  unfolding parse_meta_status_payload
  parsed-of_In payload s e (d, q, (v, (items, k, m), c)) i =
      subst (λ z. In e (parse_meta_status_payload H R z)) (sym q)
        (entry_events-of_In (safe_iter (get_field d "entry")) v s e
          (safe_iter-of_list v _ items k m) c i)

  -- Whatever a webhook sends, an event is parsed exactly if it is the event of a dict with a non-empty
  -- text for an id and for a status, with the fields of that dict redacted, and the dict stands in the
  -- list of statuses in the value of a dict in the list of changes of a dict in the list of entries of
  -- the payload.
  pub parse_meta_status_payload-IsReported :
      (payload : Value) (e : WhatsAppDeliveryStatusEvent)
      → In e (parse_meta_status_payload H R payload)
        ↔ ((s : Fields) × InPayload s payload × IsEventOf H R s e)
  parse_meta_status_payload-IsReported payload e =
      (parsed-In payload e, λ x. let (s, p, i) = x in parsed-of_In payload s e p i)
