-- ===== src/Delivery/Statuses.antt =====
-- The statuses of a change, and the events that a list of them gives.
use orvo_agent.Base.{
  String, Option, none, some, List, [], ◌∷◌, ◌++◌, ◌≡◌, ◌≢◌, ◌⊎◌, refl, sym, ap, subst, ◌∙◌, arith,
  string_eq, inl, inr, Never,
}
use orvo_agent.Base.Membership.{In}
use orvo_agent.Redaction.Redactor.{Redactor, safe_metadata}
use orvo_agent.Value.{
  Value, Items, Fields, null, bool, int, str, list, tuple, dict, other, nil, cons, get_field,
}
use orvo_agent.Delivery.Event.{WhatsAppDeliveryStatusEvent, DeliveryHost}
use orvo_agent.Delivery.Webhook.{
  safe_iter, non_empty_text, event_of, status_event, status_events, status_timestamp, recipient_of,
  with_event,
}

-- The value is an item of the list.
abbrev pub InItems : Value → Items → Type 0
InItems v nil = Never
InItems v (cons w items) = (w ≡ v) ⊎ InItems v items

-- The field of the dict is a list in which the value stands.
abbrev pub InField : Value → Fields → String → Type 0
InField v d key = (items : Items) × (get_field d key ≡ some (list items)) × InItems v items

-- The dict stands under entry, changes, value and statuses of the payload.
abbrev pub InEntry : Fields → Value → Type 0
InEntry status entry =
    (e : Fields) × (entry ≡ dict e)
    × ((change : Fields) × InField (dict change) e "changes"
        × ((value : Fields) × (get_field change "value" ≡ some (dict value))
            × InField (dict status) value "statuses"))

abbrev pub InPayload : Fields → Value → Type 0
InPayload status payload =
    (d : Fields) × (payload ≡ dict d)
    × ((entry : Value) × InField entry d "entry" × InEntry status entry)

module _ (H : DeliveryHost) (R : Redactor) where
  -- The event of a status whose id and status are non-empty texts.
  abbrev pub IsEventOf : Fields → WhatsAppDeliveryStatusEvent → Type 0
  IsEventOf s e =
      (message_id : String) × (status : String) × (get_field s "id" ≡ some (str message_id))
      × (get_field s "status" ≡ some (str status))
      × (message_id ≢ "")
      × (status ≢ "")
      × (e ≡ record {
        provider = "meta_cloud";
        message_id = message_id;
        status = status;
        status_timestamp = status_timestamp H R (get_field s "timestamp");
        recipient_id = recipient_of H R (get_field s "recipient_id");
        business_id = none;
        raw = safe_metadata R s;
      })

non_empty_text-some :
    (o : Option Value) (s : String) → non_empty_text o ≡ some s → (o ≡ some (str s)) × (s ≢ "")
unfolding non_empty_text
non_empty_text-some none s h = absurd (cc)
non_empty_text-some (some (str t)) s h = elim (string_eq.dec t "") [
  | yes e ↦ absurd (ground arith)
  | no n ↦ (ground arith, ground arith)
]
non_empty_text-some (some null) s h = absurd (cc)
non_empty_text-some (some (bool b)) s h = absurd (cc)
non_empty_text-some (some (int n)) s h = absurd (cc)
non_empty_text-some (some (list xs)) s h = absurd (cc)
non_empty_text-some (some (tuple xs)) s h = absurd (cc)
non_empty_text-some (some (dict d)) s h = absurd (cc)
non_empty_text-some (some (other r)) s h = absurd (cc)

non_empty_text-str : (s : String) → s ≢ "" → non_empty_text (some (str s)) ≡ some s
unfolding non_empty_text
non_empty_text-str s n = ground arith

pub safe_iter-list :
    (v : Value) (o : Option Value)
    → InItems v (safe_iter o)
    → (items : Items) × (o ≡ some (list items)) × InItems v items
unfolding safe_iter
safe_iter-list v none m = elim m [ ]
safe_iter-list v (some (list items)) m = (items, refl, m)
safe_iter-list v (some null) m = elim m [ ]
safe_iter-list v (some (bool b)) m = elim m [ ]
safe_iter-list v (some (int n)) m = elim m [ ]
safe_iter-list v (some (str s)) m = elim m [ ]
safe_iter-list v (some (tuple xs)) m = elim m [ ]
safe_iter-list v (some (dict d)) m = elim m [ ]
safe_iter-list v (some (other r)) m = elim m [ ]

pub safe_iter-of_list :
    (v : Value) (o : Option Value) (items : Items)
    → o ≡ some (list items)
    → InItems v items
    → InItems v (safe_iter o)
unfolding safe_iter
safe_iter-of_list v o items e m = subst (λ x. InItems v (safe_iter x)) (sym e) m

pub In-append : {A : Type 0} (a : A) (xs ys : List A) → In a (xs ++ ys) → In a xs ⊎ In a ys
In-append a [] ys m = inr m
In-append a (x ∷ xs) ys (inl e) = inl (inl e)
In-append a (x ∷ xs) ys (inr m) = elim (In-append a xs ys m) [ inl l ↦ inl (inr l) | inr r ↦ inr r ]

pub In-left : {A : Type 0} (a : A) (xs ys : List A) → In a xs → In a (xs ++ ys)
In-left a [] ys m = elim m [ ]
In-left a (x ∷ xs) ys (inl e) = inl e
In-left a (x ∷ xs) ys (inr m) = inr (In-left a xs ys m)

pub In-right : {A : Type 0} (a : A) (xs ys : List A) → In a ys → In a (xs ++ ys)
In-right a [] ys m = m
In-right a (x ∷ xs) ys m = inr (In-right a xs ys m)

module _ (H : DeliveryHost) (R : Redactor) where
  abbrev E : Type 0
  E = WhatsAppDeliveryStatusEvent

  event_of-IsEventOf :
      (s : Fields) (i t : Option String) (e : E)
      → non_empty_text (get_field s "id") ≡ i
      → non_empty_text (get_field s "status") ≡ t
      → event_of H R s i t ≡ some e
      → IsEventOf H R s e
  unfolding event_of
  event_of-IsEventOf s none t e h k q = absurd (cc)
  event_of-IsEventOf s (some i) none e h k q = absurd (cc)
  event_of-IsEventOf s (some i) (some t) e h k q =
      let (hi, ni) = non_empty_text-some (get_field s "id") i h in
      let (ht, nt) = non_empty_text-some (get_field s "status") t k in
      (i, t, hi, ht, ni, nt, sym (some-eq q))
    where
      some-eq : {x y : E} → some x ≡ some y → x ≡ y
      some-eq h = cc

  status_event-IsEventOf :
      (v : Value) (e : E)
      → status_event H R v ≡ some e
      → (s : Fields) × (v ≡ dict s) × IsEventOf H R s e
  unfolding status_event
  status_event-IsEventOf (dict s) e q = (s, refl, event_of-IsEventOf s _ _ e refl refl q)
  status_event-IsEventOf null e q = absurd (cc)
  status_event-IsEventOf (bool b) e q = absurd (cc)
  status_event-IsEventOf (int n) e q = absurd (cc)
  status_event-IsEventOf (str s) e q = absurd (cc)
  status_event-IsEventOf (list xs) e q = absurd (cc)
  status_event-IsEventOf (tuple xs) e q = absurd (cc)
  status_event-IsEventOf (other r) e q = absurd (cc)

  status_event-of_IsEventOf :
      (s : Fields) (e : E) → IsEventOf H R s e → status_event H R (dict s) ≡ some e
  unfolding status_event event_of
  status_event-of_IsEventOf s e (i, t, hi, ht, ni, nt, q) =
      rw hi (rw ht (rw (non_empty_text-str i ni) (rw (non_empty_text-str t nt) (ap some (sym q)))))

  In-with_event :
      (o : Option E) (es : List E) (e : E) → In e (with_event H R o es) → (o ≡ some e) ⊎ In e es
  In-with_event none es e m = inr m
  In-with_event (some x) es e (inl q) = inl (ap some q)
  In-with_event (some x) es e (inr m) = inr m

  with_event-here : (o : Option E) (es : List E) (e : E) → o ≡ some e → In e (with_event H R o es)
  with_event-here none es e h = absurd (cc)
  with_event-here (some x) es e h = inl (let k = h in cc)

  with_event-there : (o : Option E) (es : List E) (e : E) → In e es → In e (with_event H R o es)
  with_event-there none es e m = m
  with_event-there (some x) es e m = inr m

  pub status_events-In :
      (items : Items) (e : E)
      → In e (status_events H R items)
      → (s : Fields) × InItems (dict s) items × IsEventOf H R s e
  unfolding status_events
  status_events-In nil e m = elim m [ ]
  status_events-In (cons v items) e m =
      elim (In-with_event (status_event H R v) (status_events H R items) e m) [
        | inl q ↦ let (s, d, i) = status_event-IsEventOf v e q in (s, inl d, i)
        | inr t ↦ let (s, d, i) = status_events-In items e t in (s, inr d, i)
      ]

  pub status_events-of_In :
      (items : Items) (s : Fields) (e : E)
      → InItems (dict s) items
      → IsEventOf H R s e
      → In e (status_events H R items)
  unfolding status_events
  status_events-of_In nil s e m i = elim m [ ]
  status_events-of_In (cons v items) s e (inl q) i =
      with_event-here (status_event H R v) (status_events H R items) e
        (ap (status_event H R) q ∙ status_event-of_IsEventOf s e i)
  status_events-of_In (cons v items) s e (inr m) i =
      with_event-there (status_event H R v) (status_events H R items) e
        (status_events-of_In items s e m i)
