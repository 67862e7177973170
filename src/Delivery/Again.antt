-- ===== src/Delivery/Again.antt =====
-- Recording delivery events that were recorded before.
use orvo_agent.Base.{
  ap, sym, ◌∙◌, arith, true, String, List, [], ◌∷◌, ◌++◌, ◌≡◌, refl, string_eq, All, length, map,
  inl, inr, pair_eq,
}
use orvo_agent.Base.Membership.{In}
use orvo_agent.Delivery.Event.{WhatsAppDeliveryStatusEvent, DeliveryHost, event_key}
use orvo_agent.Delivery.Store.{DeliveryRow, has_key, record_event, record_events, delivery_row}

has_key-append :
    (k : String) (rows more : List DeliveryRow)
    → has_key k rows ≡ true
    → has_key k (rows ++ more) ≡ true
unfolding has_key
has_key-append k [] more h = absurd (cc)
has_key-append k (r ∷ rows) more h = ground (arith, has_key-append k rows more)

has_key-last : (rows : List DeliveryRow) (r : DeliveryRow) → has_key r.key (rows ++ (r ∷ [])) ≡ true
unfolding has_key
has_key-last [] r = ground arith
has_key-last (x ∷ rows) r = ground (arith, has_key-last rows r)

module _ (H : DeliveryHost) where
  record_event-keeps :
      (now k : String) (e : WhatsAppDeliveryStatusEvent) (rows : List DeliveryRow)
      → has_key k rows ≡ true
      → has_key k (record_event H now e rows) ≡ true
  unfolding record_event
  record_event-keeps now k e rows h =
      let more = has_key-append k rows (delivery_row H now e ∷ []) h in ground arith

  record_event-has :
      (now : String) (e : WhatsAppDeliveryStatusEvent) (rows : List DeliveryRow)
      → has_key (event_key e) (record_event H now e rows) ≡ true
  unfolding record_event delivery_row
  record_event-has now e rows = let more = has_key-last rows (delivery_row H now e) in ground arith

  record_events-keeps :
      (k : String) (es : List (String × WhatsAppDeliveryStatusEvent)) (rows : List DeliveryRow)
      → has_key k rows ≡ true
      → has_key k (record_events H es rows).1 ≡ true
  unfolding record_events
  record_events-keeps k [] rows h = h
  record_events-keeps k ((now, e) ∷ es) rows h =
      record_events-keeps k es (record_event H now e rows) (record_event-keeps now k e rows h)

  record_events-has :
      (es : List (String × WhatsAppDeliveryStatusEvent)) (rows : List DeliveryRow)
      (e : WhatsAppDeliveryStatusEvent)
      → In e (map (λ (x : String × WhatsAppDeliveryStatusEvent). x.1) es)
      → has_key (event_key e) (record_events H es rows).1 ≡ true
  unfolding record_events
  record_events-has [] rows e m = elim m [ ]
  record_events-has ((now, x) ∷ es) rows e (inl same) =
      record_events-keeps (event_key e) es (record_event H now x rows) (
        ap (λ y. has_key (event_key y) (record_event H now x rows)) (sym same)
        ∙ record_event-has now x rows)
  record_events-has ((now, x) ∷ es) rows e (inr m) =
      record_events-has es (record_event H now x rows) e m

  record_event-known :
      (now : String) (e : WhatsAppDeliveryStatusEvent) (rows : List DeliveryRow)
      → has_key (event_key e) rows ≡ true
      → record_event H now e rows ≡ rows
  unfolding record_event
  record_event-known now e rows h = rw h refl

  record_events-known :
      (es : List (String × WhatsAppDeliveryStatusEvent)) (rows : List DeliveryRow)
      → All (λ (x : String × WhatsAppDeliveryStatusEvent). has_key (event_key x.1) rows ≡ true) es
      → record_events H es rows ≡ (length es, rows)
  unfolding record_events
  record_events-known [] rows k = refl
  record_events-known ((now, e) ∷ es) rows k =
      rw (record_event-known now e rows k.0) (rw (record_events-known es rows k.1) refl)

  All-known :
      (es again : List (String × WhatsAppDeliveryStatusEvent)) (rows : List DeliveryRow)
      → All
          (λ (x : String × WhatsAppDeliveryStatusEvent).
            In x.1 (map (λ (y : String × WhatsAppDeliveryStatusEvent). y.1) es))
          again
      → All
          (λ (x : String × WhatsAppDeliveryStatusEvent).
            has_key (event_key x.1) (record_events H es rows).1 ≡ true)
          again
  All-known es [] rows m = tt
  All-known es (x ∷ again) rows m = (record_events-has es rows x.1 m.0, All-known es again rows m.1)

  -- After events have been recorded, recording any of them again, in any order, any number of times
  -- and whenever, counts them and leaves the rows as they are.
  pub record_events-again :
      (es again : List (String × WhatsAppDeliveryStatusEvent)) (rows : List DeliveryRow)
      → All
          (λ (x : String × WhatsAppDeliveryStatusEvent).
            In x.1 (map (λ (y : String × WhatsAppDeliveryStatusEvent). y.1) es))
          again
      → record_events H again (record_events H es rows).1
        ≡ (length again, (record_events H es rows).1)
  record_events-again es again rows m =
      record_events-known again (record_events H es rows).1 (All-known es again rows m)
