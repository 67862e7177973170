-- ===== src/Dispatch/Once.antt =====
-- A report is delivered at most once for each key.
use Prim.Native.String.{[] as end_of_text, ◌∷◌ as cons_char}
use text.Mathlib.TextLemmas.{nil-append, cons-append}
use orvo_agent.Base.{
  ◌∙◌, some, ap, zero, suc, suc, arith, ◌&&◌, inr, string_eq, ◌+◌, false, ◌==◌, inl, ◌≤◌, ◌<>◌,
  Bool-cases, contains, if◌then◌else◌, ℕ, ◌≡◌, List, String, refl, [], ◌∷◌,
}
use orvo_agent.Dispatch.{
  ReportDispatchResult, failed, Client, DeliveryResult, truncate_for_whatsapp, dispatch_all,
  send_text_once, record_delivery, Outbox,
}
use orvo_agent.Base.Text.{len, text_prefix}

-- How many of the sends for the key succeeded.
abbrev pub deliveries : String → List (String × DeliveryResult) → ℕ
deliveries key [] = 0
deliveries key ((k, d) ∷ sends) =
    let rest = deliveries key sends in if k == key && d.success then suc rest else rest

-- A key is marked exactly if the report was delivered, which it was once.
abbrev pub IsOnce : Outbox → Type 0
IsOnce st = (key : String) → deliveries key st.sends ≡ (if contains st.keys key then 1 else 0)

record_delivery-IsOnce :
    (key : String) (st : Outbox) (d : DeliveryResult)
    → contains st.keys key ≡ false
    → IsOnce st
    → IsOnce (record_delivery key st d).1
unfolding record_delivery
record_delivery-IsOnce key st d n i k = let h = i k in ground arith

send_text_once-IsOnce :
    (client : Client) (key phone text : String) (st : Outbox)
    → IsOnce st
    → IsOnce (send_text_once client key phone text st).1
unfolding send_text_once
send_text_once-IsOnce client key phone text st i = elim (Bool-cases (contains st.keys key)) [
  | inl y ↦ rw y i
  | inr n ↦ rw n (record_delivery-IsOnce key st _ n i)
]

-- From an outbox in which each key is marked exactly if its report was delivered once, every
-- sequence of dispatches, however the clients answer, leads to such an outbox.
pub dispatch_all-IsOnce :
    (st : Outbox) (calls : List (Client × String × String × String))
    → IsOnce st
    → IsOnce (dispatch_all st calls)
unfolding dispatch_all
dispatch_all-IsOnce st [] i = i
dispatch_all-IsOnce st ((client, key, phone, text) ∷ calls) i =
    dispatch_all-IsOnce (send_text_once client key phone text st).1 calls
      (send_text_once-IsOnce client key phone text st i)

pub len-append : (s t : String) → len (s <> t) ≡ len s + len t
len-append end_of_text t = ap len (nil-append t) ∙ omega arith
len-append (cons_char c s) t = ap len (cons-append c s t) ∙ omega (arith, len-append s t)

len-text_prefix-le : (n : ℕ) (s : String) → len (text_prefix n s) ≤ n
unfolding text_prefix
len-text_prefix-le zero s = omega arith
len-text_prefix-le (suc n) end_of_text = omega arith
len-text_prefix-le (suc n) (cons_char c s) = omega (arith, len-text_prefix-le n s)

-- A truncated message has at most 1000 characters.
pub len-truncate_for_whatsapp-le : (text : String) → len (truncate_for_whatsapp text) ≤ 1000
unfolding truncate_for_whatsapp
len-truncate_for_whatsapp-le text = ground (
  arith,
  len-text_prefix-le 974 text,
  len-append (text_prefix 974 text) "... (ver reporte completo)",
)

record_delivery-delivery :
    (key : String) (st : Outbox) (d : DeliveryResult)
    → (record_delivery key st d).0.delivery ≡ some d
unfolding record_delivery
record_delivery-delivery key st d = elim (Bool-cases d.success) [
  | inl y ↦ rw y refl
  | inr n ↦ rw n refl
]

record_delivery_of_failure :
    (key : String) (st : Outbox) (d : DeliveryResult)
    → d.success ≡ false
    → ((record_delivery key st d).0.status ≡ failed)
      × ((record_delivery key st d).1 ≡ record st { sends = (key, d) ∷ st.sends })
unfolding record_delivery
record_delivery_of_failure key st d f = (rw f refl, rw f refl)

send_text_once_of_new :
    (client : Client) (key phone text : String) (st : Outbox)
    → contains st.keys key ≡ false
    → send_text_once client key phone text st
      ≡ record_delivery key st (client st.sends phone (truncate_for_whatsapp text))
unfolding send_text_once
send_text_once_of_new client key phone text st n = rw n refl

-- If the key is not marked and the client fails, the dispatch has status failed, and a dispatch of
-- the same report afterwards asks its client again.
pub send_text_once-retries :
    (client retry : Client) (key phone text : String) (st : Outbox)
    → contains st.keys key ≡ false
    → (client st.sends phone (truncate_for_whatsapp text)).success ≡ false
    → ((send_text_once client key phone text st).0.status ≡ failed)
      × ((send_text_once retry key phone text
            (send_text_once client key phone text st).1).0.delivery
          ≡ some (
              retry
                ((key, client st.sends phone (truncate_for_whatsapp text)) ∷ st.sends)
                phone
                (truncate_for_whatsapp text)))
send_text_once-retries client retry key phone text st n f =
    let d = client st.sends phone (truncate_for_whatsapp text) in
    let e = send_text_once_of_new client key phone text st n in
    let (s, o) = record_delivery_of_failure key st d f in
    let again : Outbox = record st { sends = (key, d) ∷ st.sends } in
    (
      ap (λ (x : ReportDispatchResult × Outbox). x.0.status) e ∙ s,
      ap (λ x. (send_text_once retry key phone text x).0.delivery)
            (ap (λ (x : ReportDispatchResult × Outbox). x.1) e ∙ o)
          ∙ ap (λ (x : ReportDispatchResult × Outbox). x.0.delivery)
              (send_text_once_of_new retry key phone text again n)
          ∙ record_delivery-delivery key again _,
    )
