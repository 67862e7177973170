-- ===== src/Examples/Dispatches.antt =====
-- The dispatch theorems on concrete outboxes and clients.
use orvo_agent.Base.{◌≤◌, String, true, false, List, refl, [], ◌∷◌, none, some, ◌≡◌}
use orvo_agent.Dispatch.{
  truncate_for_whatsapp, failed, dispatch_all, send_text_once, Outbox, Client,
}
use orvo_agent.Dispatch.Once.{
  len-truncate_for_whatsapp-le, send_text_once-retries, dispatch_all-IsOnce, IsOnce,
}
use orvo_agent.Base.Text.{len}

abbrev refusing : Client
refusing sends phone text = record { success = false; message_id = none; error = some "timeout" }

abbrev delivering : Client
delivering sends phone text = record { success = true; message_id = some "m1"; error = none }

abbrev empty_outbox : Outbox
empty_outbox = record { keys = []; sends = [] }

abbrev three_calls : List (Client × String × String × String)
three_calls =
    (refusing, "shop/2026-05-19/daily", "+54", "Ventas")
    ∷ (delivering, "shop/2026-05-19/daily", "+54", "Ventas")
    ∷ (delivering, "shop/2026-05-19/daily", "+54", "Ventas")
    ∷ []

dispatch_all-IsOnce_example : IsOnce (dispatch_all empty_outbox three_calls)
dispatch_all-IsOnce_example = dispatch_all-IsOnce empty_outbox three_calls (λ key. refl)

send_text_once-retries_example :
    ((send_text_once refusing "k" "+54" "Ventas" empty_outbox).0.status ≡ failed)
    × ((send_text_once delivering "k" "+54" "Ventas"
          (send_text_once refusing "k" "+54" "Ventas" empty_outbox).1).0.delivery
        ≡ some (
            delivering
              (("k", refusing [] "+54" (truncate_for_whatsapp "Ventas")) ∷ [])
              "+54"
              (truncate_for_whatsapp "Ventas")))
send_text_once-retries_example =
    send_text_once-retries refusing delivering "k" "+54" "Ventas" empty_outbox refl refl

len-truncate_for_whatsapp-le_example : len (truncate_for_whatsapp "Ventas") ≤ 1000
len-truncate_for_whatsapp-le_example = len-truncate_for_whatsapp-le "Ventas"
