-- ===== src/Delivery.antt =====
-- The delivery status events of app/brain/delivery_status.py.
pub mod Event
pub mod Webhook
pub mod Store
pub mod Statuses
pub mod Reported
pub mod Again
