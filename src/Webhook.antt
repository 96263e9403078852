-- ===== src/Webhook.antt =====
-- src/katydid/webhook.py: the signed HTTP boundary of the ingress.
pub mod Post
pub mod Authentic
pub mod Tests
