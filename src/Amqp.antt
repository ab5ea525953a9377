-- ===== src/Amqp.antt =====
-- src/axiam_sdk/amqp: the message consumer with replay protection, and the reactor runtime.
pub mod Replay
pub mod Hmac
pub mod Consumer
