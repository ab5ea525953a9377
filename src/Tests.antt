-- ===== src/Tests.antt =====
-- Concrete inputs at which the theorems of this library are applied.
pub mod Setting
pub mod Amqp
pub mod Client
pub mod Receiver
pub mod Polling
pub mod Feeds
pub mod Hooks
pub mod Ciba
pub mod Manifest
pub mod Paging
pub mod Reactor
