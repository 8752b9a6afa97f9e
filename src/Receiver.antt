-- ===== src/Receiver.antt =====
-- internal/receiver: the OTLP receiver.
pub mod Decimal
pub mod Attrs
pub mod Event
pub mod Spans
pub mod AiSdk
pub mod Dsh
pub mod Codex
pub mod Services
pub mod Logs
pub mod Traces
mod Tests
