-- ===== src/Siem.antt =====
-- pkg/siem: events, the delivery queue, deduplication and the delivery destinations.
pub mod Fault
pub mod Syslog
pub mod Lock
pub mod Destination
pub mod Event
pub mod Context
pub mod Converter
pub mod Queue
pub mod Output
pub mod DeadLetter
pub mod Dedup
pub mod Samples
mod Examples
