-- ===== src/Logs.antt =====
-- pkg/logs: the collection of database logs. A text is a list of bytes, and it is ASCII.
pub mod Csv
pub mod Oracle
mod Examples
