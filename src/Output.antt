-- ===== src/Output.antt =====
-- pkg/output: where the results of a run go. Texts are lists of bytes.
pub mod Pending
mod Examples
