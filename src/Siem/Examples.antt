-- ===== src/Siem/Examples.antt =====
-- Tests of the model on small inputs, and the theorems at inputs that meet their hypotheses.
mod Emission
mod Events
mod Delivery
mod Deduplication
mod DeadLetters
mod Closing
mod Syslog
mod Locking
