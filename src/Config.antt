-- ===== src/Config.antt =====
-- pkg/config: the settings of the agent, their defaults and their validation. A text is a list of
-- bytes, and it is ASCII.
pub mod Named
pub mod Database
pub mod Validation
pub mod Siem
pub mod Defaults
pub mod Check
pub mod Laws
pub mod Examples
