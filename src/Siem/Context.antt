-- ===== src/Siem/Context.antt =====
-- `FindingContext` of pkg/siem/converter.go: what a run knows about the agent, the database and the
-- control pack.
use basecheck_agent.Prelude.{String}

pub record FindingContext : Type 0 where
  pub agent_id : String
  pub agent_version : String
  pub system_id : String
  pub system_name : String
  pub database_engine : String
  pub environment : String
  pub control_pack_name : String
  pub control_pack_version : String
  pub mode : String
  pub destination : String
