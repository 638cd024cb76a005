-- ===== src/Cli.antt =====
-- internal/cli: the command line. Options has the flags and their validation, Rules small parsers and
-- the severity test, Policy what flags and file make of the configuration, Commands the commands and
-- their exit codes; Precedence, Verdict, Settling and Reported have the theorems.
pub mod Options
pub mod Rules
pub mod Policy
pub mod LegacyFlags
pub mod Precedence
pub mod Commands
pub mod Dispatch
pub mod Verdict
pub mod Settling
pub mod Reported
