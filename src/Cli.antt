-- ===== src/Cli.antt =====
-- cmd: the settings of the commands.
pub mod EnvVars
pub mod Config
pub mod Started
mod Tests
