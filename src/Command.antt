-- ===== src/Command.antt =====
-- cmd/confd: the configuration of the command (config.go), its start and its main loop (main.go).
pub mod Settings
pub mod Config
pub mod Loop
pub mod Reports
pub mod Start
pub mod Main
