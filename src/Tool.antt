-- ===== src/Tool.antt =====
-- tool/odp/main.go: the command-line tool, as far as it decides what to do.
pub mod Commands
pub mod Selection
pub mod Options
pub mod Flags
pub mod Ethernet
pub mod Printing
pub mod Talk
pub mod Handlers
pub mod Flows
pub mod Listing
