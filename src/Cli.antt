-- ===== src/Cli.antt =====
-- main.go: what the command line `regcachectl` does with its arguments.
pub mod Flags
pub mod Positional
pub mod Interpret
pub mod Ends
pub mod Typed
pub mod Commands
pub mod Process
pub mod Print
pub mod Systemd
pub mod Usage
pub mod Run
pub mod Keeps
pub mod Safety
mod Tests
