-- ===== src/Examples.antt =====
-- A bridge that runs: packages that do what is documented, and requests to try the handlers on.
pub mod Bridge
mod Subsystems
mod Parent
mod Controllers
mod Namespaces
mod Blks
mod Runs
mod Calls
mod Processes
