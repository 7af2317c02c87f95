-- ===== src/Firewall.antt =====
-- The firewall of the containers (pkg/firewall): the table that it is brought to, the events that bring
-- this about, and the commands that read and write the table.
pub mod Table
pub mod Verdicts
pub mod Policy
pub mod Kept
pub mod Managed
pub mod Rebuilt
pub mod Exec
pub mod Reconciling
pub mod Events
pub mod Watching
pub mod Finding
pub mod Unchanged
pub mod Ending
mod Tests
