-- ===== src/Examples.antt =====
-- Runs of the model on small data, and each theorem at concrete arguments.
mod Data
mod Paths
mod Sandboxes
mod Rules
mod Registries
mod Access
mod Sessions
mod Changes
