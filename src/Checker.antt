-- ===== src/Checker.antt =====
-- checker/: the checks that a simulation runs over the nodes and over the histories of the clients.
pub mod Linear
pub mod Track
pub mod Chain
pub mod Observe
pub mod Invariants
pub mod Register
mod Examples
