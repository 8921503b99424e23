-- ===== src/Coordinator.antt =====
-- crates/coordinator: the quorum decision, the bond ledger, the dispute game, the optimistic
-- tier and the network server.
pub mod Quorum
pub mod Ledger
pub mod Dispute
pub mod Optimistic
pub mod Net
pub mod Zk
