-- ===== src/Coordinator/Zk.antt =====
-- crates/coordinator/src/receipt.rs and zk_judge.rs: the receipts of the zk tier, and the judge that
-- proves a disputed job. The external processes are parameters: what a poll of a child answers, how
-- late it is at a poll, what a child has printed, and the JSON in it. Process has the wait for a
-- child, Receipt the verifier of receipts, Verdict the judge and the decision that its verdict
-- implies, Cache the receipts that have been paid for.
pub mod Process
pub mod Receipt
pub mod Verdict
pub mod Cache
mod Examples
