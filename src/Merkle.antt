-- ===== src/Merkle.antt =====
-- crates/payment-rollup/src/merkle.rs: the sparse Merkle tree over account states and its proofs.
pub mod Path
pub mod Tree
pub mod Witness
pub mod Shape
pub mod Split
pub mod Insert
pub mod Remove
pub mod Climb
pub mod Complete
pub mod Digests
pub mod Unique
pub mod Binding
pub mod Claims
pub mod Sound
