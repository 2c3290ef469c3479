-- ===== src/Codec.antt =====
-- crates/payment-rollup/src/codec.rs: the wire formats of the two halves of a block.
pub mod Reader
pub mod Varint
pub mod Batch
pub mod Sidecar
pub mod Fields
pub mod Dictionary
