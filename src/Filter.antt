-- ===== src/Filter.antt =====
-- src/filter.rs: which titles a selection matches. Rows are sets of bits (Bits), a kind's values are
-- looked up as such sets or as posting lists (Entities), and a selection narrows them (Matching).
pub mod Bits
mod Tests
pub mod Spec
pub mod Entities
pub mod State
pub mod Values
pub mod Matching
pub mod Interleaving
pub mod Ids
pub mod Traits
pub mod Request
