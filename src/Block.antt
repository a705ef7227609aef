-- ===== src/Block.antt =====
-- blockchain/v0.3/: blocks and the chain in memory.
pub mod Types
pub mod Print
pub mod Genesis
pub mod Create
pub mod Hash
pub mod Difficulty
pub mod Mine
pub mod Valid
pub mod Supply
