-- ===== src/V1.antt =====
-- blockchain/v0.1/: the first version, whose blocks carry data and no transactions.
pub mod Types
pub mod Print
pub mod Create
pub mod Hash
pub mod Valid
pub mod Serialize
pub mod Reader
pub mod Deserialize
pub mod Order
pub mod Blocks
pub mod RoundTrip
pub mod Loaded
pub mod Refused
pub mod Destroy
