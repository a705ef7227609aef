-- ===== src/Chain.antt =====
-- blockchain/v0.3/: the chain in a file.
pub mod Serialize
pub mod Reader
pub mod Refused
pub mod Deserialize
pub mod WellFormed
pub mod RoundTrip
