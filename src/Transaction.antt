-- ===== src/Transaction.antt =====
-- blockchain/v0.3/transaction/: the transactions of the chain.
pub mod Types
pub mod Listed
pub mod Outputs
pub mod Print
pub mod Hash
pub mod Sign
pub mod Select
pub mod Create
pub mod Valid
pub mod Coinbase
pub mod Update
