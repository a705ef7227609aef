-- ===== src/Examples.antt =====
-- Concrete parameters, and each theorem at a concrete input.
mod Platform
mod Printing
mod Storage
mod Payments
mod Blocks
mod Paying
pub mod Client
mod Early
mod EarlyBlocks
mod Runs
mod Ledgers
mod Sessions
mod Wallets
mod Mining
mod Memories
