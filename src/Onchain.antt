-- ===== src/Onchain.antt =====
-- The onchain package: transactions that are signed and sent to a node, and the calldata of token contracts.
pub mod Transaction
pub mod Sending
pub mod Token
pub mod Ctf
mod Tests
