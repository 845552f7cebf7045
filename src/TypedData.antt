-- ===== src/TypedData.antt =====
-- typeddata.go: EIP-712 payloads of any schema. A Go map is a list of keys and values, of which the first
-- under a key counts.
mod Tests
pub mod Types
pub mod Values
pub mod Hash
pub mod Named
pub mod Fuel
