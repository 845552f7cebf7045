-- ===== src/Clob.antt =====
-- The client of the order book: clob/market.go and clob/trading.go, as far as they compute.
mod Tests
pub mod Book
pub mod Pages
pub mod Trading
