-- ===== src/Gateway.antt =====
-- The parts of the gateway.
pub mod Channel
pub mod Board
mod Tests
