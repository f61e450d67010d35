-- ===== src/Keeper.antt =====
-- app/keeper.ts: the engine's loops. Each child is one of them.
pub mod Position
pub mod Passes
pub mod Crank
pub mod Requote
pub mod Isolated
pub mod Deposits
pub mod Mirror
pub mod Scan
pub mod Jobs
pub mod Views
pub mod Settle
mod Tests
