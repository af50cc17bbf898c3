-- ===== src/Relayer.antt =====
-- The relayer's service, relayer/src.
pub mod Fees
pub mod RateLimit
pub mod Response
pub mod Pool
pub mod Preflight
pub mod Tx
pub mod Steps
pub mod Node
pub mod Request
pub mod Submit
pub mod Quote
pub mod Pending
pub mod Startup
