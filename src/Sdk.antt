-- ===== src/Sdk.antt =====
-- The client library, sdk/src.
pub mod MerkleTree
pub mod Withdraw
pub mod Note
pub mod PoolState
pub mod Fees
