-- ===== src/App.antt =====
-- The web application, app/src.
pub mod Deposits
pub mod Chronology
pub mod Scan
pub mod LeafCache
pub mod Rebuild
pub mod NoteVault
pub mod Reconcile
pub mod ClusterGate
pub mod WalletCluster
pub mod SendError
pub mod Deposit
pub mod WithdrawalCheck
pub mod RelayerClient
pub mod Withdraw
