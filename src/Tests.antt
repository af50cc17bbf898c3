-- ===== src/Tests.antt =====
-- Concrete runs: each shows that a theorem's conditions can be met, on an input that exercises the
-- code.
mod Submission
mod Pending
mod Chain
mod Tree
mod Watch
mod Note
mod Rebuild
mod Vault
mod Withdrawal
mod Workers
