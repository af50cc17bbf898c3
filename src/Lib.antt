-- ===== src/Lib.antt =====
-- SolnadoCash, the JavaScript side of a fixed-denomination privacy pool on Solana. A depositor keeps
-- a note; a withdrawal proves in zero knowledge that some deposit's note is held, and a relayer
-- signs and pays for the transaction in exchange for a fee under a ceiling that the proof binds.
--
-- The parts and how they interact. The SDK (sdk/src) rebuilds the pool's Merkle tree from its
-- deposits and makes the inputs of a proof. The relayer (relayer/src) quotes a fee ceiling, receives
-- proofs, checks them against the pool's account and against its own cost, and sends the withdrawal.
-- The monitor (monitor/src) reads the pools from the chain and raises alerts. The web application
-- (app/src) makes deposits, keeps their notes in the browser's storage, rebuilds the tree from the
-- chain's history, and withdraws through a relayer, whose word it checks against the chain.
--
-- Base: shared notation; texts, JSON values and BigInt conversions (Json, Radix, Text), Node buffers
-- (Buffer), accounts, calls that may throw and the Pool account's layout (Chain).
--
-- Relayer/Fees: relayer/src/fees.js. Relayer/RateLimit: nullifierKey of relayer/src/ratelimit.js.
-- Relayer/Pool: relayer/src/pool.js. Relayer/Preflight: relayer/src/preflight.js. Relayer/Tx:
-- relayer/src/tx.js. Relayer/Request, Submit, Quote, Pending and Response: relayer/src/api.js, in
-- this order the fields of a body, handleSubmit with its catch, GET /fee_quote, the guard of POST
-- /submit_proof with GET /health, and the answers; Steps and Node are what its handlers share.
-- Relayer/Startup: upgradeAuthority and assertNotUpgradeAuthority of relayer/src/startup.js. A
-- handler is a function of the request, of what the cluster and the libraries answer, and of the
-- rent cache; it gives the answer, the transaction handed to the cluster and the new cache. The
-- guard is a state machine: requests arrive and handlers end in any order.
--
-- Sdk/MerkleTree and Sdk/Withdraw: sdk/src/proof.js, the class MerkleTree and generateWithdrawProof.
-- Sdk/Note: sdk/src/note.js. Sdk/PoolState: readPoolTreeState and verifyTreeMatchesPool of
-- sdk/src/proof.ts. Sdk/Fees: sdk/src/fees.ts.
--
-- Monitor/Checks: monitor/src/checks.js. Monitor/Watch: emit and runOnce of monitor/src/index.js.
-- Monitor/Reading: readPool and readUpgradeAuthority of the same file.
--
-- App/Deposits, Chronology, Scan and Rebuild: app/src/utils/merkle.ts, in this order the deposits of
-- one transaction, the order of those without an index, scanDeposits, and rebuildMerkleTree.
-- App/Scan/MapPool: mapPool of the same file, its workers as a step relation in which any of them
-- may go on next; scanDeposits takes the calls in order in its place.
-- App/LeafCache, NoteVault, Reconcile, ClusterGate, WalletCluster, WithdrawalCheck: the files of
-- app/src/utils named leafCache, noteVault, noteReconcile, clusterGate, walletCluster and
-- withdrawalCheck. App/RelayerClient: app/src/hooks/useRelayer.ts. App/SendError and
-- Deposit: app/src/pages/Deposit.tsx, in this order isWalletRejection, provesNotBroadcast and
-- simulationLogs, and depositCanContinue and handleDeposit. App/Withdraw:
-- executeWithdraw of app/src/pages/Withdraw.tsx and app/src/utils/recipientCheck.ts. A handler of the
-- page is a function of the page's state, the storage, and what the wallet, the RPC and the relayer
-- answer; the answers of one attempt are the fields of a record.
--
-- Tests: concrete runs.
--
-- Numbers. BigInt values are natural numbers, or integers where they can be negative. JavaScript
-- numbers that count lamports are natural numbers too; the quotients of fees.js are exact below 2 ^
-- 53, and 1.5 * cost below 2 ^ 52, far above any fee. Two loops of the source have no bound of their own
-- and run on fuel here: the reading of the pages of a history (App/Scan), for which one round more
-- than there are signatures is enough, and the wait for a withdrawal (App/WithdrawalCheck), for which
-- one round more than the interval fits into the timeout is enough. Every other loop goes over a
-- list, or a fixed number of levels or attempts, and is a structural recursion.
--
-- Parameters: Poseidon (a function from lists of field elements), the derivation of addresses, the
-- verifier of snarkjs, the cluster's answers and the clock. Each handler reads them as arguments; a
-- call that may throw is a value of Reply. A request body's `proof` is a value without points or one
-- with the eight coordinates that are read of it.
--
-- Not modelled: the rendering of the web application and its wiring; the Rust program and the
-- circuits, except for the account layout, the error number and the constraints that the JavaScript
-- code relies on; express, its rate limiter and CORS; logging and the prose of messages; the state
-- file and the Telegram call of the monitor; the deployment scripts.
pub mod Base
pub mod Relayer
pub mod Sdk
pub mod Monitor
pub mod App
pub mod Tests
