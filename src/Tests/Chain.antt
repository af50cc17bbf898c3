-- ===== src/Tests/Chain.antt =====
-- relayer/src/pool.js and preflight.js: a pool account, its root ring, and a submission.
use solnado_cash.Base.{
  ℕ, ◌<◌, ◌≡◌, refl, ◌↔◌, some, List, [], ◌∷◌, arith, ◌*◌, ◌^◌, zero, suc, length-append, length,
  replicate, All, length-replicate,
}
use solnado_cash.Base.Buffer.{IsBytes}
use solnado_cash.Base.Buffer.Laws.{length-pairs-hex64}
use solnado_cash.Base.Json.{Json, str}
use solnado_cash.Base.Text.{codes}
use solnado_cash.Base.Chain.{Account, Thrown, reply, PoolLayout, HasSizes, serialize}
use solnado_cash.Relayer.Pool.{pool_discriminator}
use solnado_cash.Relayer.Preflight.{Submission, preflight, pass}
use solnado_cash.Relayer.Preflight.Roots.{ring}
use solnado_cash.Relayer.Preflight.Verdicts.{IsBound, IsSpent, preflight-pass}
use solnado_cash.Relayer.Preflight.Keys.{IsKey}

abbrev roots : List ℕ
roots = replicate 256 77

abbrev layout : PoolLayout
layout = record {
  discriminator = pool_discriminator;
  admin = replicate 32 1;
  mint = replicate 32 0;
  denomination = 0 ∷ 0xca ∷ 0x9a ∷ 0x3b ∷ replicate 4 0;
  decimals_and_pad = replicate 8 0;
  next_index = 3 ∷ replicate 7 0;
  treasury = replicate 32 2;
  version_and_bumps = replicate 3 0;
  is_paused = 0;
  pad_and_root_index = replicate 12 0;
  root_history = ring roots;
  filled_subtrees = replicate 640 0;
}

length-ring : (n : ℕ) → length (ring (replicate n 77)) ≡ 32 * n
length-ring zero = refl
length-ring (suc n) =
    omega (arith, length-append {0}, length-pairs-hex64 77 (omega arith), length-ring n)

layout-HasSizes : HasSizes layout
layout-HasSizes = record {
  discriminator_size = refl;
  admin_size = refl;
  mint_size = refl;
  denomination_size = refl;
  decimals_size = refl;
  next_index_size = refl;
  treasury_size = refl;
  version_size = refl;
  pad_size = refl;
  root_history_size = length-ring 256;
  filled_subtrees_size = length-replicate {A = ℕ} 640 0;
}

roots_small : (n : ℕ) → All (λ r. r < 2 ^ 256) (replicate n 77)
roots_small zero = tt
roots_small (suc n) = (omega arith, roots_small n)

abbrev account : Account
account = record { owner = replicate 32 7; bytes = serialize layout }

abbrev error : Json → Thrown
error = λ v. record { message = []; logs = [] }

-- A note whose nullifier account exists.
abbrev submission : Submission
submission = record {
  pool_bytes = serialize layout;
  nullifier = str (codes "9");
  root = str (codes "77");
  commitment = str (codes "42");
  relayer = replicate 32 8;
  recipient = replicate 32 3;
  fee_max = 2_000_000;
  lookup = some (record {
    find_pda = λ seeds program. some (replicate 32 4);
    get_account_info = λ k. reply (some (record { owner = replicate 32 7; bytes = 1 ∷ [] }));
    program = replicate 32 7;
    pool = replicate 32 5;
  });
}

preflight-pass_example :
    (preflight (λ xs. 42) error submission ≡ reply pass)
    ↔ (IsBound (λ xs. 42) submission × ¬ IsSpent submission)
preflight-pass_example = preflight-pass (λ xs. 42) error submission

replicate-IsBytes : (n b : ℕ) → b < 256 → IsBytes (replicate n b)
replicate-IsBytes zero b h = tt
replicate-IsBytes (suc n) b h = (h, replicate-IsBytes n b h)

replicate-IsKey : (b : ℕ) → b < 256 → IsKey (replicate 32 b)
replicate-IsKey b h = record { size = refl; bytes = replicate-IsBytes 32 b h }
