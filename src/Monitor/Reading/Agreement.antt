-- ===== src/Monitor/Reading/Agreement.antt =====
-- The monitor and the relayer take the same accounts for pools.
use solnado_cash.Base.{
  ℕ, ◌≡◌, refl, inl, inr, Bool-cases, Option, none, some, ltb, codes_eq, length,
}
use solnado_cash.Base.Buffer.{subarray}
use solnado_cash.Base.Chain.{key_eq, Account}
use solnado_cash.Monitor.Watch.{PoolRead, read_refused, read_pool}
use solnado_cash.Monitor.Reading.{Reader, read_account, off_admin}
use solnado_cash.Relayer.Pool.{
  Loaded, loaded, refused, pool_info, check_pool, pool_account_len, pool_discriminator,
}

-- What the monitor makes of what the relayer's loader says.
abbrev pub seen : Reader → ℕ → ℕ → Loaded → PoolRead
seen r vault_lamports vault_rent (refused status code) = read_refused
seen r vault_lamports vault_rent (loaded p) =
    read_pool
      (record {
        label = r.label_of p.denomination;
        denomination = p.denomination;
        deposits = p.next_index;
        vault_lamports = vault_lamports;
        vault_rent = vault_rent;
        is_paused = p.is_paused;
      })
      (r.of_bytes (subarray p.bytes off_admin 32)) (r.of_bytes p.treasury)

-- The monitor accepts an account as a pool exactly when the relayer's loader does, and reads the same
-- denomination, deposits, treasury and pause flag of it.
pub read_account-check_pool :
    (r : Reader) (info : Option Account) (vault_lamports vault_rent : ℕ)
    → read_account r info vault_lamports vault_rent
      ≡ seen r vault_lamports vault_rent (check_pool r.program info)
unfolding read_account check_pool pool_info
read_account-check_pool r none vault_lamports vault_rent = refl
read_account-check_pool r (some info) vault_lamports vault_rent =
    elim (Bool-cases (key_eq info.owner r.program)) [
      | inr other ↦ rw other
      | inl own ↦ elim (Bool-cases (ltb (length info.bytes) pool_account_len)) [
        | inl short ↦ rw (own, short)
        | inr long ↦ elim (Bool-cases (codes_eq (subarray info.bytes 0 8) pool_discriminator)) [
          | inl tagged ↦ rw (own, long, tagged)
          | inr untagged ↦ rw (own, long, untagged)
        ]
      ]
    ]
