-- ===== src/Base/Chain.antt =====
-- What the program sees of @solana/web3.js: keys, accounts, and calls that may throw.
use solnado_cash.Base.{ℕ, ◌≡◌, Bool, List, ◌∷◌, ◌++◌, length, codes_eq}

-- A `PublicKey`, by its 32 bytes. `a.equals(b)` compares them.
abbrev pub Key : Type 0
Key = List ℕ

abbrev pub key_eq : Key → Key → Bool
key_eq = codes_eq

pub record Account : Type 0 where
  pub owner : Key
  pub bytes : List ℕ

-- An `Error`: its message and the program logs that it carries, as code units.
pub record Thrown : Type 0 where
  pub message : List ℕ
  pub logs : List (List ℕ)

-- The outcome of an awaited call.
pub data Reply {ℓ} (A : Type ℓ) : Type ℓ where
  reply : A → Reply A
  throw : Thrown → Reply A

infixl 5 ◌>>=◌
abbrev pub ◌>>=◌ {ℓ κ} : {A : Type ℓ} {B : Type κ} → Reply A → (A → Reply B) → Reply B
reply a >>= f = f a
throw e >>= f = throw e

-- The Pool account of programs/solnadocash/src/state.rs, as parts in their order.
pub record PoolLayout : Type 0 where
  pub discriminator : List ℕ
  pub admin : List ℕ
  pub mint : List ℕ
  pub denomination : List ℕ
  pub decimals_and_pad : List ℕ
  pub next_index : List ℕ
  pub treasury : List ℕ
  pub version_and_bumps : List ℕ
  pub is_paused : ℕ
  pub pad_and_root_index : List ℕ
  pub root_history : List ℕ
  pub filled_subtrees : List ℕ

pub record HasSizes (p : PoolLayout) : Type 0 where
  pub discriminator_size : length p.discriminator ≡ 8
  pub admin_size : length p.admin ≡ 32
  pub mint_size : length p.mint ≡ 32
  pub denomination_size : length p.denomination ≡ 8
  pub decimals_size : length p.decimals_and_pad ≡ 8
  pub next_index_size : length p.next_index ≡ 8
  pub treasury_size : length p.treasury ≡ 32
  pub version_size : length p.version_and_bumps ≡ 3
  pub pad_size : length p.pad_and_root_index ≡ 12
  pub root_history_size : length p.root_history ≡ 8192
  pub filled_subtrees_size : length p.filled_subtrees ≡ 640

abbrev pub serialize : PoolLayout → List ℕ
serialize p =
    p.discriminator
    ++ (p.admin
        ++ (p.mint
            ++ (p.denomination
                ++ (p.decimals_and_pad
                    ++ (p.next_index
                        ++ (p.treasury
                            ++ (p.version_and_bumps
                                ++ (p.is_paused
                                    ∷ (p.pad_and_root_index
                                        ++ (p.root_history ++ p.filled_subtrees))))))))))
