-- ===== src/Relayer/Startup/Authority.antt =====
-- Which relayer keys are refused, on the accounts as the upgradeable loader lays them out.
use solnado_cash.Base.{
  ℕ, ◌+◌, ◌≡◌, refl, sym, ap, ◌∙◌, ◌≢◌, ◌↔◌, inl, inr, Bool-cases, Option, none, some, List, [],
  ◌∷◌, ◌++◌, arith, length, length-append, get_or, take, codes_eq_iff,
}
use solnado_cash.Base.Buffer.{subarray, little}
use solnado_cash.Base.Buffer.Laws.{take_all, drop_part, take_part}
use solnado_cash.Base.Chain.{Key, key_eq, Account, reply, ◌>>=◌}
use solnado_cash.Relayer.Startup.{
  Setup, program_bytes, program_data_bytes, authority_of, upgrade_authority, refuse_key,
  assert_not_upgrade_authority,
}

-- UpgradeableLoaderState::Program and ::ProgramData, the latter with its authority, if any.
abbrev pub program_layout : Key → List ℕ
program_layout address = 2 ∷ 0 ∷ 0 ∷ 0 ∷ address

abbrev pub data_layout : List ℕ → Option Key → List ℕ → List ℕ
data_layout slot none code = 3 ∷ 0 ∷ 0 ∷ 0 ∷ (slot ++ (0 ∷ code))
data_layout slot (some authority) code = 3 ∷ 0 ∷ 0 ∷ 0 ∷ (slot ++ (1 ∷ (authority ++ code)))

-- The program is deployed with this authority.
pub record IsDeployed (s : Setup) (program_id : Key) (authority : Option Key) : Type 0 where
  pub address : Key
  pub address_size : length address ≡ 32
  pub program :
      s.get_account_info program_id
      ≡ reply (some (record { owner = s.loader; bytes = program_layout address }))
  pub address_key : s.of_bytes address ≡ reply address
  pub slot : List ℕ
  pub slot_size : length slot ≡ 8
  pub code : List ℕ
  pub owner : Key
  pub data_account :
      s.get_account_info address
      ≡ reply (some (record { owner = owner; bytes = data_layout slot authority code }))

read_program :
    (s : Setup) (address : Key)
    → length address ≡ 32
    → program_bytes s (some (record { owner = s.loader; bytes = program_layout address }))
      ≡ reply (program_layout address)
unfolding program_bytes little
read_program s address h = rw ((codes_eq_iff s.loader s.loader).1 refl, h)

get_or-after : (xs : List ℕ) (y : ℕ) (ys : List ℕ) → get_or (xs ++ y ∷ ys) (length xs) 0 ≡ y
get_or-after [] y ys = refl
get_or-after (x ∷ xs) y ys = get_or-after xs y ys

at_tag : (slot : List ℕ) (y : ℕ) (ys : List ℕ) → length slot ≡ 8 → get_or (slot ++ y ∷ ys) 8 0 ≡ y
at_tag slot y ys h = ap (λ n. get_or (slot ++ y ∷ ys) n 0) (sym h) ∙ get_or-after slot y ys

read_data :
    (s : Setup) (slot rest : List ℕ) (owner : Key) (y : ℕ)
    → length slot ≡ 8
    → program_data_bytes s
        (some (record { owner = owner; bytes = 3 ∷ 0 ∷ 0 ∷ 0 ∷ (slot ++ (y ∷ rest)) }))
      ≡ reply (3 ∷ 0 ∷ 0 ∷ 0 ∷ (slot ++ (y ∷ rest)))
unfolding program_data_bytes little
read_data s slot rest owner y h =
    let long : length (slot ++ (y ∷ rest)) ≡ 9 + length rest =
      omega (arith, length-append slot (y ∷ rest), h) in
    ground (arith, long)

read_some :
    (s : Setup) (slot code : List ℕ) (authority : Key)
    → length slot ≡ 8
    → length authority ≡ 32
    → s.of_bytes authority ≡ reply authority
    → authority_of s (data_layout slot (some authority) code) ≡ reply (some authority)
unfolding authority_of
read_some s slot code authority h size key =
    let bytes : subarray (data_layout slot (some authority) code) 13 32 ≡ authority =
      ap (take 32) (drop_part 8 1 slot (1 ∷ (authority ++ code)) h)
      ∙ take_part 32 authority code size in
    rw (at_tag slot 1 (authority ++ code) h) (
      ap (λ b. s.of_bytes b >>= λ k. reply (some k)) bytes
      ∙ ap (λ r. r >>= λ k. reply (some k)) key)

-- The steps of the reading, each given.
steps :
    (s : Setup) (program_id address : Key) (program pd : Option Account) (bytes pd_bytes : List ℕ)
    → (authority : Option Key) → s.get_account_info program_id ≡ reply program
    → program_bytes s program ≡ reply bytes
    → s.of_bytes (subarray bytes 4 32) ≡ reply address
    → s.get_account_info address ≡ reply pd
    → program_data_bytes s pd ≡ reply pd_bytes
    → authority_of s pd_bytes ≡ reply authority
    → upgrade_authority s program_id ≡ reply authority
unfolding upgrade_authority
steps s program_id address program pd bytes pd_bytes authority a b c d e f = rw (a, b, c, d, e) f

-- Of a program deployed with an authority the check reads that authority.
upgrade_authority-some :
    (s : Setup) (program_id authority : Key)
    → IsDeployed s program_id (some authority)
    → length authority ≡ 32
    → s.of_bytes authority ≡ reply authority
    → upgrade_authority s program_id ≡ reply (some authority)
upgrade_authority-some s program_id authority d size key =
    steps s program_id d.address _ _ _ _ (some authority) d.program
      (read_program s d.address d.address_size)
      (ap s.of_bytes (take_all 32 d.address d.address_size) ∙ d.address_key) d.data_account
      (read_data s d.slot (authority ++ d.code) d.owner 1 d.slot_size)
      (read_some s d.slot d.code authority d.slot_size size key)

refuse_key_iff :
    (s : Setup) (relayer authority : Key)
    → (refuse_key s relayer (some authority) ≡ reply tt) ↔ (authority ≢ relayer)
refuse_key_iff s relayer authority = elim (Bool-cases (key_eq authority relayer)) [
  | inl same ↦
      (λ h. absurd (cc (rw same at h)), λ n. absurd (n ((codes_eq_iff authority relayer).0 same)))
  | inr other ↦ (λ h e. cc (other, (codes_eq_iff authority relayer).1 e), λ n. rw other)
]

-- For a program deployed with an upgrade authority, as the loader lays its accounts out, the relayer
-- is let start exactly when its key is not that authority.
pub assert_not_upgrade_authority_iff :
    (s : Setup) (program_id authority relayer : Key)
    → IsDeployed s program_id (some authority)
    → length authority ≡ 32
    → s.of_bytes authority ≡ reply authority
    → (assert_not_upgrade_authority s program_id relayer ≡ reply tt) ↔ (authority ≢ relayer)
unfolding assert_not_upgrade_authority
assert_not_upgrade_authority_iff s program_id authority relayer d size key =
    rw (upgrade_authority-some s program_id authority d size key)
      (refuse_key_iff s relayer authority)
