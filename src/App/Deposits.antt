-- ===== src/App/Deposits.antt =====
-- app/src/utils/merkle.ts, one transaction: the deposit instructions that it carries, and the leaf
-- indices that its events give them. `decode58` is `bs58.decode` and `parse_logs` Anchor's
-- `EventParser.parseLogs`, parameters. A list that the RPC leaves out (`?? []`) is the empty one.
use solnado_cash.Base.{
  ℤ, pos, negsuc, ℕ, ◌+◌, Bool, true, false, ◌&&◌, Option, none, some, List, [], ◌∷◌, ◌++◌, ltb,
  ◌==◌, if◌then◌else◌, length, get_elem?, codes_eq,
}
use solnado_cash.Base.Buffer.{subarray, big}
use solnado_cash.Base.Text.{codes, starts_with}
use solnado_cash.Base.Outcome.{Outcome, ok, ◌>>=◌, from_option}

-- Addresses and signatures are base58 texts.
abbrev pub Base58 : Type 0
Base58 = List ℕ

-- The `deposit` instruction's discriminator in the IDL.
abbrev pub deposit_discriminator : List ℕ
deposit_discriminator = 242 ∷ 35 ∷ 198 ∷ 137 ∷ 82 ∷ 225 ∷ 242 ∷ 182 ∷ []

pub record RawInstruction : Type 0 where
  pub program_id_index : ℕ
  pub accounts : List ℕ
  pub data_text : Base58

pub record InnerGroup : Type 0 where
  pub outer_index : ℕ
  pub inner : List RawInstruction

pub record Meta : Type 0 where
  pub failed : Bool
  pub log_messages : List (List ℕ)
  pub inner_instructions : List InnerGroup
  pub loaded_writable : List Base58
  pub loaded_readonly : List Base58

-- The slot is `none` when the RPC reports no integer.
pub record RawTransaction : Type 0 where
  pub slot : Option ℕ
  pub account_keys : List Base58
  pub instructions : List RawInstruction
  pub meta : Option Meta

-- An event of the program: its name, the leaf's bytes, and the index under both spellings.
pub record Event : Type 0 where
  pub event_name : List ℕ
  pub leaf_bytes : List ℕ
  pub leaf_index : Option ℤ
  pub camel_leaf_index : Option ℤ

pub data ScanError : Type 0 where
  rpc_failed : List ℕ → ScanError
  undecodable : ScanError
  unusable_leaf_index : ScanError
  no_slot : Base58 → ScanError
  not_in_block : ℕ → Base58 → ScanError
  still_reading : ScanError

pub record Deposit : Type 0 where
  pub pool : Base58
  pub leaf : ℕ

pub record Indexed : Type 0 where
  pub leaf : ℕ
  pub leaf_index : ℕ

-- keys[i] for the three lists of keys, in their order
abbrev pub transaction_keys : List Base58 → Meta → List Base58
transaction_keys account_keys m = account_keys ++ (m.loaded_writable ++ m.loaded_readonly)

-- inner.get(i) ?? []: a later group with the same index replaces an earlier one.
unfoldable pub inner_of : ℕ → List InnerGroup → List RawInstruction → List RawInstruction
inner_of i [] found = found
inner_of i (g ∷ gs) found = inner_of i gs (if g.outer_index == i then g.inner else found)

abbrev pub text_is : Option Base58 → Base58 → Bool
text_is none k = false
text_is (some t) k = codes_eq t k

abbrev pub deposit_of : Option Base58 → ℕ → Option Deposit
deposit_of none leaf = none
deposit_of (some p) leaf = some (record { pool = p; leaf = leaf })

-- `consider`, once the data is decoded: the instruction's deposit, if it is one.
unfoldable pub deposit_in : List Base58 → List ℕ → List ℕ → Option Deposit
deposit_in keys [] data_bytes = none
deposit_in keys (a ∷ others) data_bytes =
    if ltb (length data_bytes) 40
    then none
    else if starts_with data_bytes deposit_discriminator
    then deposit_of (get_elem? keys a) (big (subarray data_bytes 8 32))
    else none

unfoldable pub listed {ℓ} : {A : Type ℓ} → Option A → List A → List A
listed none xs = xs
listed (some x) xs = x ∷ xs

-- Every top-level instruction followed by the inner ones it invoked, from index i on.
unfoldable pub in_order : ℕ → List RawInstruction → List InnerGroup → List RawInstruction
unfolding inner_of
in_order i [] groups = []
in_order i (ix ∷ ixs) groups = ix ∷ (inner_of i groups [] ++ in_order (i + 1) ixs groups)

abbrev pub is_deposit_event : Event → Bool
is_deposit_event e =
    if codes_eq e.event_name (codes "DepositEvent")
    then true
    else codes_eq e.event_name (codes "depositEvent")

-- leaf_index ?? leafIndex
abbrev pub raw_index : Option ℤ → Option ℤ → Option ℤ
raw_index (some i) camel = some i
raw_index none camel = camel

-- The guard on `Number(rawIndex)`.
abbrev pub usable_index : Option ℤ → Option ℕ
usable_index none = none
usable_index (some (pos n)) = some n
usable_index (some (negsuc n)) = none

unfoldable pub read_events : List Event → Outcome ScanError (List Indexed)
read_events [] = ok []
read_events (e ∷ es) =
    let rest = read_events es in
    if is_deposit_event e
    then (do
      i ← from_option unusable_leaf_index (usable_index (raw_index e.leaf_index e.camel_leaf_index))
      others ← rest
      ok (record { leaf = big e.leaf_bytes; leaf_index = i } ∷ others))
    else rest

-- No more events than deposits, and leaf by leaf the same.
unfoldable pub aligned : List Indexed → List Deposit → Bool
aligned [] deposits = true
aligned (e ∷ es) [] = false
aligned (e ∷ es) (d ∷ ds) = e.leaf == d.leaf && aligned es ds

-- A deposit into the pool, with the index its event gives it or with its place in the transaction.
pub record Sorted : Type 0 where
  pub indexed : List Indexed
  pub unindexed : List (ℕ × ℕ)

abbrev pub add_indexed : ℕ → ℕ → Sorted → Sorted
add_indexed leaf i s = record s { indexed = record { leaf = leaf; leaf_index = i } ∷ s.indexed }

abbrev pub add_unindexed : ℕ → ℕ → Sorted → Sorted
add_unindexed leaf k s = record s { unindexed = (leaf, k) ∷ s.unindexed }

-- The loop over the deposits from place k on. The events are those left, none when not aligned.
unfoldable pub pair_up : Base58 → ℕ → List Indexed → List Deposit → Sorted
pair_up pool_key k events [] = record { indexed = []; unindexed = [] }
pair_up pool_key k [] (d ∷ ds) =
    let rest = pair_up pool_key (k + 1) [] ds in
    if codes_eq d.pool pool_key then add_unindexed d.leaf k rest else rest
pair_up pool_key k (e ∷ es) (d ∷ ds) =
    let rest = pair_up pool_key (k + 1) es ds in
    if codes_eq d.pool pool_key then add_indexed d.leaf e.leaf_index rest else rest

module _ (decode58 : Base58 → Option (List ℕ)) (program_key : Base58) where
  unfoldable pub consider : List Base58 → RawInstruction → Outcome ScanError (Option Deposit)
  unfolding deposit_in
  consider keys ix =
      if text_is (get_elem? keys ix.program_id_index) program_key
      then (do
        data_bytes ← from_option undecodable (decode58 ix.data_text)
        ok (deposit_in keys ix.accounts data_bytes))
      else ok none

  unfoldable pub consider_all : List Base58 → List RawInstruction → Outcome ScanError (List Deposit)
  unfolding consider listed
  consider_all keys [] = ok []
  consider_all keys (ix ∷ ixs) = do
    d ← consider keys ix
    ds ← consider_all keys ixs
    ok (listed d ds)

  unfoldable pub deposit_instructions : RawTransaction → Meta → Outcome ScanError (List Deposit)
  unfolding consider_all in_order
  deposit_instructions tx m =
      consider_all (transaction_keys tx.account_keys m)
        (in_order 0 tx.instructions m.inner_instructions)

  module _ (parse_logs : List (List ℕ) → List Event) (pool_key : Base58) where
    -- The body of the scan's loop over the transactions.
    unfoldable pub sort_deposits : RawTransaction → Meta → Outcome ScanError Sorted
    unfolding deposit_instructions read_events aligned pair_up
    sort_deposits tx m = do
      deposits ← deposit_instructions tx m
      events ← read_events (parse_logs m.log_messages)
      ok (pair_up pool_key 0 (if aligned events deposits then events else []) deposits)
