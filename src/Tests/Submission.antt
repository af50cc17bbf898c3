-- ===== src/Tests/Submission.antt =====
-- relayer/src/api.js: a submission that is sent, one whose note is spent meanwhile, and a quote.
use solnado_cash.Base.{
  ℕ, ◌≡◌, refl, Bool, true, false, Option, none, some, List, [], ◌∷◌, ◌++◌, replicate,
}
use solnado_cash.Base.{codes_eq, elem}
use solnado_cash.Base.Radix.{digits, digits_onto, pad_start, value, value_from}
use solnado_cash.Base.Buffer.{hex64, pairs, little, big}
use solnado_cash.Base.Json.{truthy, to_bigint, string_to_bigint, Json, str, array, items}
use solnado_cash.Base.Text.{codes}
use solnado_cash.Base.Chain.{Thrown, reply, serialize}
use solnado_cash.Relayer.Fees.{
  fees_missing, RentCache, plan_fee, get_nullifier_rent, get_priority_fee_per_cu,
  priority_fee_lamports, priority_per_cu_from_lamports,
}
use solnado_cash.Relayer.Preflight.{preflight}
use solnado_cash.Relayer.Pool.{load_pool, pool_info, pool_discriminator}
use solnado_cash.Relayer.Tx.{Cluster, groth16, Transaction, confirmed, ChainError, submit_withdraw}
use solnado_cash.Relayer.Node.{rent_read, Node}
use solnado_cash.Relayer.Request.{Body}
use solnado_cash.Relayer.Submit.{handle_submit, Handled}
use solnado_cash.Base.{◌+◌, ◌≤◌, ◌↔◌, arith, pos}
use solnado_cash.Relayer.Response.{Quote, withdrawn, failure, quoted, nullifier_spent}
use solnado_cash.Relayer.Fees.{
  base_fee, compute_relayer_cost, fee_max_from_cost, compute_treasury_fee,
  compute_min_user_receives,
}
use solnado_cash.Relayer.Tx.Built.{price_of}
use solnado_cash.Relayer.Submit.Safety.{handle_submit-reimbursed}
use solnado_cash.Relayer.Submit.Answers.{
  Confirms, handle_submit-withdrawn, handle_submit-reverted_spent,
}
use solnado_cash.Relayer.Quote.{fee_quote}
use solnado_cash.Base.Outcome.{ok}
use solnado_cash.Sdk.Fees.{FeeBreakdown, validate_fee_quote}
use solnado_cash.Sdk.Fees.Checked.{read_quote, validate_fee_quote-fair}
use solnado_cash.Relayer.Quote.Terms.{fee_quote-IsFair}

abbrev no_cache : RentCache
no_cache = λ _. none

abbrev error : Thrown
error = record { message = []; logs = [] }

-- One SOL; the root 5 is in the ring.
abbrev pool_bytes : List ℕ
pool_bytes = serialize (record {
  discriminator = pool_discriminator;
  admin = replicate 32 1;
  mint = replicate 32 0;
  denomination = 0 ∷ 0xca ∷ 0x9a ∷ 0x3b ∷ replicate 4 0;
  decimals_and_pad = replicate 8 0;
  next_index = replicate 8 0;
  treasury = replicate 32 2;
  version_and_bumps = replicate 3 0;
  is_paused = 0;
  pad_and_root_index = replicate 12 0;
  root_history = replicate 31 0 ++ (5 ∷ replicate 8160 0);
  filled_subtrees = replicate 640 0;
})

abbrev cluster_with : Option ChainError → Cluster
cluster_with e = record {
  load_idl = reply tt;
  find_pda = λ seeds program. reply (replicate 32 9);
  instruction = reply tt;
  latest_blockhash = reply tt;
  deliver = λ t. confirmed (codes "sig") e;
}

abbrev node_with : Option ChainError → Node
node_with e = record {
  program = replicate 32 7;
  relayer = replicate 32 8;
  to_key = λ v. some (replicate 32 3);
  hash = λ xs. 42;
  throws = record { bigint = λ v. error; property = error };
  pool_account = λ k. reply (some (record { owner = replicate 32 7; bytes = pool_bytes }));
  nullifier_account = λ k. reply none;
  find_pda = λ seeds program. some (replicate 32 4);
  connection = 0;
  rent_checked = 1000;
  rent_stored = 1001;
  rent_rpc = λ size. some 1_000_000;
  fees_rpc = λ scope. fees_missing;
  get_balance = reply 20_000_000;
  verify = λ proof signals. reply true;
  cluster = cluster_with e;
}

abbrev number : Json
number = str (codes "1")

abbrev body : Body
body = record {
  proof = groth16 (record {
    a0 = number;
    a1 = number;
    b00 = number;
    b01 = number;
    b10 = number;
    b11 = number;
    c0 = number;
    c1 = number;
  });
  public_signals = array (items (str (codes "9") ∷ str (codes "5") ∷ str (codes "42") ∷ []));
  pool_address = str (codes "pool");
  recipient = str (codes "recipient");
  relayer_fee_max = str (codes "2000000");
}

abbrev outcome : Handled
outcome = handle_submit (node_with none) no_cache body

abbrev was_handed : Option Transaction → Bool
was_handed none = false
was_handed (some t) = true

the_handed : (o : Option Transaction) → was_handed o ≡ true → (t : Transaction) × (o ≡ some t)
the_handed none h = absurd (cc h)
the_handed (some t) h = (t, refl)

sent : was_handed outcome.handed ≡ true
unfolding handle_submit load_pool preflight plan_fee get_nullifier_rent get_priority_fee_per_cu
    submit_withdraw truthy to_bigint string_to_bigint codes_eq elem digits digits_onto pad_start
    hex64 pairs little big value value_from priority_fee_lamports priority_per_cu_from_lamports
    pool_info
sent = refl

abbrev transaction : Transaction
transaction = (the_handed outcome.handed sent).0

handle_submit-reimbursed_example :
    (balance : ℕ) × (transaction.relayer_fee_taken
      ≡ base_fee
        + (rent_read (node_with none) no_cache).0
        + priority_fee_lamports (price_of transaction))
    × (transaction.relayer_fee_taken ≤ transaction.relayer_fee_max)
    × ((node_with none).get_balance ≡ reply balance)
    × (10_000_000 ≤ balance)
handle_submit-reimbursed_example =
    handle_submit-reimbursed (node_with none) no_cache body transaction
      (the_handed outcome.handed sent).1

handle_submit-withdrawn_example :
    ((handle_submit (node_with none) no_cache body).response ≡ withdrawn (codes "sig") 1_005_000)
    ↔ Confirms
        (node_with none)
        (codes "sig")
        1_005_000
        (handle_submit (node_with none) no_cache body).handed
handle_submit-withdrawn_example =
    handle_submit-withdrawn (node_with none) (codes "sig") 1_005_000 no_cache body

-- The note is spent between the checks and the execution.
abbrev spent : ChainError
spent = record { json = []; custom = some 6004 }

abbrev reverted_outcome : Handled
reverted_outcome = handle_submit (node_with (some spent)) no_cache body

sent_in_vain : was_handed reverted_outcome.handed ≡ true
unfolding handle_submit load_pool preflight plan_fee get_nullifier_rent get_priority_fee_per_cu
    submit_withdraw truthy to_bigint string_to_bigint codes_eq elem digits digits_onto pad_start
    hex64 pairs little big value value_from priority_fee_lamports priority_per_cu_from_lamports
    pool_info
sent_in_vain = refl

handle_submit-reverted_spent_example :
    (handle_submit (node_with (some spent)) no_cache body).response ≡ failure 400 nullifier_spent
handle_submit-reverted_spent_example =
    handle_submit-reverted_spent (node_with (some spent)) no_cache body
      (the_handed reverted_outcome.handed sent_in_vain).0 (codes "sig") spent
      (the_handed reverted_outcome.handed sent_in_vain).1 refl refl

abbrev quote : Quote
quote = record {
  relayer_address = replicate 32 8;
  relayer_fee_max = 1_507_500;
  valid_until = 30_005;
  estimated_user_receives = pos 996_492_500;
  treasury_fee = 2_000_000;
  denomination = 1_000_000_000;
}

quoted_terms : (fee_quote (node_with none) no_cache 5 (str (codes "pool"))).0 ≡ quoted quote
unfolding fee_quote load_pool get_nullifier_rent get_priority_fee_per_cu truthy codes_eq little
    compute_relayer_cost fee_max_from_cost compute_treasury_fee compute_min_user_receives
    priority_fee_lamports pool_info
quoted_terms = refl

validate_fee_quote-fair_example :
    (b : FeeBreakdown) × (validate_fee_quote 6 quote.denomination (read_quote quote) none ≡ ok b)
    × (b.relayer_fee_max ≡ quote.relayer_fee_max)
    × (b.treasury_fee ≡ quote.treasury_fee)
    × (quote.estimated_user_receives ≡ pos b.user_receives_min)
validate_fee_quote-fair_example =
    validate_fee_quote-fair (node_with none) (rent_read (node_with none) no_cache).0 6 quote
      (fee_quote-IsFair (node_with none) no_cache 5 (str (codes "pool")) quote quoted_terms)
      (omega arith) (omega arith)
