-- ===== src/App/ClusterGate.antt =====
-- app/src/utils/clusterGate.ts: nothing acts until the cluster behind the connection is identified as the
-- allowed one. The answer of getGenesisHash is `none` when it fails or times out.
pub mod Identified
use solnado_cash.Base.{
  ℕ, Bool, true, false, not, Option, none, some, List, [], ◌∷◌, if◌then◌else◌, codes_eq,
}
use solnado_cash.Base.Text.{codes}

-- A Map from texts to texts, the newest entry first.
abbrev pub Texts : Type 0
Texts = List (List ℕ × List ℕ)

abbrev pub genesis_hashes : Texts
genesis_hashes =
    (codes "mainnet-beta", codes "5eykt4UsFv8P8NJdTREpY1vzqKqZKvdpKuc147dw2N9d")
    ∷ (codes "devnet", codes "EtWTRABZaYq6iMfeYKouRu166VU2xqa1wcaWoxPkrZBG")
    ∷ (codes "testnet", codes "4uhcVJyU9pJkvQyS88uRDiswHXSCkY3zQawwpjk2NsNY")
    ∷ []

unfoldable pub get : List ℕ → Texts → Option (List ℕ)
get key [] = none
get key ((k, v) ∷ rest) = if codes_eq k key then some v else get key rest

-- The name of the first cluster with that hash.
unfoldable pub name_of : List ℕ → Texts → Option (List ℕ)
name_of hash [] = none
name_of hash ((k, v) ∷ rest) = if codes_eq v hash then some k else name_of hash rest

abbrev pub allowed_cluster : Option (List ℕ) → List ℕ
allowed_cluster none = codes "devnet"
allowed_cluster (some name) = name

pub data Verdict : Type 0 where
  acts_on : List ℕ → List ℕ → Verdict
  wrong_cluster : Option (List ℕ) → Verdict
  unverified : Verdict

abbrev pub is_allowed : Verdict → Bool
is_allowed (acts_on cluster hash) = true
is_allowed (wrong_cluster cluster) = false
is_allowed unverified = false

abbrev pub judge_hash : List ℕ → List ℕ → List ℕ → Verdict
judge_hash allowed expected hash =
    if codes_eq hash expected
    then acts_on allowed hash
    else wrong_cluster (name_of hash genesis_hashes)

-- An empty text counts as no hash.
abbrev pub filled : Option (List ℕ) → Option (List ℕ)
filled none = none
filled (some []) = none
filled (some (c ∷ cs)) = some (c ∷ cs)

-- The verdict, and `identified` after the call: only an answer is remembered.
abbrev pub ask : List ℕ → List ℕ → List ℕ → Option (List ℕ) → Texts → Verdict × Texts
ask allowed expected endpoint none identified = (unverified, identified)
ask allowed expected endpoint (some hash) identified =
    (judge_hash allowed expected hash, (endpoint, hash) ∷ identified)

abbrev pub recall :
    List ℕ → List ℕ → List ℕ → Option (List ℕ) → Option (List ℕ) → Texts → Verdict × Texts
recall allowed expected endpoint answer none identified =
    ask allowed expected endpoint answer identified
recall allowed expected endpoint answer (some hash) identified =
    (judge_hash allowed expected hash, identified)

abbrev pub verify_against :
    List ℕ → List ℕ → Option (List ℕ) → Option (List ℕ) → Texts → Verdict × Texts
verify_against allowed endpoint answer none identified = (unverified, identified)
verify_against allowed endpoint answer (some expected) identified =
    recall allowed expected endpoint answer (filled (get endpoint identified)) identified

unfoldable pub verify_cluster : List ℕ → List ℕ → Option (List ℕ) → Texts → Verdict × Texts
unfolding get name_of
verify_cluster allowed endpoint answer identified =
    verify_against allowed endpoint answer (get allowed genesis_hashes) identified

-- A call of the gate: the endpoint, and what it answered.
pub record Call : Type 0 where
  pub endpoint : List ℕ
  pub answer : Option (List ℕ)

-- `identified` after the calls of a page.
unfoldable pub identified_after : List ℕ → List Call → Texts → Texts
unfolding verify_cluster
identified_after allowed [] identified = identified
identified_after allowed (c ∷ calls) identified =
    identified_after allowed calls (verify_cluster allowed c.endpoint c.answer identified).1
