-- ===== src/App/ClusterGate/Identified.antt =====
-- A verdict that allows acting is about the cluster that the connection serves.
use solnado_cash.Base.{
  ℕ, ◌≡◌, refl, sym, ap, ◌∙◌, inl, inr, true, false, Option, none, some, List, [], ◌∷◌, Bool-cases,
  Option-cases, All, codes_eq, codes_eq_iff,
}
use solnado_cash.App.ClusterGate.{
  Texts, genesis_hashes, get, is_allowed, judge_hash, filled, ask, recall, verify_cluster, Call,
  identified_after,
}

some-injective : {A : Type 0} {a b : A} → some a ≡ some b → a ≡ b
some-injective h = cc

filled_inv : (o : Option (List ℕ)) (hash : List ℕ) → filled o ≡ some hash → o ≡ some hash
filled_inv none hash h = cc
filled_inv (some []) hash h = cc
filled_inv (some (c ∷ cs)) hash h = h

false_true : {C : Type 0} → false ≡ true → C
false_true h = cc

judge_hash-allowed :
    (allowed expected hash : List ℕ)
    → is_allowed (judge_hash allowed expected hash) ≡ true
    → hash ≡ expected
judge_hash-allowed allowed expected hash h = elim (Bool-cases (codes_eq hash expected)) [
  | inl same ↦ (codes_eq_iff hash expected).0 same
  | inr other ↦ false_true (rw other at h)
]

module _ (served : List ℕ → List ℕ) where
  -- An endpoint's genesis hash never changes: every answer of it is the same one.
  abbrev pub IsTruthful : Call → Type 0
  IsTruthful c = (hash : List ℕ) → c.answer ≡ some hash → hash ≡ served c.endpoint

  abbrev pub IsIdentified : Texts → Type 0
  IsIdentified = All (λ e. e.1 ≡ served e.0)

  get-served :
      (endpoint hash : List ℕ) (known : Texts)
      → IsIdentified known
      → get endpoint known ≡ some hash
      → hash ≡ served endpoint
  unfolding get
  get-served endpoint hash [] k h = cc
  get-served endpoint hash ((e, v) ∷ known) (first, rest) h =
      elim (Bool-cases (codes_eq e endpoint)) [
        | inl same ↦
            sym (some-injective (rw same at h))
            ∙ first
            ∙ ap served ((codes_eq_iff e endpoint).0 same)
        | inr other ↦ get-served endpoint hash known rest (rw other at h)
      ]

  ask-allowed :
      (allowed expected endpoint : List ℕ) (answer : Option (List ℕ)) (known : Texts)
      → ((hash : List ℕ) → answer ≡ some hash → hash ≡ served endpoint)
      → is_allowed (ask allowed expected endpoint answer known).0 ≡ true
      → served endpoint ≡ expected
  ask-allowed allowed expected endpoint none known t h = cc
  ask-allowed allowed expected endpoint (some hash) known t h =
      sym (t hash refl) ∙ judge_hash-allowed allowed expected hash h

  ask-IsIdentified :
      (allowed expected endpoint : List ℕ) (answer : Option (List ℕ)) (known : Texts)
      → ((hash : List ℕ) → answer ≡ some hash → hash ≡ served endpoint)
      → IsIdentified known
      → IsIdentified (ask allowed expected endpoint answer known).1
  ask-IsIdentified allowed expected endpoint none known t k = k
  ask-IsIdentified allowed expected endpoint (some hash) known t k = (t hash refl, k)

  verify_cluster-IsIdentified :
      (allowed : List ℕ) (c : Call) (known : Texts)
      → IsTruthful c
      → IsIdentified known
      → IsIdentified (verify_cluster allowed c.endpoint c.answer known).1
  unfolding verify_cluster
  verify_cluster-IsIdentified allowed c known t k =
      elim (Option-cases (get allowed genesis_hashes)) [
        | inl e ↦ rw e k
        | inr (expected, e) ↦ rw e (elim (Option-cases (filled (get c.endpoint known))) [
          | inl f ↦ rw f (ask-IsIdentified allowed expected c.endpoint c.answer known t k)
          | inr (hash, f) ↦ rw f k
        ])
      ]

  pub identified_after-IsIdentified :
      (allowed : List ℕ) (calls : List Call) (known : Texts)
      → All IsTruthful calls
      → IsIdentified known
      → IsIdentified (identified_after allowed calls known)
  unfolding identified_after
  identified_after-IsIdentified allowed [] known t k = k
  identified_after-IsIdentified allowed (c ∷ calls) known (first, rest) k =
      identified_after-IsIdentified allowed calls _ rest
        (verify_cluster-IsIdentified allowed c known first k)

  -- After any calls of the gate, the verdict lets the app act only if the genesis hash that the endpoint
  -- serves is the allowed cluster's, where every answer was the hash that its endpoint serves or none.
  pub verify_cluster-allowed :
      (allowed : List ℕ) (calls : List Call) (c : Call)
      → All IsTruthful calls
      → IsTruthful c
      → is_allowed
          (verify_cluster allowed c.endpoint c.answer (identified_after allowed calls [])).0
        ≡ true
      → get allowed genesis_hashes ≡ some (served c.endpoint)
  unfolding verify_cluster
  verify_cluster-allowed allowed calls c ts t h = elim (Option-cases (get allowed genesis_hashes)) [
    | inl e ↦ false_true (rw e at h)
    | inr (expected, e) ↦ e ∙ ap some (sym (served_is expected (rw e at h)))
  ]
    where
      known : Texts
      known = identified_after allowed calls []

      served_is :
          (expected : List ℕ)
          → is_allowed
              (recall allowed expected c.endpoint c.answer (filled (get c.endpoint known)) known).0
            ≡ true
          → served c.endpoint ≡ expected
      served_is expected allows = elim (Option-cases (filled (get c.endpoint known))) [
        | inl f ↦ ask-allowed allowed expected c.endpoint c.answer known t (rw f at allows)
        | inr (hash, f) ↦
            sym (
              get-served c.endpoint hash known
                (identified_after-IsIdentified allowed calls [] ts tt)
                (filled_inv (get c.endpoint known) hash f))
            ∙ judge_hash-allowed allowed expected hash (rw f at allows)
      ]
