-- ===== src/App/Rebuild/Recover.antt =====
-- What a rebuilt tree is known to be, and that a cache cannot prevent the rebuild.
use solnado_cash.Base.{
  ℕ, ◌+◌, ◌≡◌, refl, sym, ◌∙◌, true, false, Option, some, List, [], ◌∷◌, map, arith, ◌==◌,
  Bool-cases, length, length-map, elem, inl, inr, Bool, ==_iff,
}
use mathlib.Core.Path.{subst, ap₂}
use solnado_cash.Base.Chain.{Account}
use solnado_cash.Base.Outcome.{
  Outcome, ok, err, bind_inv, Outcome-cases, ok-injective, err-ok, from_option, from_option_inv,
}
use solnado_cash.Sdk.MerkleTree.{Tree, next_index, root, index_of, new_tree, tree_depth}
use solnado_cash.Sdk.MerkleTree.Insert.{IsTreeOf, new_tree-IsTreeOf, rebuild-IsTreeOf, leaf_layer}
use solnado_cash.Sdk.PoolState.{
  PoolTreeState, Verified, Mismatch, read_pool_tree_state, match_state, unknown_root,
}
use solnado_cash.App.Deposits.{Base58, ScanError}
use solnado_cash.App.Scan.{ScanResult}
use solnado_cash.App.LeafCache.{LeafCache, leaf_to_bigint}
use solnado_cash.App.Rebuild.Assemble.{length-assemble}
use solnado_cash.App.Rebuild.{
  Gathered, Rebuilt, Failure, matched, assemble, gather, gather_all, build_tree, built,
  verify_built, rescan, rebuild_merkle_tree,
}

index_of-elem : (x i k : ℕ) (xs : List ℕ) → index_of x i xs ≡ some k → elem x xs ≡ true
unfolding index_of elem
index_of-elem x i k [] h = cc
index_of-elem x i k (y ∷ ys) h = elim (Bool-cases (y == x)) [
  | inl same ↦ rw same
  | inr differs ↦ rw differs (index_of-elem x (i + 1) k ys (rw differs at h))
]

no_leaves : (xs : List ℕ) → length xs ≡ 0 → xs ≡ []
no_leaves [] h = refl
no_leaves (x ∷ xs) h = absurd (omega arith)

module _ (hash : List ℕ → ℕ) where
  -- The tree holds the leaves in order, as many as the pool counts, under a root of the pool's history.
  pub record IsVerified (r : Rebuilt) (state : PoolTreeState) : Type 0 where
    pub tree_of : IsTreeOf hash r.tree r.leaves
    pub counted : length r.leaves ≡ state.next_index
    pub known_root : elem (root r.tree) state.roots ≡ true

  match_state_sound :
      (t : Tree) (state : PoolTreeState) (v : Verified)
      → match_state t state ≡ ok v
      → (next_index t ≡ state.next_index) × (elem (root t) state.roots ≡ true)
  unfolding match_state
  match_state_sound t state v h = elim (Bool-cases (next_index t == state.next_index)) [
    | inl same ↦
        let (i, found, _) =
          bind_inv (from_option unknown_root (index_of (root t) 0 state.roots)) _ v
            (rw same at h) in
        (
          (==_iff (next_index t) state.next_index).0 same,
          index_of-elem (root t) 0 i state.roots (from_option_inv unknown_root _ i found),
        )
    | inr differs ↦ (err-ok (rw differs at h))
  ]

  matched_inv :
      {A : Type 0} (cleared : Bool) (o : Outcome Mismatch A) (a : A)
      → matched cleared o ≡ ok a
      → o ≡ ok a
  matched_inv cleared (ok b) a h = cc
  matched_inv cleared (err e) a h = cc

  build_tree-IsTreeOf : (leaves : List ℕ) → IsTreeOf hash (build_tree hash leaves) leaves
  unfolding build_tree
  build_tree-IsTreeOf leaves =
      rebuild-IsTreeOf hash (new_tree hash tree_depth) [] leaves (new_tree-IsTreeOf hash tree_depth)

  verify_built_sound :
      (g : Gathered) (state : PoolTreeState) (r : Rebuilt)
      → verify_built hash (built hash g) state ≡ ok r
      → IsVerified r state
  unfolding verify_built built
  verify_built_sound g state r h =
      let (v, verified, e) =
        bind_inv (matched g.cleared (match_state (build_tree hash g.leaves) state)) _ r h in
      let (count, known) =
        match_state_sound (build_tree hash g.leaves) state v (matched_inv g.cleared _ v verified) in
      let tree_of = build_tree-IsTreeOf g.leaves in
      let holds : IsVerified (built hash g) state = record {
        tree_of = tree_of;
        counted = sym (leaf_layer hash (build_tree hash g.leaves) g.leaves tree_of) ∙ count;
        known_root = known;
      } in
      subst (λ b. IsVerified b state) (ok-injective e) holds

  rescan_sound :
      (cached : LeafCache) (again : Outcome ScanError ScanResult) (state : PoolTreeState)
      (first : Outcome Failure Rebuilt) (r : Rebuilt)
      → ((b : Rebuilt) → first ≡ ok b → IsVerified b state)
      → rescan hash cached again state first ≡ ok r
      → IsVerified r state
  unfolding rescan
  rescan_sound cached again state (ok b) r k h = k r h
  rescan_sound cached again state (err e) r k h = elim (Bool-cases (length cached.leaves == 0)) [
    | inl fresh ↦ (err-ok (rw fresh at h))
    | inr used ↦
        let (g, _, checked) = bind_inv (gather_all again state.next_index) _ r (rw used at h) in
        verify_built_sound g state r checked
  ]

  -- A tree that the rebuild returns agrees with the account it was checked against, whatever the cache
  -- held and the scans answered.
  pub rebuild_merkle_tree-IsVerified :
      (account : Account) (cached : LeafCache)
      (newer : Option Base58 → Outcome ScanError ScanResult)
      (full again : Outcome ScanError ScanResult) (r : Rebuilt)
      → rebuild_merkle_tree hash (some account) cached newer full again ≡ ok r
      → (state : PoolTreeState) × (read_pool_tree_state account.bytes ≡ ok state)
        × IsVerified r state
  unfolding rebuild_merkle_tree
  rebuild_merkle_tree-IsVerified account cached newer full again r h =
      let (state, read, rest) =
        bind_inv (matched false (read_pool_tree_state account.bytes)) _ r h in
      let (g, _, checked) = bind_inv (gather cached newer full state.next_index) _ r rest in
      (
        state,
        matched_inv false (read_pool_tree_state account.bytes) state read,
        rescan_sound cached again state (verify_built hash (built hash g) state) r
            (λ b e. verify_built_sound g state b e) checked,
      )

  -- A scan's leaves pass the check.
  pub record Passes (s : ScanResult) (state : PoolTreeState) : Type 0 where
    pub verified : Verified
    pub passes : match_state (build_tree hash (assemble [] s state.next_index)) state ≡ ok verified

  verify-Passes :
      (s : ScanResult) (state : PoolTreeState) (g : Gathered)
      → Passes s state
      → g.leaves ≡ assemble [] s state.next_index
      → verify_built hash (built hash g) state ≡ ok (built hash g)
  unfolding verify_built built
  verify-Passes s state g p e =
      let passes : match_state (build_tree hash g.leaves) state ≡ ok p.verified = rw e p.passes in
      rw passes refl

  -- What is gathered when the scans answer; without cached leaves it is what the first scan found.
  gather-first :
      (cached : LeafCache) (newer : Option Base58 → Outcome ScanError ScanResult)
      (s first : ScanResult) (n : ℕ)
      → newer cached.last_signature ≡ ok s
      → (length cached.leaves ≡ 0 → s ≡ first)
      → (g : Gathered) × (gather cached newer (ok first) n ≡ ok g)
        × ((length cached.leaves ≡ 0) → g.leaves ≡ assemble [] first n)
  unfolding gather gather_all
  gather-first cached newer s first n hn hc =
      let known : List ℕ = map leaf_to_bigint cached.leaves in
      let count : length known ≡ length cached.leaves = length-map leaf_to_bigint cached.leaves in
      elim (Bool-cases (length known == n)) [
        | inl enough ↦ rw enough (
          _,
          refl,
          λ z.
              no_leaves known (count ∙ z)
              ∙ sym (
                  no_leaves (assemble [] first n) (
                    omega (
                      arith,
                      (==_iff (length known) n).0 enough,
                      length-assemble [] first n,
                      count,
                      z,
                    ))),
        )
        | inr fewer ↦
            rw (fewer, hn)
              (elim (Bool-cases (length (assemble known s n) == n)) [
                | inl complete ↦
                    rw complete (
                      _,
                      refl,
                      λ z. ap₂ (λ k t. assemble k t n) (no_leaves known (count ∙ z)) (hc z),
                    )
                | inr partial ↦ rw partial (_, refl, λ z. refl)
              ])
      ]

  -- The rebuild succeeds when the history is complete: if the pool's account can be read and the
  -- leaves of both scans of the whole history pass the check, a tree is returned whatever leaves the
  -- cache holds, provided that the scan for newer deposits answers, and, for a cache without leaves,
  -- answers as the scan of the whole history.
  pub rebuild_merkle_tree-recovers :
      (account : Account) (state : PoolTreeState) (cached : LeafCache)
      (newer : Option Base58 → Outcome ScanError ScanResult) (s first second : ScanResult)
      → read_pool_tree_state account.bytes ≡ ok state
      → Passes first state
      → Passes second state
      → newer cached.last_signature ≡ ok s
      → (length cached.leaves ≡ 0 → s ≡ first)
      → (r : Rebuilt) × (rebuild_merkle_tree hash (some account) cached newer (ok first) (ok second)
          ≡ ok r)
  unfolding rebuild_merkle_tree
  rebuild_merkle_tree-recovers account state cached newer s first second hr hf hs hn hc =
      let (g, gathered, fresh) = gather-first cached newer s first state.next_index hn hc in
      rw (hr, gathered)
        (elim (Outcome-cases (verify_built hash (built hash g) state)) [
          | inl (r, e) ↦ (r, rw e refl)
          | inr (failure, e) ↦ rw e (elim (Bool-cases (length cached.leaves == 0)) [
            | inl empty ↦
                err-ok (sym e ∙ verify-Passes first state g hf (fresh ((==_iff _ 0).0 empty)))
            | inr used ↦ rw used (_, verify-Passes second state _ hs refl)
          ])
        ])
