-- ===== src/Relayer/Pool/Layout.antt =====
-- What the loader accepts, and what it reads from an account that the program has laid out.
use solnado_cash.Base.{
  ℕ, zero, suc, ◌+◌, ◌≡◌, refl, ap, ◌∙◌, List, [], ◌∷◌, ◌++◌, arith, ◌==◌, length, get_or, take,
  drop, length-append,
}
use solnado_cash.Base.Buffer.{little}
use solnado_cash.Base.Buffer.Laws.{drop_part, take_part, drop-drop}
use solnado_cash.Base.Chain.{PoolLayout, HasSizes, serialize}
use solnado_cash.Relayer.Pool.{pool_info}

get_or-drop : (n : ℕ) (xs : List ℕ) → get_or xs n 0 ≡ get_or (drop n xs) 0 0
get_or-drop zero [] = refl
get_or-drop zero (x ∷ xs) = refl
get_or-drop (suc n) [] = refl
get_or-drop (suc n) (x ∷ xs) = get_or-drop n xs

module _ (p : PoolLayout) (s : HasSizes p) where
  length-serialize : length (serialize p) ≡ 8976
  length-serialize = let open_sizes : HasSizes p = s in omega (arith, length-append {0})

  abbrev after_treasury : List ℕ
  after_treasury =
      p.version_and_bumps
      ++ (p.is_paused ∷ (p.pad_and_root_index ++ (p.root_history ++ p.filled_subtrees)))

  abbrev after_denomination : List ℕ
  after_denomination = p.decimals_and_pad ++ (p.next_index ++ (p.treasury ++ after_treasury))

  at_denomination : drop 72 (serialize p) ≡ p.denomination ++ after_denomination
  at_denomination =
      drop_part 8 64 _ _ s.discriminator_size
      ∙ drop_part 32 32 _ _ s.admin_size
      ∙ drop_part 32 0 _ _ s.mint_size

  skip_denomination : (m : ℕ) → drop (72 + (8 + m)) (serialize p) ≡ drop m after_denomination
  skip_denomination m =
      drop-drop 72 (8 + m) (serialize p)
      ∙ ap (drop (8 + m)) at_denomination
      ∙ drop_part 8 m _ _ s.denomination_size

  at_next_index : drop 88 (serialize p) ≡ p.next_index ++ (p.treasury ++ after_treasury)
  at_next_index = skip_denomination 8 ∙ drop_part 8 0 _ _ s.decimals_size

  at_treasury : drop 96 (serialize p) ≡ p.treasury ++ after_treasury
  at_treasury =
      skip_denomination 16 ∙ drop_part 8 8 _ _ s.decimals_size ∙ drop_part 8 0 _ _ s.next_index_size

  at_is_paused :
      drop 131 (serialize p)
      ≡ p.is_paused ∷ (p.pad_and_root_index ++ (p.root_history ++ p.filled_subtrees))
  at_is_paused =
      skip_denomination 51
      ∙ drop_part 8 43 _ _ s.decimals_size
      ∙ drop_part 8 35 _ _ s.next_index_size
      ∙ drop_part 32 3 _ _ s.treasury_size
      ∙ drop_part 3 0 _ _ s.version_size

  pub at_root_history : drop 144 (serialize p) ≡ p.root_history ++ p.filled_subtrees
  at_root_history =
      drop-drop 131 13 (serialize p) ∙ ap (drop 13) at_is_paused ∙ drop_part 12 0 _ _ s.pad_size

  -- From an account laid out as state.rs declares it, the loader reads the fields themselves.
  pub pool_info-serialize :
      ((pool_info (serialize p)).denomination ≡ little p.denomination)
      × ((pool_info (serialize p)).treasury ≡ p.treasury)
      × ((pool_info (serialize p)).next_index ≡ little p.next_index)
      × ((pool_info (serialize p)).is_paused ≡ (p.is_paused == 1))
  unfolding pool_info
  pool_info-serialize = (
    ap (λ r. little (take 8 r)) at_denomination ∙ ap little (take_part 8 _ _ s.denomination_size),
    ap (take 32) at_treasury ∙ take_part 32 _ _ s.treasury_size,
    ap (λ r. little (take 8 r)) at_next_index ∙ ap little (take_part 8 _ _ s.next_index_size),
    ap (λ b. b == 1) (get_or-drop 131 (serialize p) ∙ ap (λ r. get_or r 0 0) at_is_paused),
  )
