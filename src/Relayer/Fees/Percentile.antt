-- ===== src/Relayer/Fees/Percentile.antt =====
-- The priority-fee estimate is the 90th percentile of the recent fees, by nearest rank.
use solnado_cash.Base.{
  ℕ, zero, suc, ◌+◌, ◌*◌, ◌/◌, ◌≤◌, ◌<◌, ◌≡◌, refl, Bool, List, [], ◌∷◌, arith, leb, ◌==◌,
  if◌then◌else◌, length, get_or, All,
}
use solnado_cash.Relayer.Fees.{fees, insert_sorted, sort, get_priority_fee_per_cu}

abbrev pub count : (ℕ → Bool) → List ℕ → ℕ
count p [] = 0
count p (x ∷ xs) = (if p x then 1 else 0) + count p xs

abbrev IsSorted : List ℕ → Type 0
IsSorted [] = Unit
IsSorted (x ∷ xs) = All (λ y. x ≤ y) xs × IsSorted xs

count-insert_sorted :
    (p : ℕ → Bool) (x : ℕ) (xs : List ℕ)
    → count p (insert_sorted x xs) ≡ (if p x then 1 else 0) + count p xs
unfolding insert_sorted
count-insert_sorted p x [] = refl
count-insert_sorted p x (y ∷ ys) = ground (arith, count-insert_sorted p x ys)

count-sort : (p : ℕ → Bool) (xs : List ℕ) → count p (sort xs) ≡ count p xs
unfolding sort
count-sort p [] = refl
count-sort p (x ∷ xs) = omega (arith, count-insert_sorted p x (sort xs), count-sort p xs)

length-insert_sorted : (x : ℕ) (xs : List ℕ) → length (insert_sorted x xs) ≡ suc (length xs)
unfolding insert_sorted
length-insert_sorted x [] = refl
length-insert_sorted x (y ∷ ys) = ground (arith, length-insert_sorted x ys)

length-sort : (xs : List ℕ) → length (sort xs) ≡ length xs
unfolding sort
length-sort [] = refl
length-sort (x ∷ xs) = omega (arith, length-insert_sorted x (sort xs), length-sort xs)

All-weaken : (x y : ℕ) (xs : List ℕ) → x ≤ y → All (λ z. y ≤ z) xs → All (λ z. x ≤ z) xs
All-weaken x y [] h a = tt
All-weaken x y (z ∷ zs) h (b, a) = (omega arith, All-weaken x y zs h a)

insert_sorted-All :
    (b x : ℕ) (xs : List ℕ) → b ≤ x → All (λ z. b ≤ z) xs → All (λ z. b ≤ z) (insert_sorted x xs)
unfolding insert_sorted
insert_sorted-All b x [] h a = (h, tt)
insert_sorted-All b x (y ∷ ys) h (k, a) = ground (arith, insert_sorted-All b x ys h a)

insert_sorted-IsSorted : (x : ℕ) (xs : List ℕ) → IsSorted xs → IsSorted (insert_sorted x xs)
unfolding insert_sorted
insert_sorted-IsSorted x [] s = (tt, tt)
insert_sorted-IsSorted x (y ∷ ys) (a, s) =
    ground (arith, All-weaken x y ys, insert_sorted-All y x ys, insert_sorted-IsSorted x ys s)

sort-IsSorted : (xs : List ℕ) → IsSorted (sort xs)
unfolding sort
sort-IsSorted [] = tt
sort-IsSorted (x ∷ xs) = insert_sorted-IsSorted x (sort xs) (sort-IsSorted xs)

abbrev at_most : ℕ → ℕ → Bool
at_most r x = leb x r

abbrev at_least : ℕ → ℕ → Bool
at_least r x = leb r x

All-at : (b k : ℕ) (xs : List ℕ) → All (λ z. b ≤ z) xs → k < length xs → b ≤ get_or xs k 0
All-at b k [] a h = elim h [ ]
All-at b zero (x ∷ xs) a h = a.0
All-at b (suc k) (x ∷ xs) a h = All-at b k xs a.1 (omega arith)

count-at_least-All : (b : ℕ) (xs : List ℕ) → All (λ z. b ≤ z) xs → count (at_least b) xs ≡ length xs
count-at_least-All b [] a = refl
count-at_least-All b (x ∷ xs) (h, a) = ground (arith, count-at_least-All b xs a)

count-at_most_rank :
    (xs : List ℕ) (k : ℕ) → IsSorted xs → k < length xs → k + 1 ≤ count (at_most (get_or xs k 0)) xs
count-at_most_rank [] k s h = elim h [ ]
count-at_most_rank (x ∷ xs) zero s h = ground arith
count-at_most_rank (x ∷ xs) (suc k) (a, s) h =
    ground (arith, count-at_most_rank xs k s, All-at x k xs a)

count-at_least_rank :
    (xs : List ℕ) (k : ℕ)
    → IsSorted xs
    → k < length xs
    → length xs ≤ k + count (at_least (get_or xs k 0)) xs
count-at_least_rank [] k s h = elim h [ ]
count-at_least_rank (x ∷ xs) zero (a, s) h = ground (arith, count-at_least-All x xs a)
count-at_least_rank (x ∷ xs) (suc k) (a, s) h = ground (arith, count-at_least_rank xs k s)

count_self : (xs : List ℕ) (k : ℕ) → k < length xs → 0 < count (λ x. x == get_or xs k 0) xs
count_self [] k h = elim h [ ]
count_self (x ∷ xs) zero h = ground arith
count_self (x ∷ xs) (suc k) h = omega (arith, count_self xs k (omega arith))

rank_lt : (n : ℕ) → 0 < n → n * 9 / 10 < n
rank_lt n h = omega arith

-- On any non-empty list of recent fees, whatever the accounts asked about, the estimate is one of
-- the fees, more than nine tenths of the fees are at most the estimate, and at least one tenth of
-- them are at least the estimate.
pub get_priority_fee_per_cu-percentile :
    (writable : List ℕ) (f : ℕ) (fs : List ℕ)
    → let estimate = get_priority_fee_per_cu {K = ℕ} (λ _. fees (f ∷ fs)) writable in
      (0 < count (λ x. x == estimate) (f ∷ fs))
      × (9 * length (f ∷ fs) < 10 * count (λ x. leb x estimate) (f ∷ fs))
      × (length (f ∷ fs) ≤ 10 * count (λ x. leb estimate x) (f ∷ fs))
unfolding get_priority_fee_per_cu
get_priority_fee_per_cu-percentile writable f fs =
    let xs = f ∷ fs in
    let k = length (sort xs) * 9 / 10 in
    let e = get_or (sort xs) k 0 in
    let sorted = sort-IsSorted xs in
    let size = length-sort xs in
    let below : k < length (sort xs) = rank_lt (length (sort xs)) (omega arith) in
    let self = count_self (sort xs) k below in
    let most = count-at_most_rank (sort xs) k sorted below in
    let least = count-at_least_rank (sort xs) k sorted below in
    let same = count-sort (λ x. x == e) xs in
    let same_most = count-sort (at_most e) xs in
    let same_least = count-sort (at_least e) xs in (omega arith, omega arith, omega arith)
