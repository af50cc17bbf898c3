-- ===== src/Tests/Workers.antt =====
-- Concrete runs of the worker pool of app/src/utils/merkle.ts: two workers, three items, and the answers
-- in another order than the calls.
use mathlib.Core.Path.{subst}
use solnado_cash.Base.{
  ℕ, ◌≡◌, refl, ◌+◌, ◌*◌, ◌≤◌, min, ◌⊎◌, some, List, [], ◌∷◌, map, length, get_elem?, ◌↔◌, arith,
  zero, suc,
}
use solnado_cash.Base.Outcome.{Outcome, ok, err, traverse}
use solnado_cash.App.Scan.MapPool.{
  returned, Pool, proceed, settle, start, IsReached, starts, proceeds, settles, outcome, IsEnded,
}
use solnado_cash.App.Scan.MapPool.Interleaved.{IsOver, IsReached-outcome}
use solnado_cash.App.Scan.MapPool.Bounded.{IsReached-ends}

abbrev fetch : ℕ → Outcome ℕ ℕ
fetch item = ok (item + 100)

abbrev items : List ℕ
items = 5 ∷ 6 ∷ 7 ∷ []

abbrev both_called : Pool ℕ ℕ
both_called = proceed 3 1 (proceed 3 0 (start 2 3))

abbrev second_answers_first : Pool ℕ ℕ
second_answers_first =
    settle 0 0 (ok 105) (settle 1 2 (ok 107) (proceed 3 1 (settle 1 1 (ok 106) both_called)))

abbrev all_returned : Pool ℕ ℕ
all_returned = proceed 3 1 (proceed 3 0 second_answers_first)

both_called-run : IsReached items 2 fetch 2 both_called
unfolding start proceed
both_called-run = proceeds 1 1 _ refl (proceeds 0 0 _ refl starts)

second_answers_first-run : IsReached items 2 fetch 6 second_answers_first
unfolding start proceed settle
second_answers_first-run = settles 5 0 0 5 _ refl refl (
    settles 4 1 2 7 _ refl refl (proceeds 3 1 _ refl (settles 2 1 1 6 _ refl refl both_called-run)))

all_returned-run : IsReached items 2 fetch 8 all_returned
unfolding start proceed settle
all_returned-run = proceeds 7 1 _ refl (proceeds 6 0 _ refl second_answers_first-run)

all_returned-IsOver : IsOver all_returned
unfolding start proceed settle
all_returned-IsOver zero v h = let is : returned ≡ v = cc h in subst IsEnded is tt
all_returned-IsOver (suc zero) v h = let is : returned ≡ v = cc h in subst IsEnded is tt
all_returned-IsOver (suc (suc w)) v h = cc h

-- The results are in the order of the items.
all_returned-outcome : outcome all_returned ≡ ok (some 105 ∷ some 106 ∷ some 107 ∷ [])
unfolding outcome start proceed settle
all_returned-outcome = refl

IsReached-outcome_example :
    ((rs : List ℕ) → (outcome all_returned ≡ ok (map some rs)) ↔ (traverse fetch items ≡ ok rs))
    × ((e : ℕ)
        → outcome all_returned ≡ err e
        → (i : ℕ) × (item : ℕ) × (get_elem? items i ≡ some item) × (fetch item ≡ err e))
IsReached-outcome_example =
    IsReached-outcome fetch items 2 8 all_returned (omega arith) all_returned-run
      all_returned-IsOver

IsReached-ends_example :
    (8 ≤ 2 * length items + min 2 (length items))
    × (IsOver all_returned ⊎ ((q : Pool ℕ ℕ) × IsReached items 2 fetch 9 q))
IsReached-ends_example = IsReached-ends fetch items 2 8 all_returned all_returned-run
