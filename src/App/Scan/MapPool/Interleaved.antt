-- ===== src/App/Scan/MapPool/Interleaved.antt =====
-- Whatever the order in which the workers go on, the pool gives what the calls in order give.
use solnado_cash.Base.{
  ℕ, zero, suc, ◌≡◌, refl, sym, ap, ◌∙◌, ◌≤◌, ◌<◌, inl, inr, Option, none, some, List, [], ◌∷◌, map,
  length, get_elem?, ◌↔◌, arith, Option-cases, get_elem?-lt, lt-get_elem?,
}
use solnado_cash.Base.Outcome.{Outcome, ok, err, traverse, ok-injective, err-injective, bind_inv}
use solnado_cash.App.Scan.MapPool.{
  Worker, ready, waiting, returned, thrown, Pool, IsReached, outcome, IsEnded,
}
use solnado_cash.App.Scan.MapPool.Steady.{Covered, filled, held, lost, IsSteady, reached-IsSteady}

-- Every worker has returned or thrown.
abbrev pub IsOver {ℓ κ} : {E : Type ℓ} {R : Type κ} → Pool E R → Type 0
IsOver p = (w : ℕ) (v : Worker) → get_elem? p.workers w ≡ some v → IsEnded v

map-some-injective {ℓ} : {A : Type ℓ} (xs ys : List A) → map some xs ≡ map some ys → xs ≡ ys
map-some-injective [] [] h = refl
map-some-injective [] (y ∷ ys) h = cc
map-some-injective (x ∷ xs) [] h = cc
map-some-injective (x ∷ xs) (y ∷ ys) h =
    let rest : map some xs ≡ map some ys = cc h in cc (map-some-injective xs ys rest, h)

module _ {ℓ κ μ} {T : Type μ} {E : Type ℓ} {R : Type κ} (fn : T → Outcome E R) where
  -- A slot that holds the result of an item.
  abbrev Holds : Option (Option R) → T → Type (ℓ ⊔ κ)
  Holds slot item = (r : R) × (fn item ≡ ok r) × (slot ≡ some (some r))

  traverse_slots :
      (items : List T) (slots : List (Option R))
      → length slots ≡ length items
      → ((i : ℕ) (item : T) → get_elem? items i ≡ some item → Holds (get_elem? slots i) item)
      → (rs : List R) × (traverse fn items ≡ ok rs) × (slots ≡ map some rs)
  unfolding traverse
  traverse_slots [] [] same holds = ([], refl, refl)
  traverse_slots [] (slot ∷ slots) same holds = absurd (omega arith)
  traverse_slots (item ∷ items) [] same holds = absurd (omega arith)
  traverse_slots (item ∷ items) (slot ∷ slots) same holds =
      let (r, is, here) = holds 0 item refl in
      let (rs, all, there) = traverse_slots items slots (omega arith) (λ i. holds (suc i)) in
      (r ∷ rs, rw (is, all) refl, cc (here, there))

  traverse-get :
      (items : List T) (rs : List R) (i : ℕ) (item : T)
      → traverse fn items ≡ ok rs
      → get_elem? items i ≡ some item
      → (r : R) × (fn item ≡ ok r)
  unfolding traverse
  traverse-get [] rs i item h k = cc k
  traverse-get (x ∷ items) rs zero item h k =
      let (r, is, _) = bind_inv (fn x) _ rs h in (r, cc (is, k))
  traverse-get (x ∷ items) rs (suc i) item h k =
      let (r, is, h1) = bind_inv (fn x) _ rs h in
      let (qs, all, _) = bind_inv (traverse fn items) _ rs h1 in traverse-get items qs i item all k

  module _ (items : List T) (limit : ℕ) (p : Pool E R) (s : IsSteady items limit fn p)
      (over : IsOver p) where
    ended-exhausted :
        (w : ℕ) (v : Worker)
        → get_elem? p.workers w ≡ some v
        → p.rejection ≡ none
        → length items ≤ p.next
    ended-exhausted w ready h fine = absurd (over w ready h)
    ended-exhausted w (waiting i) h fine = absurd (over w (waiting i) h)
    ended-exhausted w returned h fine = s.exhausted w h
    ended-exhausted w thrown h fine = let (e, is) = s.rejected w h in absurd (cc (is, fine))

    covered-Holds :
        (i : ℕ) (item : T)
        → p.rejection ≡ none
        → Covered items limit fn p i item
        → Holds (get_elem? p.results i) item
    covered-Holds i item fine (filled r is there) = (r, is, there)
    covered-Holds i item fine (held w there) = absurd (over w (waiting i) there)
    covered-Holds i item fine (lost w there) =
        let (e, is) = s.rejected w there in absurd (cc (is, fine))

    fine_complete :
        0 < limit
        → p.rejection ≡ none
        → (rs : List R) × (traverse fn items ≡ ok rs) × (p.results ≡ map some rs)
    fine_complete workers fine = traverse_slots items p.results s.sized (λ i item there.
        let some_item : i < length items = lt-get_elem? items i item there in
        let (v, first) = get_elem?-lt p.workers 0 (omega (arith, s.staffed)) in
        let taken : length items ≤ p.next = ended-exhausted 0 v first fine in
        covered-Holds i item fine (s.covered i item (omega arith) there))

    traverse-fine : (rs : List R) → traverse fn items ≡ ok rs → p.rejection ≡ none
    traverse-fine rs h = elim (Option-cases p.rejection) [
      | inl fine ↦ fine
      | inr (e, is) ↦
          let (i, item, there, fails) = s.justified e is in
          let (r, works) = traverse-get items rs i item h there in absurd (cc (fails, works))
    ]

    outcome-given :
        0 < limit → (rs : List R) → outcome p ≡ ok (map some rs) → traverse fn items ≡ ok rs
    unfolding outcome
    outcome-given workers rs h = elim (Option-cases p.rejection) [
      | inl fine ↦
          let (qs, all, there) = fine_complete workers fine in
          let is : map some rs ≡ map some qs = sym (ok-injective (rw fine at h)) ∙ there in
          all ∙ ap ok (sym (map-some-injective rs qs is))
      | inr (e, is) ↦ absurd (cc (rw is at h))
    ]

    outcome-traverse :
        0 < limit → (rs : List R) → traverse fn items ≡ ok rs → outcome p ≡ ok (map some rs)
    unfolding outcome
    outcome-traverse workers rs h =
        let fine = traverse-fine rs h in
        let (qs, all, there) = fine_complete workers fine in
        rw fine (ap ok (there ∙ ap (map some) (ok-injective (sym all ∙ h))))

    outcome-error :
        (e : E)
        → outcome p ≡ err e
        → (i : ℕ) × (item : T) × (get_elem? items i ≡ some item) × (fn item ≡ err e)
    unfolding outcome
    outcome-error e h = elim (Option-cases p.rejection) [
      | inl fine ↦ absurd (cc (rw fine at h))
      | inr (d, is) ↦ s.justified e (is ∙ ap some (err-injective (rw is at h)))
    ]

-- Once every worker has ended, Promise.all gives the results of the calls in the order of the items exactly
-- when none of them fails, and otherwise the error of one of them, whatever the order in which the workers
-- went on, if there is at least one worker.
pub IsReached-outcome {ℓ κ μ} :
    {T : Type μ} {E : Type ℓ} {R : Type κ} (fn : T → Outcome E R) (items : List T) (limit steps : ℕ)
    (p : Pool E R)
    → 0 < limit
    → IsReached items limit fn steps p
    → IsOver p
    → ((rs : List R) → (outcome p ≡ ok (map some rs)) ↔ (traverse fn items ≡ ok rs))
      × ((e : E)
          → outcome p ≡ err e
          → (i : ℕ) × (item : T) × (get_elem? items i ≡ some item) × (fn item ≡ err e))
IsReached-outcome fn items limit steps p workers reached over =
    let s = reached-IsSteady items limit fn steps p reached in
    (
      λ rs. (
        outcome-given fn items limit p s over workers rs,
        outcome-traverse fn items limit p s over workers rs,
      ),
      outcome-error fn items limit p s over,
    )
