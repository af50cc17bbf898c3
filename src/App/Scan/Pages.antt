-- ===== src/App/Scan/Pages.antt =====
-- The loop over the pages of signatures ends, and reads the whole history.
use solnado_cash.Base.{
  ℕ, zero, suc, ◌≤◌, ◌<◌, ◌≡◌, refl, sym, ap, ◌∙◌, Option, none, some, List, [], ◌∷◌, ◌++◌, arith,
  length, take, drop,
}
use mathlib.Core.List.{append-nil, append_assoc}
use solnado_cash.Base.Outcome.{ok}
use solnado_cash.App.Deposits.{Base58}
use solnado_cash.App.Scan.{SignatureInfo, Rpc, last_signature, collect}

-- The documented paging: at most a page of the history, the newest first, and after a signature what is
-- older than it.
pub record HasPages (rpc : Rpc) (until : Option Base58) (page : ℕ) (history : List SignatureInfo)
    : Type 0 where
  pub first_page : rpc.signatures none until ≡ ok (take page history)
  pub next_page :
      (newer : List SignatureInfo) (s : SignatureInfo) (older : List SignatureInfo)
      → history ≡ newer ++ s ∷ older
      → rpc.signatures (some s.signature) until ≡ ok (take page older)

-- The last entry of a page, apart.
split-last :
    (s : SignatureInfo) (ss : List SignatureInfo)
    → (init : List SignatureInfo) × (last : SignatureInfo) × (s ∷ ss ≡ init ++ last ∷ [])
      × (last.signature ≡ last_signature s ss)
unfolding last_signature
split-last s [] = ([], s, refl, refl)
split-last s (t ∷ ts) =
    let (init, last, e, l) = split-last t ts in (s ∷ init, last, ap (λ xs. s ∷ xs) e, l)

take-drop : (n : ℕ) (xs : List SignatureInfo) → take n xs ++ drop n xs ≡ xs
take-drop zero xs = refl
take-drop (suc n) [] = refl
take-drop (suc n) (x ∷ xs) = ap (λ ys. x ∷ ys) (take-drop n xs)

length-drop : (n : ℕ) (xs : List SignatureInfo) → length (drop n xs) ≤ length xs
length-drop zero xs = omega arith
length-drop (suc n) [] = omega arith
length-drop (suc n) (x ∷ xs) = omega (arith, length-drop n xs)

module _ (rpc : Rpc) (until : Option Base58) (page : ℕ) (history : List SignatureInfo) where
  collect-rest :
      (fuel : ℕ) (before : Option Base58) (found rest : List SignatureInfo)
      → HasPages rpc until (suc page) history
      → history ≡ found ++ rest
      → rpc.signatures before until ≡ ok (take (suc page) rest)
      → length rest < fuel
      → collect fuel rpc until before found ≡ ok history
  unfolding collect
  collect-rest zero before found rest h e q l = absurd (omega arith)
  collect-rest (suc fuel) before found [] h e q l = rw q (ap ok (sym (append-nil found) ∙ sym e))
  collect-rest (suc fuel) before found (s ∷ ss) h e q l = rw q (
      collect-rest fuel (some (last_signature s (take page ss))) (found ++ s ∷ take page ss)
        (drop page ss) h whole next (omega (arith, length-drop page ss)))
    where
      whole : history ≡ (found ++ s ∷ take page ss) ++ drop page ss
      whole =
          e
          ∙ ap (λ xs. found ++ s ∷ xs) (sym (take-drop page ss))
          ∙ sym (append_assoc found (s ∷ take page ss) (drop page ss))

      next :
          rpc.signatures (some (last_signature s (take page ss))) until
          ≡ ok (take (suc page) (drop page ss))
      next =
          let (init, last, parts, is_last) = split-last s (take page ss) in
          let at_last : history ≡ (found ++ init) ++ last ∷ drop page ss =
            whole
            ∙ ap (λ xs. (found ++ xs) ++ drop page ss) parts
            ∙ ap (λ xs. xs ++ drop page ss) (sym (append_assoc found init (last ∷ [])))
            ∙ append_assoc (found ++ init) (last ∷ []) (drop page ss) in
          rw (← is_last) (h.next_page (found ++ init) last (drop page ss) at_last)

  -- With pages of at least one entry, the loop ends after at most one round more than there are
  -- signatures, with the whole history in its order.
  pub collect-all :
      (fuel : ℕ)
      → HasPages rpc until (suc page) history
      → length history < fuel
      → collect fuel rpc until none [] ≡ ok history
  collect-all fuel h l = collect-rest fuel none [] history h refl h.first_page l
