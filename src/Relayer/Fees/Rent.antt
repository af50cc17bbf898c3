-- ===== src/Relayer/Fees/Rent.antt =====
-- The rent cache: where the figures that are charged come from.
use mathlib.Core.Path.{subst}
use solnado_cash.Base.{
  sym, ℕ, ◌+◌, ◌≤◌, ◌<◌, ◌≡◌, refl, ◌⊎◌, inl, inr, Option-cases, Option, none, some, List, [], ◌∷◌,
  arith,
}
use solnado_cash.Relayer.Fees.{nullifier_rent, rent_ttl_ms, Cached, RentCache, get_nullifier_rent}

-- A call of `getNullifierRent`: the connection, the two clock readings, and what a read would give.
pub record Call : Type 0 where
  pub conn : ℕ
  pub checked : ℕ
  pub stored : ℕ
  pub reply : Option ℕ

abbrev pub perform : RentCache → Call → ℕ × RentCache
perform cache c = get_nullifier_rent cache c.conn c.checked c.stored (λ _. c.reply)

-- The cache of a new process after the calls, latest first.
abbrev pub after : List Call → RentCache
after [] = λ _. none
after (c ∷ calls) = (perform (after calls) c).1

-- Some call on the connection was answered by the chain with this rent.
abbrev pub WasRead : ℕ → ℕ → List Call → Type 0
WasRead conn rent [] = ⊥
WasRead conn rent (c ∷ calls) = ((c.conn ≡ conn) × (c.reply ≡ some rent)) ⊎ WasRead conn rent calls

perform_cached :
    (cache : RentCache) (c : Call) (conn : ℕ) (k : Cached)
    → (perform cache c).1 conn ≡ some k
    → (cache conn ≡ some k) ⊎ ((c.conn ≡ conn) × (c.reply ≡ some k.rent))
unfolding get_nullifier_rent
perform_cached cache c conn k h = ground arith

after-WasRead :
    (calls : List Call) (conn : ℕ) (k : Cached)
    → after calls conn ≡ some k
    → WasRead conn k.rent calls
after-WasRead [] conn k h = absurd (cc)
after-WasRead (c ∷ calls) conn k h = elim (perform_cached (after calls) c conn k h) [
  | inl old ↦ inr (after-WasRead calls conn k old)
  | inr new ↦ inl new
]

result_of_none :
    (cache : RentCache) (c : Call)
    → cache c.conn ≡ none
    → (((perform cache c).0 ≡ nullifier_rent) × (c.reply ≡ none))
      ⊎ (c.reply ≡ some (perform cache c).0)
unfolding get_nullifier_rent
result_of_none cache c e = ground arith

result_of_some :
    (cache : RentCache) (c : Call) (k : Cached)
    → cache c.conn ≡ some k
    → ((perform cache c).0 ≡ k.rent) ⊎ (c.reply ≡ some (perform cache c).0)
unfolding get_nullifier_rent
result_of_some cache c k e = ground arith

-- After any calls on any connections, the rent returned for a connection was read from the chain on
-- that same connection, now or in an earlier call, or it is the built-in constant; the constant is
-- returned only when this read fails too.
pub get_nullifier_rent-provenance :
    (calls : List Call) (c : Call)
    → let rent = (perform (after calls) c).0 in
      WasRead c.conn rent (c ∷ calls) ⊎ ((rent ≡ nullifier_rent) × (c.reply ≡ none))
get_nullifier_rent-provenance calls c = elim (Option-cases (after calls c.conn)) [
  | inl empty ↦ elim (result_of_none (after calls) c empty) [
    | inl default ↦ inr default
    | inr read ↦ inl (inl (refl, read))
  ]
  | inr (k, held) ↦ elim (result_of_some (after calls) c k held) [
    | inl old ↦
        inl
          (inr (subst (λ r. WasRead c.conn r calls) (sym old) (after-WasRead calls c.conn k held)))
    | inr read ↦ inl (inl (refl, read))
  ]
]

-- A rent stored by a read serves every call on its connection for ten minutes, with no read and with
-- no change to the cache.
pub get_nullifier_rent-caching :
    (cache : RentCache) (c : Call) (k : Cached)
    → cache c.conn ≡ some k
    → c.checked < k.at + rent_ttl_ms
    → perform cache c ≡ (k.rent, cache)
unfolding get_nullifier_rent
get_nullifier_rent-caching cache c k held fresh = ground arith

-- Once the entry is ten minutes old, a read that succeeds is returned and stored with its time.
pub get_nullifier_rent-refresh :
    (cache : RentCache) (c : Call) (k : Cached) (rent : ℕ)
    → cache c.conn ≡ some k
    → k.at + rent_ttl_ms ≤ c.checked
    → c.reply ≡ some rent
    → ((perform cache c).0 ≡ rent)
      × ((perform cache c).1 c.conn ≡ some (record { rent = rent; at = c.stored }))
unfolding get_nullifier_rent
get_nullifier_rent-refresh cache c k rent h old r = ground arith
