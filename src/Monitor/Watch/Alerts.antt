-- ===== src/Monitor/Watch/Alerts.antt =====
-- What is sent: every critical finding, and no flood of the others.
use solnado_cash.Base.{
  ℕ, ◌+◌, ◌≤◌, ◌<◌, ◌≡◌, refl, ap, ◌∙◌, ◌⊎◌, inl, inr, Bool, true, false, not, ◌&&◌, Bool-cases,
  some, List, [], ◌∷◌, arith, if◌then◌else◌, codes_eq_iff, All,
}
use solnado_cash.Monitor.Checks.{Finding}
use solnado_cash.Monitor.Watch.{
  Alerts, pool_part, alerted_at, touch, time_or_zero, is_critical, is_sent, suppressed, emit,
}

abbrev pub criticals_in : List Finding → List Finding
criticals_in [] = []
criticals_in (f ∷ fs) = if is_critical f.severity then f ∷ criticals_in fs else criticals_in fs

abbrev pub count_criticals : List Finding → ℕ
count_criticals [] = 0
count_criticals (f ∷ fs) = (if is_critical f.severity then 1 else 0) + count_criticals fs

criticals_of_sent :
    (f : Finding) (b : Bool) (sent : List Finding)
    → (is_critical f.severity ≡ true → b ≡ true)
    → criticals_in (if b then f ∷ sent else sent)
      ≡ (if is_critical f.severity then f ∷ criticals_in sent else criticals_in sent)
criticals_of_sent f true sent h = refl
criticals_of_sent f false sent h = elim (Bool-cases (is_critical f.severity)) [
  | inl yes_critical ↦ absurd (cc (h yes_critical))
  | inr other ↦ rw other
]

module _ (cooldown now : ℕ) where
  critical_is_sent :
      (f : Finding) (alerts : Alerts)
      → is_critical f.severity ≡ true
      → (not (suppressed cooldown now alerts f) && is_sent f.severity) ≡ true
  critical_is_sent f alerts h = ground arith

  -- Whatever was alerted before, every critical finding is sent, in order, and they are counted.
  pub emit-criticals :
      (fs : List Finding) (alerts : Alerts)
      → (criticals_in (emit cooldown now fs alerts).sent ≡ criticals_in fs)
        × ((emit cooldown now fs alerts).criticals ≡ count_criticals fs)
  unfolding emit
  emit-criticals [] alerts = (refl, refl)
  emit-criticals (f ∷ fs) alerts =
      let (sent, counted) =
        emit-criticals fs
          (if suppressed cooldown now alerts f then alerts else touch alerts f now) in
      (
        criticals_of_sent f _ _ (critical_is_sent f alerts)
            ∙ ap (λ cs. if is_critical f.severity then f ∷ cs else cs) sent,
        omega arith,
      )

  touch_keeps :
      (alerts : Alerts) (g f : Finding)
      → alerted_at alerts f ≡ some now
      → alerted_at (touch alerts g now) f ≡ some now
  touch_keeps alerts g f h = ground arith

  touch_self : (alerts : Alerts) (f : Finding) → alerted_at (touch alerts f now) f ≡ some now
  touch_self alerts f = ground (arith, (codes_eq_iff (pool_part f.pool) (pool_part f.pool)).1 refl)

  emit_keeps :
      (fs : List Finding) (alerts : Alerts) (f : Finding)
      → alerted_at alerts f ≡ some now
      → alerted_at (emit cooldown now fs alerts).alerts f ≡ some now
  unfolding emit
  emit_keeps [] alerts f h = h
  emit_keeps (g ∷ gs) alerts f h = emit_keeps gs _ f (next_keeps alerts g f h)
    where
      next_keeps :
          (alerts : Alerts) (g f : Finding)
          → alerted_at alerts f ≡ some now
          → alerted_at (if suppressed cooldown now alerts g then alerts else touch alerts g now) f
            ≡ some now
      next_keeps alerts g f h = elim (Bool-cases (suppressed cooldown now alerts g)) [
        | inl quiet ↦ rw quiet h
        | inr loud ↦ rw loud (touch_keeps alerts g f h)
      ]

  -- Sent because it is critical, or because its last alert is a cooldown old.
  abbrev pub IsDue : Alerts → Finding → Type 0
  IsDue alerts f =
      (is_critical f.severity ≡ true) ⊎ (time_or_zero (alerted_at alerts f) + cooldown ≤ now)

  IsDue-before :
      (alerts : Alerts) (g f : Finding)
      → 0 < cooldown
      → IsDue (touch alerts g now) f
      → IsDue alerts f
  IsDue-before alerts g f pos h = ground arith

  All-map :
      (P Q : Finding → Type 0) (fs : List Finding)
      → ((f : Finding) → P f → Q f)
      → All P fs
      → All Q fs
  All-map P Q [] h a = tt
  All-map P Q (f ∷ fs) h (p, a) = (h f p, All-map P Q fs h a)

  IsDue-after :
      (fs : List Finding) (alerts : Alerts) (g : Finding)
      → 0 < cooldown
      → All (IsDue (if suppressed cooldown now alerts g then alerts else touch alerts g now)) fs
      → All (IsDue alerts) fs
  IsDue-after fs alerts g pos a = elim (Bool-cases (suppressed cooldown now alerts g)) [
    | inl quiet ↦ rw quiet at a
    | inr loud ↦
        All-map (IsDue (touch alerts g now)) (IsDue alerts) fs (λ f. IsDue-before alerts g f pos)
          (rw loud at a)
  ]

  loud-IsDue :
      (alerts : Alerts) (f : Finding) → suppressed cooldown now alerts f ≡ false → IsDue alerts f
  loud-IsDue alerts f h = ground arith

  All-when :
      (P : Finding → Type 0) (quiet wanted : Bool) (f : Finding) (sent : List Finding)
      → (quiet ≡ false → P f)
      → All P sent
      → All P (if not quiet && wanted then f ∷ sent else sent)
  All-when P true wanted f sent h a = a
  All-when P false true f sent h a = (h refl, a)
  All-when P false false f sent h a = a

  recorded :
      (fs : List Finding) (alerts : Alerts) (f : Finding)
      → suppressed cooldown now alerts f ≡ false
      → alerted_at
          (emit cooldown now fs
            (if suppressed cooldown now alerts f then alerts else touch alerts f now)).alerts
          f
        ≡ some now
  recorded fs alerts f loud = emit_keeps fs _ f (rw loud (touch_self alerts f))

  -- With a cooldown, a finding that is sent is critical or was last alerted at least a cooldown ago,
  -- by the state before the pass; and it is recorded as alerted now, so that the same finding is not
  -- sent again for a cooldown unless it is critical.
  pub emit-cooldown :
      (fs : List Finding) (alerts : Alerts)
      → 0 < cooldown
      → All (IsDue alerts) (emit cooldown now fs alerts).sent
        × All
            (λ f. alerted_at (emit cooldown now fs alerts).alerts f ≡ some now)
            (emit cooldown now fs alerts).sent
  unfolding emit
  emit-cooldown [] alerts pos = (tt, tt)
  emit-cooldown (f ∷ fs) alerts pos =
      let (due, kept) =
        emit-cooldown fs (if suppressed cooldown now alerts f then alerts else touch alerts f now)
          pos in
      (
        All-when (IsDue alerts) _ _ f _ (loud-IsDue alerts f) (IsDue-after _ alerts f pos due),
        All-when
            (λ g.
              alerted_at
                (emit cooldown now fs
                  (if suppressed cooldown now alerts f then alerts else touch alerts f now)).alerts
                g
              ≡ some now)
            _ _ f _ (recorded fs alerts f) kept,
      )
