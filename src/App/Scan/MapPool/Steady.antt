-- ===== src/App/Scan/MapPool/Steady.antt =====
-- What holds of every state of a run of the pool, whichever workers have gone on.
use solnado_cash.Base.{
  ℕ, zero, suc, ◌≡◌, refl, sym, ap, ◌∙◌, ◌≤◌, ◌<◌, min, inl, inr, Option, none, some, List, length,
  get_elem?, set, leb, arith, Bool-cases, Option-cases, false, ◌==◌, ◌≢◌, length-set,
  length-replicate, replicate, lt-get_elem?, get_elem?-set_self, get_elem?-set_ne,
  get_elem?-set_inv, get_elem?-set_keep, get_elem?-set_old, leb→le, ==_iff,
}
use solnado_cash.Base.Outcome.{Outcome, ok, err}
use solnado_cash.App.Scan.MapPool.{
  Worker, ready, waiting, returned, thrown, Pool, proceed, settle, start, IsReached, starts,
  proceeds, settles, first_error,
}

module _ {ℓ κ μ} {T : Type μ} {E : Type ℓ} {R : Type κ} (items : List T) (limit : ℕ)
    (fn : T → Outcome E R) where
  -- What has become of an item that a worker has taken.
  pub data Covered (p : Pool E R) (i : ℕ) (item : T) : Type (ℓ ⊔ κ) where
    filled : (r : R) → fn item ≡ ok r → get_elem? p.results i ≡ some (some r) → Covered p i item
    held : (w : ℕ) → get_elem? p.workers w ≡ some (waiting i) → Covered p i item
    lost : (w : ℕ) → get_elem? p.workers w ≡ some thrown → Covered p i item

  -- What holds of every state of a run.
  pub record IsSteady (p : Pool E R) : Type (ℓ ⊔ κ ⊔ μ) where
    pub sized : length p.results ≡ length items
    pub staffed : length p.workers ≡ min limit (length items)
    pub covered : (i : ℕ) (item : T) → i < p.next → get_elem? items i ≡ some item → Covered p i item
    pub claimed : (w i : ℕ) → get_elem? p.workers w ≡ some (waiting i) → i < length items
    pub exhausted : (w : ℕ) → get_elem? p.workers w ≡ some returned → length items ≤ p.next
    pub rejected : (w : ℕ) → get_elem? p.workers w ≡ some thrown → (e : E) × (p.rejection ≡ some e)
    pub justified :
        (e : E)
        → p.rejection ≡ some e
        → (i : ℕ) × (item : T) × (get_elem? items i ≡ some item) × (fn item ≡ err e)

  all_ready : (n w : ℕ) (v : Worker) → get_elem? (replicate n ready) w ≡ some v → ready ≡ v
  all_ready zero w v h = cc
  all_ready (suc n) zero v h = cc
  all_ready (suc n) (suc w) v h = all_ready n w v h

  start-IsSteady : IsSteady (start limit (length items))
  unfolding start
  start-IsSteady = record {
    sized = length-replicate _ _;
    staffed = length-replicate _ _;
    covered = λ i item h k. absurd (omega arith);
    claimed = λ w i h. absurd (cc (all_ready _ w _ h));
    exhausted = λ w h. absurd (cc (all_ready _ w _ h));
    rejected = λ w h. absurd (cc (all_ready _ w _ h));
    justified = λ e h. absurd (cc h);
  }

  -- A worker that takes a turn was ready, so that no item is let go of.
  module _ (p : Pool E R) (w : ℕ) (h : get_elem? p.workers w ≡ some ready) (s : IsSteady p) where
    covered-kept :
        (i : ℕ) (item : T) (v : Worker) (q : Pool E R)
        → q.results ≡ p.results
        → q.workers ≡ set p.workers w v
        → Covered p i item
        → Covered q i item
    covered-kept i item v q same written (filled r is there) =
        filled r is (ap (λ l. get_elem? l i) same ∙ there)
    covered-kept i item v q same written (held u there) =
        held u
          (ap (λ l. get_elem? l u) written ∙ get_elem?-set_keep _ w u v _ _ h (λ e. cc e) there)
    covered-kept i item v q same written (lost u there) =
        lost u
          (ap (λ l. get_elem? l u) written ∙ get_elem?-set_keep _ w u v _ _ h (λ e. cc e) there)

    covered-next :
        (i : ℕ) (item : T)
        → i < suc p.next
        → get_elem? items i ≡ some item
        → Covered (proceed (length items) w p) i item
    unfolding proceed
    covered-next i item before there = elim (Bool-cases (i == p.next)) [
      | inl last ↦
          let is : i ≡ p.next = (==_iff i p.next).0 last in
          let more : leb (length items) p.next ≡ false =
            ground (arith, lt-get_elem? items i item there) in
          held w (
            get_elem?-set_self p.workers w _ (lt-get_elem? _ _ _ h)
            ∙ ap some (rw more (ap waiting (sym is))))
      | inr earlier ↦ covered-kept i item _ _ refl refl (s.covered i item (ground arith) there)
    ]

    -- Nothing is left to take exactly when the worker returns.
    proceed-IsSteady : IsSteady (proceed (length items) w p)
    unfolding proceed
    proceed-IsSteady = record {
      sized = s.sized;
      staffed = length-set p.workers w _ ∙ s.staffed;
      covered = covered-next;
      claimed = λ u i there. elim (Bool-cases (leb (length items) p.next)) [
        | inl over ↦
            s.claimed u i (get_elem?-set_old _ w u returned _ (λ e. cc e) (rw over at there))
        | inr more ↦ elim (get_elem?-set_inv p.workers w u _ _ (rw more at there)) [
          | inl new ↦ let is : p.next ≡ i = cc new in ground arith
          | inr old ↦ s.claimed u i old
        ]
      ];
      exhausted = λ u there. elim (Bool-cases (leb (length items) p.next)) [
        | inl over ↦ omega (arith, leb→le _ _ over)
        | inr more ↦ omega (
          arith,
          s.exhausted u (get_elem?-set_old _ w u (waiting p.next) _ (λ e. cc e) (rw more at there)),
        )
      ];
      rejected = λ u there. elim (Bool-cases (leb (length items) p.next)) [
        | inl over ↦
            s.rejected u (get_elem?-set_old _ w u returned _ (λ e. cc e) (rw over at there))
        | inr more ↦
            s.rejected u (get_elem?-set_old _ w u (waiting p.next) _ (λ e. cc e) (rw more at there))
      ];
      justified = s.justified;
    }

  waiting-injective : (i j : ℕ) → waiting i ≡ waiting j → i ≡ j
  waiting-injective i j e = cc e

  -- The call of a worker has answered.
  module _ (p : Pool E R) (w i : ℕ) (item : T) (h : get_elem? p.workers w ≡ some (waiting i))
      (at_i : get_elem? items i ≡ some item) (s : IsSteady p) where
    covered-filled :
        (r : R)
        → fn item ≡ ok r
        → (j : ℕ) (other : T) → get_elem? items j ≡ some other
        → Covered p j other
        → Covered (settle w i (ok r) p) j other
    unfolding settle
    covered-filled r is j other there c = elim (Bool-cases (i == j)) [
      | inl same ↦
          let ij : i ≡ j = (==_iff i j).0 same in
          let one : item ≡ other = cc (at_i, there, ij) in
          filled r (ap fn (sym one) ∙ is) (
            ap (get_elem? _) (sym ij)
            ∙ get_elem?-set_self p.results i (some r)
                (omega (arith, s.sized, lt-get_elem? items i item at_i)))
      | inr differ ↦
          let ne : i ≢ j = λ e. cc (differ, (==_iff i j).1 e) in
          elim c [
            | filled q is_q old ↦ filled q is_q (get_elem?-set_ne p.results i j (some r) ne ∙ old)
            | held u old ↦
                held u
                  (get_elem?-set_keep _ w u ready _ _ h (λ e. ne (waiting-injective i j e)) old)
            | lost u old ↦ lost u (get_elem?-set_keep _ w u ready _ _ h (λ e. cc e) old)
          ]
    ]

    covered-lost :
        (e : E) (j : ℕ) (other : T) → Covered p j other → Covered (settle w i (err e) p) j other
    unfolding settle
    covered-lost e j other c = elim (Bool-cases (i == j)) [
      | inl same ↦ lost w (get_elem?-set_self p.workers w thrown (lt-get_elem? _ _ _ h))
      | inr differ ↦
          let ne : i ≢ j = λ e. cc (differ, (==_iff i j).1 e) in
          elim c [
            | filled q is_q old ↦ filled q is_q old
            | held u old ↦
                held u
                  (get_elem?-set_keep _ w u thrown _ _ h (λ e. ne (waiting-injective i j e)) old)
            | lost u old ↦ lost u (get_elem?-set_keep _ w u thrown _ _ h (λ e. cc e) old)
          ]
    ]

    first_error-justified :
        (e : E)
        → fn item ≡ err e
        → (d : E) → first_error e p.rejection ≡ some d
        → (j : ℕ) × (other : T) × (get_elem? items j ≡ some other) × (fn other ≡ err d)
    first_error-justified e is d k = elim (Option-cases p.rejection) [
      | inl first ↦ (i, item, at_i, cc (is, rw first at k))
      | inr (earlier, was) ↦ s.justified d (cc (was, rw was at k))
    ]

    settle-IsSteady : (o : Outcome E R) → fn item ≡ o → IsSteady (settle w i o p)
    unfolding settle
    settle-IsSteady (ok r) is = record {
      sized = length-set p.results i _ ∙ s.sized;
      staffed = length-set p.workers w _ ∙ s.staffed;
      covered = λ j other k there. covered-filled r is j other there (s.covered j other k there);
      claimed = λ u j k. s.claimed u j (get_elem?-set_old _ w u ready _ (λ e. cc e) k);
      exhausted = λ u k. s.exhausted u (get_elem?-set_old _ w u ready _ (λ e. cc e) k);
      rejected = λ u k. s.rejected u (get_elem?-set_old _ w u ready _ (λ e. cc e) k);
      justified = s.justified;
    }
    settle-IsSteady (err e) is = record {
      sized = s.sized;
      staffed = length-set p.workers w _ ∙ s.staffed;
      covered = λ j other k there. covered-lost e j other (s.covered j other k there);
      claimed = λ u j k. s.claimed u j (get_elem?-set_old _ w u thrown _ (λ e. cc e) k);
      exhausted = λ u k. s.exhausted u (get_elem?-set_old _ w u thrown _ (λ e. cc e) k);
      rejected = λ u k. has_error p.rejection;
      justified = λ d k. first_error-justified e is d k;
    }
      where
        has_error : (o : Option E) → (d : E) × (first_error e o ≡ some d)
        has_error none = (e, refl)
        has_error (some d) = (d, refl)

  pub reached-IsSteady : (steps : ℕ) (p : Pool E R) → IsReached items limit fn steps p → IsSteady p
  reached-IsSteady _ _ starts = start-IsSteady
  reached-IsSteady _ _ (proceeds steps w p h r) =
      proceed-IsSteady p w h (reached-IsSteady steps p r)
  reached-IsSteady _ _ (settles steps w i item p h at_i r) =
      settle-IsSteady p w i item h at_i (reached-IsSteady steps p r) _ refl
