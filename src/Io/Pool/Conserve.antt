-- ===== src/Io/Pool/Conserve.antt =====
-- No buffer is lost, and none is in two places.
use kstep.Prelude.{
  ℕ, zero, suc, ◌+◌, ◌<◌, false, List, [], ◌∷◌, none, some, ◌≡◌, refl, ap, ◌∙◌, arith, length,
  length-set, get_or, set, leb, ltb, if◌then◌else◌, ok, Option-cases, inl, inr, ◌⊎◌,
}
use native.Mathlib.Numerals.{add-one}
use kstep.Io.Pool.{tx_bufs, Virtqueue, Tx, one, Holds, buffers, probed, put_back, reclaim}

-- How often a buffer stands in the first `n` places.
abbrev pub occurs : ℕ → List ℕ → ℕ → ℕ
occurs x bs zero = 0
occurs x [] (suc n) = 0
occurs x (b ∷ bs) (suc n) = occurs x bs n + one x b

occurs-set :
    (x : ℕ) (bs : List ℕ) (n b : ℕ)
    → n < length bs
    → occurs x (set bs n b) (suc n) ≡ occurs x bs n + one x b
occurs-set x [] n b h = absurd (omega arith)
occurs-set x (c ∷ bs) zero b h = refl
occurs-set x (c ∷ bs) (suc n) b h = ground (arith, occurs-set x bs n b (omega arith))

pub occurs_last :
    (x : ℕ) (bs : List ℕ) (n : ℕ)
    → n < length bs
    → occurs x bs (suc n) ≡ occurs x bs n + one x (get_or bs n 0)
occurs_last x [] n h = absurd (omega arith)
occurs_last x (c ∷ bs) zero h = refl
occurs_last x (c ∷ bs) (suc n) h = ground (arith, occurs_last x bs n (omega arith))

occurs-buffers :
    (x i n : ℕ)
    → occurs x (buffers i n) n ≡ (if leb i x then (if ltb x (i + n) then 1 else 0) else 0)
occurs-buffers x i zero = ground arith
occurs-buffers x i (suc n) = ground (arith, occurs-buffers x (i + 1) n)

length-buffers : (i n : ℕ) → length (buffers i n) ≡ n
length-buffers i zero = refl
length-buffers i (suc n) = ap suc (length-buffers (i + 1) n)

occurs-pool : (x n : ℕ) → occurs x (buffers 0 n) n ≡ (if ltb x n then 1 else 0)
occurs-pool x n = ground (arith, occurs-buffers x 0 n)

sum_zero : {a b c : ℕ} → b ≡ 0 → a ≡ c → a + b ≡ c
sum_zero e f = omega arith

module _ {Q : Type 0} (v : Virtqueue Q) (w : Holds v) where
  -- The invariant: the free buffers and those in flight are the 256 of the pool, each once.
  pub record IsValid (tx : Tx Q) : Type 0 where
    pub slots : length tx.free ≡ tx_bufs
    pub total : tx.nfree + w.size tx.vq ≡ tx_bufs
    pub once :
        (x : ℕ) → occurs x tx.free tx.nfree + w.in_flight x tx.vq ≡ (if ltb x tx_bufs then 1 else 0)

  pub probed-IsValid :
      (q : Q) → w.size q ≡ 0 → ((x : ℕ) → w.in_flight x q ≡ 0) → IsValid (probed v q)
  probed-IsValid q s f = record {
    slots = length-buffers 0 tx_bufs;
    total = omega (arith, s);
    once = λ x. sum_zero (f x) (occurs-pool x tx_bufs);
  }

  put_back-IsValid :
      (b : ℕ) (q : Q) (tx : Tx Q)
      → IsValid tx
      → v.get_buf tx.vq ≡ some (b, q)
      → (IsValid (put_back v b q tx)) × (tx.nfree < tx_bufs)
  unfolding put_back
  put_back-IsValid b q tx i e =
      let s = w.size_get tx.vq e in
      (
        record {
          slots = length-set tx.free tx.nfree b ∙ i.slots;
          total = omega (arith, s, i.total);
          once = λ x. ground (
            arith,
            i.once x,
            w.get x tx.vq e,
            occurs-set x tx.free tx.nfree b (omega (arith, s, i.total, i.slots)),
            add-one tx.nfree,
          );
        },
        omega (arith, s, i.total),
      )

  more :
      (b : ℕ) (q : Q) (tx tx' : Tx Q)
      → (put_back v b q tx ≡ tx') ⊎ ((put_back v b q tx).nfree < tx'.nfree)
      → tx.nfree < tx'.nfree
  unfolding put_back
  more b q tx tx' (inl e) = let n = ap (λ (t : Tx Q). t.nfree) e in omega (arith, n)
  more b q tx tx' (inr h) = omega (arith, h)

  pub reclaim-IsValid :
      (fuel : ℕ) (tx : Tx Q)
      → IsValid tx
      → w.size tx.vq < fuel
      → (tx' : Tx Q) × (reclaim v fuel tx ≡ ok tx')
        × (IsValid tx')
        × (v.get_buf tx'.vq ≡ none)
        × (tx'.mem ≡ tx.mem)
        × ((tx ≡ tx') ⊎ (tx.nfree < tx'.nfree))
  unfolding reclaim put_back
  reclaim-IsValid zero tx i h = absurd (omega (arith, h))
  reclaim-IsValid (suc fuel) tx i h = elim (Option-cases (v.get_buf tx.vq)) [
    | inl e ↦ (tx, rw (e, reclaim), i, e, refl, inl refl)
    | inr ((b, q), e) ↦
        let (ib, room) = put_back-IsValid b q tx i e in
        let s = w.size_get tx.vq e in
        let (tx', r, ir, d, m, n) =
          reclaim-IsValid fuel (put_back v b q tx) ib (omega (arith, h, s)) in
        let space : leb tx_bufs tx.nfree ≡ false = ground (arith, room) in
        (tx', rw (e, reclaim, space) r, ir, d, m, inr (more b q tx tx' n))
  ]
