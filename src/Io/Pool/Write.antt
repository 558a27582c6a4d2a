-- ===== src/Io/Pool/Write.antt =====
-- A record that is sent stands in a buffer of its own until the host is done with it.
use kstep.Prelude.{
  panic-not_ok, ok-inj, ℕ, suc, ◌+◌, ◌-◌, ◌<◌, ◌≢◌, none, some, ◌≡◌, refl, ap, ◌∙◌, arith, length,
  get_or, ltb, ◌==◌, if◌then◌else◌, Outcome, ok, Option-cases, Bool-cases, inl, inr, ◌⊎◌,
}
use kstep.Text.{Bytes}
use kstep.Io.Json.{tx_buf}
use kstep.Io.Pool.{tx_bufs, Virtqueue, Tx, one, Holds, tx_reclaim, added, send, io_write}
use kstep.Io.Pool.Conserve.{occurs, occurs_last, IsValid, reclaim-IsValid}

module _ {Q : Type 0} (v : Virtqueue Q) (w : Holds v) where
  -- What sending leaves: the record is in one buffer, which the queue holds once, and the others are
  -- as they were.
  pub record Sent (bytes : Bytes) (tx tx' : Tx Q) : Type 0 where
    pub buf : ℕ
    pub in_pool : buf < tx_bufs
    pub alone : w.in_flight buf tx'.vq ≡ 1
    pub written : tx'.mem buf ≡ bytes
    pub others : (x : ℕ) → x ≢ buf → tx'.mem x ≡ tx.mem x

  taken : Tx Q → ℕ
  taken tx = get_or tx.free (tx.nfree - 1) 0

  sent : Bytes → Q → Tx Q → Tx Q
  sent bytes q tx = record tx {
    nfree = tx.nfree - 1;
    mem = λ i. if i == taken tx then bytes else tx.mem i;
    vq = q;
  }

  before_last :
      (tx : Tx Q) (x : ℕ)
      → IsValid v w tx
      → tx.nfree ≢ 0
      → occurs x tx.free tx.nfree ≡ occurs x tx.free (tx.nfree - 1) + one x (taken tx)
  unfolding taken
  before_last tx x i ne =
      let back : suc (tx.nfree - 1) ≡ tx.nfree = omega (arith, ne) in
      let h = occurs_last x tx.free (tx.nfree - 1) (omega (arith, ne, i.slots, i.total)) in
      (rw back at h)

  -- The buffer taken is one of the pool, and the queue did not hold it.
  taken-free :
      (tx : Tx Q)
      → IsValid v w tx
      → tx.nfree ≢ 0
      → (taken tx < tx_bufs) × (w.in_flight (taken tx) tx.vq ≡ 0)
  taken-free tx i ne = ground (arith, i.once (taken tx), before_last tx (taken tx) i ne)

  sent-Sent :
      (bytes : Bytes) (tx : Tx Q) (q : Q)
      → IsValid v w tx
      → tx.nfree ≢ 0
      → v.add_outbuf (taken tx) (length bytes) tx.vq ≡ some q
      → (IsValid v w (sent bytes q tx)) × Sent bytes tx (sent bytes q tx)
  unfolding sent
  sent-Sent bytes tx q i ne e =
      let s = w.size_add (taken tx) (length bytes) tx.vq e in
      let (lt, none_there) = taken-free tx i ne in
      (
        record {
          slots = i.slots;
          total = omega (arith, s, i.total, ne);
          once = λ x.
              omega
                (arith, i.once x, before_last tx x i ne, w.add x (taken tx) (length bytes) tx.vq e);
        },
        record {
          buf = taken tx;
          in_pool = lt;
          alone = ground (arith, none_there, w.add (taken tx) (taken tx) (length bytes) tx.vq e);
          written = ground arith;
          others = λ x ne'. ground (arith, ne');
        },
      )

  send-Sent :
      (bytes : Bytes) (tx : Tx Q) {tx' : Tx Q}
      → IsValid v w tx
      → tx.nfree ≢ 0
      → send v bytes tx ≡ ok tx'
      → (IsValid v w tx') × Sent bytes tx tx'
  unfolding send added taken sent
  send-Sent bytes tx {tx'} i ne h =
      elim (Option-cases (v.add_outbuf (taken tx) (length bytes) tx.vq)) [
        | inl e ↦ absurd (panic-not_ok (rw (e, added) at h))
        | inr (q, e) ↦
            let same : sent bytes q tx ≡ tx' = ok-inj (rw (e, added) at h) in
            (rw (← same) (sent-Sent bytes tx q i ne e))
      ]

  -- The pool that the record is taken from.
  ready : Tx Q → Outcome (Tx Q)
  ready tx = if tx.nfree == 0 then tx_reclaim v tx else ok tx

  ready-IsValid :
      (tx : Tx Q)
      → IsValid v w tx
      → (a : Tx Q) × (ready tx ≡ ok a)
        × (IsValid v w a)
        × (a.mem ≡ tx.mem)
        × ((tx.nfree ≡ 0) × (v.get_buf tx.vq ≡ none) ⊎ (a.nfree ≢ 0))
  unfolding ready
  ready-IsValid tx i = elim (Bool-cases (tx.nfree == 0)) [
    | inl e ↦
        let (a, r, ia, d, m, n) = reclaim-IsValid v w (tx_bufs + 1) tx i (omega (arith, i.total)) in
        (a, rw e r, ia, m, gone a (ground (arith, e)) d n)
    | inr e ↦ (tx, rw e, i, refl, inr (ground (arith, e)))
  ]
    where
      gone :
          (a : Tx Q)
          → tx.nfree ≡ 0
          → v.get_buf a.vq ≡ none
          → (tx ≡ a) ⊎ (tx.nfree < a.nfree)
          → (tx.nfree ≡ 0) × (v.get_buf tx.vq ≡ none) ⊎ (a.nfree ≢ 0)
      gone a z d (inl same) = inl (z, rw same d)
      gone a z d (inr lt) = inr (omega (arith, lt))

  write-parts :
      (bytes : Bytes) (tx a : Tx Q) {tx' : Tx Q}
      → ready tx ≡ ok a
      → io_write v bytes tx ≡ ok tx'
      → (a.nfree ≢ 0) × (send v bytes a ≡ ok tx')
  unfolding io_write ready
  write-parts bytes tx a r h = elim (Bool-cases (ltb tx_buf (length bytes))) [
    | inl e ↦ absurd (panic-not_ok (rw e at h))
    | inr e ↦
        let h' = rw (e, r) at h in
        elim (Bool-cases (a.nfree == 0)) [
          | inl z ↦ absurd (panic-not_ok (rw z at h'))
          | inr z ↦ (ground (arith, z), rw z at h')
        ]
  ]

  -- The pool keeps its invariant; a record that is sent stands in a buffer of the pool that the queue
  -- holds for this record alone, and no other buffer is written: what the host has yet to read of
  -- older records stays.
  pub io_write-Sent :
      (bytes : Bytes) (tx : Tx Q) {tx' : Tx Q}
      → IsValid v w tx
      → io_write v bytes tx ≡ ok tx'
      → (IsValid v w tx') × Sent bytes tx tx'
  unfolding io_write
  io_write-Sent bytes tx i h =
      let (a, r, ia, m, room) = ready-IsValid tx i in
      let (ne, s) = write-parts bytes tx a r h in
      let (it, st) = send-Sent bytes a ia ne s in
      (
        it,
        record {
          buf = st.buf;
          in_pool = st.in_pool;
          alone = st.alone;
          written = st.written;
          others = λ x d. st.others x d ∙ ap (λ f. f x) m;
        },
      )
