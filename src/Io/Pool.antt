-- ===== src/Io/Pool.antt =====
-- The sending side of kmod/io.c: the pool of transmit buffers, `tx_reclaim`, `tx_done` and
-- `kstep_io_write`, each under `tx_lock`. A buffer is its index. The virtqueue is a parameter.
pub mod Conserve
pub mod Write
use kstep.Prelude.{
  ℕ, zero, suc, ◌+◌, ◌-◌, ◌≤◌, ◌<◌, Bool, true, false, List, [], ◌∷◌, Option, none, some, ◌≡◌,
  length, get_or, set, leb, ltb, ◌==◌, if◌then◌else◌, Outcome, ok, panic, ◌>>=◌, record_too_long,
  host_not_reading, out_of_bounds, vq_failed, not_reclaimed,
}
use kstep.Text.{Bytes}
use kstep.Io.Json.{tx_buf}

-- TX_BUFS
abbrev pub tx_bufs : ℕ
tx_bufs = 256

-- The next buffer that the host is done with, and a buffer handed to it with the bytes to send.
pub record Virtqueue (Q : Type 0) : Type 0 where
  pub get_buf : Q → Option (ℕ × Q)
  pub add_outbuf : ℕ → ℕ → Q → Option Q

-- `tx_free`, `tx_nfree`, what stands in each buffer, and the queue.
pub record Tx (Q : Type 0) : Type 0 where
  pub free : List ℕ
  pub nfree : ℕ
  pub mem : ℕ → Bytes
  pub vq : Q

abbrev pub one : ℕ → ℕ → ℕ
one x b = if x == b then 1 else 0

-- What a virtqueue does with buffers: it holds each one handed to it until it is got back.
pub record Holds {Q : Type 0} (v : Virtqueue Q) : Type 0 where
  pub in_flight : ℕ → Q → ℕ
  pub size : Q → ℕ
  pub size_get : (q : Q) {b : ℕ} {q' : Q} → v.get_buf q ≡ some (b, q') → size q ≡ size q' + 1
  pub get :
      (x : ℕ) (q : Q) {b : ℕ} {q' : Q}
      → v.get_buf q ≡ some (b, q')
      → in_flight x q ≡ in_flight x q' + one x b
  pub size_add :
      (b len : ℕ) (q : Q) {q' : Q} → v.add_outbuf b len q ≡ some q' → size q' ≡ size q + 1
  pub add :
      (x b len : ℕ) (q : Q) {q' : Q}
      → v.add_outbuf b len q ≡ some q'
      → in_flight x q' ≡ in_flight x q + one x b

-- The loop of `chan_probe` that fills the pool, from buffer `i` on.
abbrev pub buffers : ℕ → ℕ → List ℕ
buffers i zero = []
buffers i (suc n) = i ∷ buffers (i + 1) n

module _ {Q : Type 0} (v : Virtqueue Q) where
  -- The pool that `chan_probe` leaves, with an empty queue.
  abbrev pub probed : Q → Tx Q
  probed q = record { free = buffers 0 tx_bufs; nfree = tx_bufs; mem = λ i. []; vq = q }

  put_back : ℕ → Q → Tx Q → Tx Q
  put_back b q tx = record tx { free = set tx.free tx.nfree b; nfree = tx.nfree + 1; vq = q }

  -- The loop of `tx_reclaim`, with fuel; a write behind the array is `out_of_bounds`.
  unfoldable pub reclaim : ℕ → Tx Q → Outcome (Tx Q)
  unfolding put_back
  reclaim zero tx = panic not_reclaimed
  reclaim (suc fuel) tx = elim (v.get_buf tx.vq) [
    | none ↦ ok tx
    | some (b, q) ↦
        let rest = reclaim fuel (put_back b q tx) in
        if leb tx_bufs tx.nfree then panic out_of_bounds else rest
  ]

  -- `tx_done` is this under the lock.
  abbrev pub tx_reclaim : Tx Q → Outcome (Tx Q)
  tx_reclaim tx = reclaim (tx_bufs + 1) tx

  added : Tx Q → Option Q → Outcome (Tx Q)
  added tx none = panic vq_failed
  added tx (some q) = ok (record tx { vq = q })

  -- From `buf = tx_free[--tx_nfree]` on.
  unfoldable pub send : Bytes → Tx Q → Outcome (Tx Q)
  unfolding added
  send bytes tx =
      let buf = get_or tx.free (tx.nfree - 1) 0 in
      let tx' : Tx Q = record tx {
        nfree = tx.nfree - 1;
        mem = λ i. if i == buf then bytes else tx.mem i;
      } in
      added tx' (v.add_outbuf buf (length bytes) tx.vq)

  unfoldable pub io_write : Bytes → Tx Q → Outcome (Tx Q)
  io_write bytes tx = if ltb tx_buf (length bytes) then panic record_too_long else (do
    tx' ← (if tx.nfree == 0 then tx_reclaim tx else ok tx)
    if tx'.nfree == 0 then panic host_not_reading else send bytes tx')
