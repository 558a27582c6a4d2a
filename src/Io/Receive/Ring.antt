-- ===== src/Io/Receive/Ring.antt =====
-- The receive ring is a queue of at most 4096 bytes.
use mathlib.Core.List.{append_assoc, append-nil}
use kstep.Prelude.{
  ℕ, ◌+◌, ◌%◌, ◌^◌, ◌≤◌, ◌<◌, ◌≢◌, [], ◌∷◌, ◌++◌, length, length-append, length-set, set, ◌≡◌, refl,
  sym, ap, ◌∙◌, arith, ok, >>=-eq-ok,
}
use kstep.Prelude.Ring.{
  add_u32, count, entries, length-entries, entries_of_ne, entries-put, page_FitsCounter,
}
use kstep.Text.{Bytes}
use kstep.Io.Receive.{ring_size, Rx, rx_put, rx_done, rx_take}

pub record IsValid (rx : Rx) : Type 0 where
  pub slots : length rx.ring ≡ ring_size
  pub head_lt : rx.head < 2 ^ 32
  pub tail_lt : rx.tail < 2 ^ 32
  pub fits : count rx.tail rx.head ≤ ring_size

-- The bytes received and not yet taken, oldest first.
abbrev pub waiting : Rx → Bytes
waiting rx = entries ring_size 0 rx.ring rx.tail (count rx.tail rx.head)

pub put-waiting :
    {rx rx' : Rx} (c : ℕ)
    → IsValid rx
    → rx_put rx c ≡ ok rx'
    → (IsValid rx') × (waiting rx' ≡ waiting rx ++ (c ∷ []))
unfolding rx_put
put-waiting {rx} c v h =
    let put = entries-put ring_size 0 rx.ring rx.tail rx.head c page_FitsCounter in
    (ground (arith, length-set rx.ring (rx.head % ring_size) c), ground (arith, put))

pub done-waiting :
    (cs : Bytes) {rx rx' : Rx}
    → IsValid rx
    → rx_done rx cs ≡ ok rx'
    → (IsValid rx') × (waiting rx' ≡ waiting rx ++ cs)
unfolding rx_done
done-waiting [] {rx} {rx'} v h =
    let same : rx ≡ rx' = ground arith in (rw (← same) v, rw (← same) (sym (append-nil _)))
done-waiting (c ∷ cs) {rx} v h =
    let (a, ea, eb) = >>=-eq-ok (rx_put rx c) _ h in
    let (va, wa) = put-waiting c v ea in
    let (vb, wb) = done-waiting cs va eb in
    (vb, wb ∙ ap (λ t. t ++ cs) wa ∙ append_assoc (waiting rx) (c ∷ []) cs)

pub take-waiting :
    {rx : Rx}
    → IsValid rx
    → rx.head ≢ rx.tail
    → (IsValid (rx_take rx).1) × (waiting rx ≡ (rx_take rx).0 ∷ waiting (rx_take rx).1)
unfolding rx_take
take-waiting {rx} v ne = (
  ground arith,
  entries_of_ne ring_size 0 rx.ring rx.tail rx.head v.tail_lt v.head_lt (λ e. ne (sym e)),
)

length-waiting : (rx : Rx) → length (waiting rx) ≡ count rx.tail rx.head
length-waiting rx = length-entries ring_size 0 rx.ring rx.tail (count rx.tail rx.head)

put-returns :
    (rx : Rx) (c : ℕ) → length (waiting rx) < ring_size → (rx' : Rx) × (rx_put rx c ≡ ok rx')
unfolding rx_put
put-returns rx c h = (
  record rx { ring = set rx.ring (rx.head % ring_size) c; head = add_u32 rx.head 1 },
  ground (arith, length-waiting rx),
)

pub done-returns :
    (cs : Bytes) (rx : Rx)
    → IsValid rx
    → length (waiting rx) + length cs ≤ ring_size
    → (rx' : Rx) × (rx_done rx cs ≡ ok rx')
unfolding rx_done
done-returns [] rx v h = (rx, refl)
done-returns (c ∷ cs) rx v h =
    let (a, ea) = put-returns rx c (omega (arith, h)) in
    let (va, wa) = put-waiting c v ea in
    let shorter = ap length wa ∙ length-append (waiting rx) (c ∷ []) in
    let (b, eb) = done-returns cs a va (omega (arith, h, shorter)) in (b, rw ea eb)
