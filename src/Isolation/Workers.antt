-- ===== src/Isolation/Workers.antt =====
-- Every CPU gets the same number of workers.
use kstep.Prelude.{
  ℕ, zero, suc, ◌+◌, ◌*◌, ◌/◌, ◌≤◌, ◌<◌, ◌≡◌, refl, sym, ap, ap₂, ◌∙◌, List, [], ◌∷◌, ◌++◌,
  replicate, arith,
}
use native.Mathlib.Nat.{mul-add-div, div-eq_of_lt}
use kstep.Isolation.{queue_works, prealloc_kworker}

-- n times each CPU from c on.
unfoldable pub each_times : ℕ → ℕ → ℕ → List ℕ
each_times n c zero = []
each_times n c (suc cpus) = replicate n c ++ each_times n (suc c) cpus

times_zero : (n : ℕ) → n * 0 ≡ 0
times_zero n = omega arith

mul-suc : (n c : ℕ) → n * suc c ≡ n + n * c
mul-suc n c = ground arith

queue-append :
    (n i k m : ℕ) → queue_works n i (k + m) ≡ queue_works n i k ++ queue_works n (i + k) m
unfolding queue_works
queue-append n i zero m =
    let start : i ≡ i + 0 = omega arith in
    let count : 0 + m ≡ m = omega arith in ap₂ (λ x k. queue_works n x k) start count
queue-append n i (suc k) m =
    let count : suc k + m ≡ suc (k + m) = omega arith in
    let at : suc i + k ≡ i + suc k = omega arith in
    rw count (
      ap (λ l. i / n ∷ l)
        (queue-append n (suc i) k m ∙ ap (λ x. queue_works n (suc i) k ++ queue_works n x m) at))

-- The works of one CPU.
queue-row : (n c j k : ℕ) → zero < n → j + k ≤ n → queue_works n (n * c + j) k ≡ replicate k c
unfolding queue_works
queue-row n c j zero h r = refl
queue-row n c j (suc k) h r =
    let at : suc (n * c + j) ≡ n * c + suc j = omega arith in
    let same : c + 0 ≡ c = omega arith in
    ap₂ (λ x l. x ∷ l) (mul-add-div h c j ∙ ap (λ x. c + x) (div-eq_of_lt (omega arith)) ∙ same)
      (ap (λ x. queue_works n x k) at ∙ queue-row n c (suc j) k h (omega arith))

queue-rows : (n c cpus : ℕ) → zero < n → queue_works n (n * c) (n * cpus) ≡ each_times n c cpus
unfolding queue_works each_times
queue-rows n c zero h = rw (times_zero n) refl
queue-rows n c (suc cpus) h =
    let start : n * c ≡ n * c + 0 = omega arith in
    let next : n * c + n ≡ n * suc c = ground arith in
    ap (λ k. queue_works n (n * c) k) (mul-suc n cpus)
    ∙ queue-append n (n * c) n (n * cpus)
    ∙ ap₂ (λ l m. l ++ m) (ap (λ x. queue_works n x n) start ∙ queue-row n c 0 n h (omega arith))
        (ap (λ x. queue_works n x (n * cpus)) next ∙ queue-rows n (suc c) cpus h)

-- Of a workqueue, whatever number of workers is asked for, each online CPU is given exactly that
-- many works, CPU after CPU from 0 on.
pub prealloc_kworker-each_times :
    (num_cpus num_kworkers : ℕ)
    → zero < num_kworkers
    → prealloc_kworker num_cpus num_kworkers ≡ each_times num_kworkers 0 num_cpus
unfolding prealloc_kworker
prealloc_kworker-each_times num_cpus n h =
    ap (λ i. queue_works n i (n * num_cpus)) (sym (times_zero n)) ∙ queue-rows n 0 num_cpus h
