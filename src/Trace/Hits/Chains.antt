-- ===== src/Trace/Hits/Chains.antt =====
-- What a checker that watches migrations, or balancing, gets to see.
use kstep.Prelude.{
  ℕ, ◌≡◌, ◌≢◌, refl, sym, ap, ◌∙◌, false, List, [], ◌∷◌, ◌++◌, ◌==◌, if◌then◌else◌, arith,
  Bool-cases, inl, inr,
}
use kstep.Cov.{update}
use kstep.Trace.Hits.{
  Raised, balance_selected, select_task_rq, task_migrate, Hit, sched_balance, find_src_group,
  select_rq, set_task_cpu, init_tg_cfs_entry, Kept, on_sched_balance_enter,
  on_sched_balance_selected, on_select_task_rq, on_set_task_cpu, on_sched_group_alloc, hit,
  run_hits,
}

-- The migrations of one task among the events, each from one CPU to another.
unfoldable pub moves_of : ℕ → List Raised → List (ℕ × ℕ)
moves_of p [] = []
moves_of p (task_migrate q src dst ∷ raised) =
    let rest = moves_of p raised in if q == p then (src, dst) ∷ rest else rest
moves_of p (balance_selected cpu sd ∷ raised) = moves_of p raised
moves_of p (select_task_rq q prev flags ∷ raised) = moves_of p raised

-- Moves that follow on each other, from a CPU to a CPU, none of them in place.
pub data Chain : ℕ → List (ℕ × ℕ) → ℕ → Type 0 where
  here : {c : ℕ} → Chain c [] c
  next : {a b d : ℕ} {moves : List (ℕ × ℕ)} → a ≢ b → Chain b moves d → Chain a ((a, b) ∷ moves) d

moves-append : (p : ℕ) (l m : List Raised) → moves_of p (l ++ m) ≡ moves_of p l ++ moves_of p m
unfolding moves_of
moves-append p [] m = refl
moves-append p (task_migrate q src dst ∷ l) m = ground (arith, moves-append p l m)
moves-append p (balance_selected cpu sd ∷ l) m = moves-append p l m
moves-append p (select_task_rq q prev flags ∷ l) m = moves-append p l m

join : {a b c : ℕ} {l m : List (ℕ × ℕ)} → Chain a l b → Chain b m c → Chain a (l ++ m) c
join here y = y
join (next ne x) y = next ne (join x y)

cast :
    {a a' c c' : ℕ} {l l' : List (ℕ × ℕ)} → a ≡ a' → l ≡ l' → c ≡ c' → Chain a l c → Chain a' l' c'
cast x y z h = rw (← x, ← y, ← z) h

not_zero : (n : ℕ) → n ≢ 0 → (n == 0) ≡ false
not_zero n h = ground arith

enter-task_cpu :
    (p cpu this_cpu sd : ℕ) (k : Kept)
    → (on_sched_balance_enter cpu this_cpu sd k).task_cpu p ≡ k.task_cpu p
unfolding on_sched_balance_enter
enter-task_cpu p cpu this_cpu sd k = ground arith

selected-moves : (p cpu : ℕ) (k : Kept) → moves_of p (on_sched_balance_selected cpu k) ≡ []
unfolding on_sched_balance_selected moves_of
selected-moves p cpu k = ground arith

hit-jiffies : (h : Hit) (k : Kept) → (hit h k).1.jiffies ≡ k.jiffies
unfolding hit on_sched_balance_enter
hit-jiffies (sched_balance cpu this_cpu sd) k = ground arith
hit-jiffies (find_src_group cpu) k = refl
hit-jiffies (select_rq q prev flags) k = refl
hit-jiffies (set_task_cpu q new_cpu) k = refl
hit-jiffies (init_tg_cfs_entry cfs_rq) k = refl

set_task_cpu-Chain :
    (p q new_cpu : ℕ) (k : Kept)
    → k.jiffies ≢ 0
    → Chain
        (k.task_cpu p)
        (moves_of p (on_set_task_cpu q new_cpu k))
        (update k.task_cpu q new_cpu p)
unfolding on_set_task_cpu moves_of
set_task_cpu-Chain p q new_cpu k running = elim (Bool-cases (k.task_cpu q == new_cpu)) [
  | inl still ↦
      let same : update k.task_cpu q new_cpu p ≡ k.task_cpu p = ground arith in
      rw (not_zero k.jiffies running, still, same) here
  | inr moved ↦ elim (Bool-cases (q == p)) [
    | inl it ↦
        let is_p : q ≡ p = ground arith in
        cast (ap k.task_cpu is_p) (rw (not_zero k.jiffies running, moved, it)) (ground arith)
          (next {a = k.task_cpu q} {b = new_cpu} (ground arith) here)
    | inr other ↦
        let same : update k.task_cpu q new_cpu p ≡ k.task_cpu p = ground arith in
        rw (not_zero k.jiffies running, moved, other, same) here
  ]
]

hit-Chain :
    (p : ℕ) (h : Hit) (k : Kept)
    → k.jiffies ≢ 0
    → Chain (k.task_cpu p) (moves_of p (hit h k).0) ((hit h k).1.task_cpu p)
unfolding hit moves_of on_select_task_rq on_sched_group_alloc
hit-Chain p (sched_balance cpu this_cpu sd) k running = rw (enter-task_cpu p cpu this_cpu sd k) here
hit-Chain p (find_src_group cpu) k running = rw (selected-moves p cpu k) here
hit-Chain p (select_rq q prev flags) k running = here
hit-Chain p (set_task_cpu q new_cpu) k running = set_task_cpu-Chain p q new_cpu k running
hit-Chain p (init_tg_cfs_entry cfs_rq) k running = here

-- While the mocked clock runs, whatever traced functions are called and in whatever order: the
-- migrations of a task that are raised are a chain from the CPU that it was on to the CPU that it
-- ends on, and none of them is in place. A checker that watches them misses no move.
pub run_hits-Chain :
    (p : ℕ) (hits : List Hit) (k : Kept)
    → k.jiffies ≢ 0
    → Chain (k.task_cpu p) (moves_of p (run_hits hits k).0) ((run_hits hits k).1.task_cpu p)
unfolding run_hits moves_of
run_hits-Chain p [] k running = here
run_hits-Chain p (h ∷ hits) k running =
    let k' = (hit h k).1 in
    let rest = run_hits-Chain p hits k' (λ e. running (sym (hit-jiffies h k) ∙ e)) in
    rw (moves-append p (hit h k).0 (run_hits hits k').0) (join (hit-Chain p h k running) rest)
