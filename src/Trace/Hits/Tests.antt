-- ===== src/Trace/Hits/Tests.antt =====
-- Two CPUs that balance, and a task that moves.
use kstep.Prelude.{◌≡◌, refl, true, List, [], ◌∷◌, arith}
use kstep.Trace.Hits.{
  balance_selected, Hit, sched_balance, find_src_group, select_rq, set_task_cpu, init_tg_cfs_entry,
  Kept, hit, run_hits,
}
use kstep.Trace.Hits.Chains.{moves_of, Chain, run_hits-Chain}
use kstep.Trace.Hits.Stash.{enters, never_enters, find_src_group-entered}

abbrev start : Kept
start = record {
  lb_dst_cpu = λ c. 0;
  lb_sd = λ c. 0;
  jiffies = 4;
  task_cpu = λ p. 1;
  zero_vruntime = λ c. 9;
}

-- Task 7 is placed on CPU 1 again, goes to CPU 2 and then to CPU 3; task 8 moves in between.
abbrev hits : List Hit
hits =
    select_rq 7 1 8
    ∷ set_task_cpu 7 1
    ∷ set_task_cpu 7 2
    ∷ sched_balance 3 3 50
    ∷ set_task_cpu 8 2
    ∷ find_src_group 3
    ∷ set_task_cpu 7 3
    ∷ []

moves : moves_of 7 (run_hits hits start).0 ≡ (1, 2) ∷ (2, 3) ∷ []
unfolding moves_of run_hits hit
moves = refl

run_hits-Chain_example :
    Chain 1 (moves_of 7 (run_hits hits start).0) ((run_hits hits start).1.task_cpu 7)
run_hits-Chain_example = run_hits-Chain 7 hits start (omega arith)

abbrev between : List Hit
between = sched_balance 2 2 60 ∷ find_src_group 2 ∷ init_tg_cfs_entry 30 ∷ []

quiet : never_enters 3 between ≡ true
unfolding never_enters enters
quiet = refl

selected_domain :
    (hit (find_src_group 3) (run_hits between (hit (sched_balance 3 3 50) start).1).1).0
    ≡ balance_selected 3 50 ∷ []
selected_domain = find_src_group-entered 3 3 50 between start (omega arith) (omega arith) quiet
