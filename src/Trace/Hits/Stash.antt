-- ===== src/Trace/Hits/Stash.antt =====
-- From the entry of the balancer to the domain that is reported.
use kstep.Prelude.{ℕ, ◌≡◌, ◌≢◌, Bool, true, false, not, ◌&&◌, List, [], ◌∷◌, ◌==◌, arith}
use kstep.Trace.Hits.{
  balance_selected, Hit, sched_balance, find_src_group, select_rq, set_task_cpu, init_tg_cfs_entry,
  Kept, on_sched_balance_enter, on_sched_balance_selected, on_sched_group_alloc, hit, run_hits,
}

-- A call of the balancer on that CPU.
unfoldable pub enters : ℕ → Hit → Bool
enters cpu (sched_balance on this_cpu sd) = on == cpu
enters cpu other = false

unfoldable pub never_enters : ℕ → List Hit → Bool
never_enters cpu [] = true
never_enters cpu (h ∷ hits) = not (enters cpu h) && never_enters cpu hits

-- What one CPU has stashed.
record Stashed (cpu dst sd : ℕ) (k : Kept) : Type 0 where
  dst_is : k.lb_dst_cpu cpu ≡ dst
  sd_is : k.lb_sd cpu ≡ sd
  running : k.jiffies ≢ 0

hit-Stashed :
    {cpu dst sd : ℕ} (h : Hit) {k : Kept}
    → enters cpu h ≡ false
    → Stashed cpu dst sd k
    → Stashed cpu dst sd (hit h k).1
unfolding hit enters on_sched_balance_enter on_sched_group_alloc
hit-Stashed (sched_balance on this_cpu of) {k} e s = record {
  dst_is = ground (arith, s.dst_is);
  sd_is = ground (arith, s.sd_is);
  running = ground (arith, s.running);
}
hit-Stashed (find_src_group on) e s = s
hit-Stashed (select_rq p prev flags) e s = s
hit-Stashed (set_task_cpu p new_cpu) e s = record {
  dst_is = s.dst_is;
  sd_is = s.sd_is;
  running = s.running;
}
hit-Stashed (init_tg_cfs_entry cfs_rq) e s = record {
  dst_is = s.dst_is;
  sd_is = s.sd_is;
  running = s.running;
}

run_hits-Stashed :
    {cpu dst sd : ℕ} (hits : List Hit) {k : Kept}
    → never_enters cpu hits ≡ true
    → Stashed cpu dst sd k
    → Stashed cpu dst sd (run_hits hits k).1
unfolding run_hits never_enters
run_hits-Stashed [] e s = s
run_hits-Stashed (h ∷ hits) e s =
    run_hits-Stashed hits (ground arith) (hit-Stashed h (ground arith) s)

entered-Stashed :
    (cpu dst sd : ℕ) (k : Kept)
    → dst ≢ 0
    → k.jiffies ≢ 0
    → Stashed cpu dst sd (on_sched_balance_enter cpu dst sd k)
unfolding on_sched_balance_enter
entered-Stashed cpu dst sd k ne running = record {
  dst_is = ground arith;
  sd_is = ground arith;
  running = ground arith;
}

Stashed-raised :
    {cpu dst sd : ℕ} (k : Kept)
    → dst ≢ 0
    → Stashed cpu dst sd k
    → on_sched_balance_selected cpu k ≡ balance_selected dst sd ∷ []
unfolding on_sched_balance_selected
Stashed-raised {cpu} {dst} {sd} k ne s = ground (arith, s.dst_is, s.sd_is, s.running)

-- While the mocked clock runs: where the balancer was entered for a CPU other than 0 and has passed
-- its own test, what is raised is the domain and the CPU that it was entered with, whatever was
-- traced in between on the other CPUs, or on this one but for another entry.
pub find_src_group-entered :
    (cpu dst sd : ℕ) (between : List Hit) (k : Kept)
    → dst ≢ 0
    → k.jiffies ≢ 0
    → never_enters cpu between ≡ true
    → (hit (find_src_group cpu) (run_hits between (hit (sched_balance cpu dst sd) k).1).1).0
      ≡ balance_selected dst sd ∷ []
unfolding hit
find_src_group-entered cpu dst sd between k ne running quiet =
    Stashed-raised _ ne (run_hits-Stashed between quiet (entered-Stashed cpu dst sd k ne running))
