-- ===== src/Isolation/Tests.antt =====
-- Four CPUs, and a kernel thread of each kind.
use kstep.Prelude.{ℕ, ◌≡◌, refl, Bool, true, false, List, [], ◌∷◌, map, ◌==◌, arith}
use kstep.Text.{Bytes, lit, strstarts}
use kstep.Cpu.Mask.{Mask}
use kstep.Isolation.{
  Process, Affinity, starts_with_any, is_sys_kthread, only_0, move_kthread, move_kthreads,
  prealloc_kworker, disable_workqueue,
}
use kstep.Isolation.Workers.{each_times, prealloc_kworker-each_times}

abbrev process : ℕ → Bytes → Bool → Process
process pid comm kthread = record {
  pid = pid;
  comm = comm;
  cpus_mask = 0 ∷ 1 ∷ 2 ∷ 3 ∷ [];
  is_kthread = kthread;
  woken = 0;
}

-- A kworker of a CPU keeps its affinity.
abbrev affinity : Affinity
affinity = record { refuses = λ p. p.pid == 12 }

abbrev processes : List Process
processes =
    process 1 (lit "init") false
    ∷ process 10 (lit "ksoftirqd/1") true
    ∷ process 11 (lit "kcompactd0") true
    ∷ process 12 (lit "kworker/1:0") true
    ∷ []

abbrev mask_of : Process → Mask
mask_of p = p.cpus_mask

-- kcompactd0 alone is moved.
masks-moved :
    map mask_of (move_kthreads affinity processes)
    ≡ (0 ∷ 1 ∷ 2 ∷ 3 ∷ []) ∷ (0 ∷ 1 ∷ 2 ∷ 3 ∷ []) ∷ (0 ∷ []) ∷ (0 ∷ 1 ∷ 2 ∷ 3 ∷ []) ∷ []
unfolding move_kthreads move_kthread is_sys_kthread only_0 starts_with_any strstarts
masks-moved = refl

two_each : prealloc_kworker 4 2 ≡ each_times 2 0 4
two_each = prealloc_kworker-each_times 4 2 (omega arith)

works : prealloc_kworker 4 2 ≡ 0 ∷ 0 ∷ 1 ∷ 1 ∷ 2 ∷ 2 ∷ 3 ∷ 3 ∷ []
unfolding prealloc_kworker
works = refl

offline : disable_workqueue 3 ≡ 1 ∷ 2 ∷ 3 ∷ []
unfolding disable_workqueue
offline = refl
