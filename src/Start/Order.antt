-- ===== src/Start/Order.antt =====
-- What a driver's setup, and then its run, begin on.
use kstep.Prelude.{
  map, List, ◌++◌, ◌+◌, ◌%◌, ◌^◌, ap₂, ℕ, ◌-◌, ◌<◌, ◌≡◌, sym, ap, ◌∙◌, false, [], ◌∷◌, arith, ok,
  >>=-eq-ok, ok-inj,
}
use kstep.Text.{Bytes}
use kstep.Sym.{sym_init}
use kstep.Sym.Drivers.{drivers, sym_init-drivers}
use kstep.Cpu.Topo.{Level}
use kstep.Cpu.Topo.Init.{Shares}
use kstep.Cpu.Boot.{cpu_init, cpu_init-IsIsolated}
use kstep.Cpu.Spec.Topology.{IsIsolated}
use kstep.Isolation.{prealloc_kworkers, disable_workqueue, offline_from}
use kstep.Isolation.Moved.{AllPlaced, move_kthreads-AllPlaced}
use kstep.Isolation.Workers.{each_times, prealloc_kworker-each_times}
use kstep.Kernel.Features.{feat_disable}
use kstep.Reset.{World, reset}
use kstep.Start.{
  Machine, Startup, trace_init, WqCall, offline, queue_all, prealloc, disable, isolated,
  jiffies_init, begin_run, kstep_main,
}

-- Two works for each workqueue on every CPU, one workqueue after the other.
abbrev pub workers : ℕ → List WqCall
workers cpus = queue_all (each_times 2 0 cpus ∷ each_times 2 0 cpus ∷ each_times 2 0 cpus ∷ [])

-- Every CPU but CPU 0 offline.
abbrev pub offlines : ℕ → List WqCall
offlines cpus = map offline (offline_from 1 (cpus - 1))

-- What is true of the machine when the driver's setup is called, from the one that was booted.
pub record IsReady (s : Startup) (booted m : Machine) : Type 0 where
  pub isolated : IsIsolated s.host m.topo
  pub all_test : m.topo.test_ncpus ≡ s.host.online - 1
  pub placed : AllPlaced s.affinity booted.processes m.processes
  pub calls : m.calls ≡ (booted.calls ++ workers s.host.online) ++ offlines s.host.online

-- The state that setup left, put back to a start at the first mocked jiffy.
abbrev pub cleared : Startup → Machine → World
cleared s m = reset (record m.world {
  test_ncpus = m.topo.test_ncpus;
  jiffies = (s.nsecs_to_jiffies m.world.tick_nsec + s.initial_jiffies) % 2 ^ 64;
})

-- Where the machine's own masks split its two or more CPUs at every level.
pub record IsFresh (s : Startup) (m : Machine) : Type 0 where
  pub some_test : 1 < s.host.online
  pub own_masks : m.topo.ours ≡ false
  pub shares : (l : Level) → Shares s.host.online (s.host.machine_mask l)

works-each_times :
    (n : ℕ) → prealloc_kworkers n ≡ each_times 2 0 n ∷ each_times 2 0 n ∷ each_times 2 0 n ∷ []
unfolding prealloc_kworkers
works-each_times n = ap (λ r. r ∷ r ∷ r ∷ []) (prealloc_kworker-each_times n 2 (omega arith))

offline-all : {n k : ℕ} → n ≡ k → disable_workqueue n ≡ offline_from 1 k
unfolding disable_workqueue
offline-all e = ap (λ x. offline_from 1 x) e

module _ (s : Startup) where
  begin_run-cleared :
      (m : Machine) {m' : Machine}
      → begin_run s m ≡ ok m'
      → (m'.world ≡ cleared s m) × (m'.topo ≡ m.topo)
  unfolding begin_run jiffies_init
  begin_run-cleared m e =
      let (features, ef, last) = >>=-eq-ok (feat_disable s.feature_names _ m.features) _ e in
      let same = ok-inj last in
      (ap (λ (x : Machine). x.world) (sym same), ap (λ (x : Machine). x.topo) (sym same))

  -- If the start-up of a machine whose own masks split its CPUs does not panic: the driver is the
  -- only one of the name asked for; its setup began when every CPU but CPU 0 was a test CPU, CPU 0
  -- stood alone at every level, two works of each workqueue had been queued on every CPU and then the
  -- workqueue of every CPU but CPU 0 taken offline, in this order, and the kernel threads that can be
  -- moved were on CPU 0; and its run begins on the topology that setup left, with the jiffies at the
  -- first mocked one and then the scheduler's state reset to them.
  pub kstep_main-IsReady :
      (driver_name : Bytes) (booted : Machine) {d : ℕ} {m : Machine}
      → IsFresh s booted
      → kstep_main s driver_name booted ≡ ok (d, m)
      → (before after : Machine) × IsReady s booted before
        × (s.setup d before ≡ ok after)
        × (drivers s.kallsyms driver_name s.symtab ≡ d ∷ [])
        × (m.world ≡ cleared s after)
        × (m.topo ≡ after.topo)
  unfolding kstep_main isolated prealloc disable
  kstep_main-IsReady driver_name booted {d} {m} fresh e =
      let (known, ek, e1) = >>=-eq-ok (sym_init s.kallsyms driver_name s.symtab) _ e in
      let (topo, et, e2) = >>=-eq-ok (cpu_init s.host booted.topo) _ e1 in
      let (traced, er, e3) = >>=-eq-ok (trace_init s booted.traced) _ e2 in
      let before : Machine = record (isolated s topo booted) { traced = traced } in
      let (after, es, e4) = >>=-eq-ok (s.setup known.0 before) _ e3 in
      let (final, eb, last) = >>=-eq-ok (begin_run s after) _ e4 in
      let is_d : known.0 ≡ d = ap (λ (x : ℕ × Machine). x.0) (ok-inj last) in
      let is_m : final ≡ m = ap (λ (x : ℕ × Machine). x.1) (ok-inj last) in
      let (iso, all) =
        cpu_init-IsIsolated s.host booted.topo fresh.some_test fresh.own_masks fresh.shares et in
      let (world, kept) = begin_run-cleared after eb in
      (
        before,
        after,
        record {
          isolated = iso;
          all_test = all;
          placed = move_kthreads-AllPlaced s.affinity booted.processes;
          calls =
              ap₂ (λ w o. (booted.calls ++ queue_all w) ++ map offline o)
                (works-each_times s.host.online) (offline-all all);
        },
        ap (λ x. s.setup x before) (sym is_d) ∙ es,
        (sym_init-drivers s.kallsyms driver_name s.symtab ek).0 ∙ ap (λ x. x ∷ []) is_d,
        ap (λ (x : Machine). x.world) (sym is_m) ∙ world,
        ap (λ (x : Machine). x.topo) (sym is_m) ∙ kept,
      )
