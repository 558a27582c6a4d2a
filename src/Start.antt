-- ===== src/Start.antt =====
-- The order of start-up: `kstep_main` of kmod/main.c up to the driver's run, and `kstep_trace_init`.
pub mod Order
mod Tests
use kstep.Prelude.{
  ℕ, ◌+◌, ◌-◌, ◌%◌, ◌^◌, ◌++◌, map, Bool, true, false, List, [], ◌∷◌, Outcome, ok, panic,
  cannot_trace, ◌>>=◌, if◌then◌else◌,
}
use kstep.Text.{Bytes, lit}
use kstep.Sym.{Symbol, Kallsyms, sym_init}
use kstep.Cpu.Topo.{Host, Topo}
use kstep.Cpu.Boot.{cpu_init}
use kstep.Isolation.{Process, Affinity, move_kthreads, prealloc_kworkers, disable_workqueue}
use kstep.Trace.{Ftrace, Traced, hook}
use kstep.Kernel.Features.{Word, feat_disable}
use kstep.Reset.{World, reset}

-- A call of the workqueue code: a work queued on a CPU, or a CPU's workqueue taken offline.
pub data WqCall : Type 0 where
  queue : ℕ → WqCall
  offline : ℕ → WqCall

-- What the start-up changes: the topology, the processes, the calls of the workqueue code so far, the
-- oldest first, the mocked jiffies, the hooks, the scheduler's features, and its state with the
-- kernel's jiffies.
pub record Machine : Type 0 where
  pub topo : Topo
  pub processes : List Process
  pub calls : List WqCall
  pub kstep_jiffies : ℕ
  pub jiffies_offset : ℕ
  pub traced : Traced
  pub features : Word
  pub world : World

-- The start-up reads these: the module's symbols, the machine, the kernel's list of features, its
-- `nsecs_to_jiffies` and INITIAL_JIFFIES, and `setup` of the driver at an address.
pub record Startup : Type 0 where
  pub kallsyms : Kallsyms
  pub symtab : List Symbol
  pub host : Host
  pub affinity : Affinity
  pub ftrace : Ftrace
  pub registers : Bool
  pub on_sched_group_alloc : ℕ
  pub feature_names : List Bytes
  pub nsecs_to_jiffies : ℕ → ℕ
  pub initial_jiffies : ℕ
  pub setup : ℕ → Machine → Outcome Machine

-- A row of CPUs for each workqueue.
abbrev pub queue_all : List (List ℕ) → List WqCall
queue_all [] = []
queue_all (row ∷ rows) = map queue row ++ queue_all rows

module _ (s : Startup) where
  unfoldable pub trace_init : Traced → Outcome Traced
  trace_init t = hook s.ftrace (lit "init_tg_cfs_entry") s.on_sched_group_alloc t >>= λ t'.
      if s.registers then ok t' else panic cannot_trace

  unfoldable pub prealloc : Machine → Machine
  prealloc m = record m { calls = m.calls ++ queue_all (prealloc_kworkers s.host.online) }

  unfoldable pub disable : Machine → Machine
  disable m = record m { calls = m.calls ++ map offline (disable_workqueue m.topo.test_ncpus) }

  -- Workers first, then the workqueues, then the threads.
  unfoldable pub isolated : Topo → Machine → Machine
  unfolding prealloc disable
  isolated topo m =
      let m' = disable (prealloc (record m { topo = topo })) in
      record m' { processes = move_kthreads s.affinity m'.processes }

  -- `kstep_jiffies_offset`
  abbrev pub epoch : World → ℕ
  epoch w = (s.nsecs_to_jiffies w.tick_nsec + s.initial_jiffies) % 2 ^ 64

  -- `kstep_jiffies_init`, as far as it sets the time.
  unfoldable pub jiffies_init : Machine → Machine
  jiffies_init m = record m {
    kstep_jiffies = 0;
    jiffies_offset = epoch m.world;
    world = record m.world { jiffies = epoch m.world };
  }

  -- Behind the driver's setup.
  unfoldable pub begin_run : Machine → Outcome Machine
  unfolding jiffies_init
  begin_run m =
      let m' = jiffies_init m in
      feat_disable s.feature_names (lit "NI_RANDOM") m'.features >>= λ features. ok (record m' {
        features = features;
        world = reset (record m'.world { test_ncpus = m'.topo.test_ncpus });
      })

  -- With the driver that then runs.
  unfoldable pub kstep_main : Bytes → Machine → Outcome (ℕ × Machine)
  unfolding trace_init isolated begin_run
  kstep_main driver_name m = sym_init s.kallsyms driver_name s.symtab >>= λ found.
      cpu_init s.host m.topo >>= λ topo. trace_init m.traced >>= λ traced.
      s.setup found.0 (record (isolated topo m) { traced = traced }) >>= λ m'.
      begin_run m' >>= λ m''. ok (found.0, m'')
