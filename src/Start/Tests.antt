-- ===== src/Start/Tests.antt =====
-- The start-up of a machine of three CPUs.
use kstep.Prelude.{
  ◌/◌, ◌-◌, ◌^◌, ℕ, ◌≡◌, refl, true, false, List, [], ◌∷◌, length, none, some, Outcome, ok, panic,
  arith,
}
use kstep.Text.{lit, equal, strstarts, strscpy, tokens}
use kstep.Sym.{Symbol, see_symbol, sym_init}
use kstep.Sym.Drivers.{drivers}
use kstep.Cpu.Topo.{Host, Topo, topo_init, get_topo_level}
use kstep.Cpu.Spec.{topo_set, topo_cpus, set_entries, set_cap_all}
use kstep.Cpu.Slice.{set_slice_scaling}
use kstep.Cpu.Boot.{cpu_init}
use kstep.Event.{no_event}
use kstep.Isolation.{Process}
use kstep.Trace.{hook, is_hooked}
use kstep.Kernel.Features.{feat_disable}
use kstep.Reset.{World}
use kstep.Start.{Machine, Startup, trace_init, begin_run, kstep_main}
use kstep.Start.Order.{IsReady, IsFresh, cleared, kstep_main-IsReady}

abbrev machine : Host
machine = record {
  online = 3;
  kstrtoint = λ s. none;
  cpulist_parse = λ s. none;
  levels = lit "PKG" ∷ [];
  machine_mask = λ l c. 0 ∷ 1 ∷ 2 ∷ [];
  cap_settable = true;
}

abbrev before_boot : Topo
before_boot = record {
  test_ncpus = 0;
  masks = λ l c. [];
  ours = false;
  capacity = λ c. 1024;
  sibling = λ c. [];
  built = λ l c. [];
  tunables = record { looked_up = false; named = [] };
}

abbrev world : World
world = record {
  tick_nsec = 1000000;
  jiffies = 5;
  base_slice = 3000000;
  migration_cost = 500000;
  test_ncpus = 0;
  rqs = [];
  groups = [];
  tasks = [];
  distribute_cpu_mask_prev = 3 ∷ 4 ∷ 5 ∷ [];
  fair_server = [];
}

abbrev kthread : Process
kthread = record {
  pid = 11;
  comm = lit "kcompactd0";
  cpus_mask = 0 ∷ 1 ∷ 2 ∷ [];
  is_kthread = true;
  woken = 0;
}

abbrev booted : Machine
booted = record {
  topo = before_boot;
  processes = kthread ∷ [];
  calls = [];
  kstep_jiffies = 0;
  jiffies_offset = 0;
  traced = record {
    hooks = [];
    filters = [];
    select_task_rq = no_event;
    balance_selected = no_event;
    task_migrate = no_event;
  };
  features = true ∷ [];
  world = world;
}

abbrev symtab : List Symbol
symtab = record { name = lit "DRIVER"; addr = 8 } ∷ []

-- A driver whose setup lets the clock go on.
abbrev startup : Startup
startup = record {
  kallsyms = record { lookup = λ s. none; driver_name = λ a. lit "default" };
  symtab = symtab;
  host = machine;
  affinity = record { refuses = λ p. false };
  ftrace = record {
    has_symbol = λ s. true;
    location = λ s. some (length s);
    set_filter = λ ip. true;
  };
  registers = true;
  on_sched_group_alloc = 5;
  feature_names = lit "NI_RANDOM" ∷ [];
  nsecs_to_jiffies = λ n. n / 1000000;
  initial_jiffies = 2 ^ 64 - 300000;
  setup = λ d m. ok (record m { world = record m.world { jiffies = 9 } });
}

abbrev of_ok : {A : Type 0} → A → Outcome A → A
of_ok a (ok b) = b
of_ok a (panic e) = a

abbrev started : ℕ × Machine
started = of_ok (0, booted) (kstep_main startup (lit "default") booted)

start : kstep_main startup (lit "default") booted ≡ ok (started.0, started.1)
unfolding kstep_main begin_run trace_init sym_init see_symbol equal strstarts cpu_init topo_set
    topo_cpus topo_init get_topo_level set_entries set_cap_all set_slice_scaling tokens strscpy hook
    is_hooked feat_disable
start = refl

booted-IsFresh : IsFresh startup booted
booted-IsFresh = record {
  some_test = omega arith;
  own_masks = refl;
  shares = λ l. record { own = λ c h. ground arith; shared = λ c d h t. refl };
}

kstep_main-IsReady_example :
    (before after : Machine) × IsReady startup booted before
    × (startup.setup started.0 before ≡ ok after)
    × (drivers startup.kallsyms (lit "default") symtab ≡ started.0 ∷ [])
    × (started.1.world ≡ cleared startup after)
    × (started.1.topo ≡ after.topo)
kstep_main-IsReady_example = kstep_main-IsReady startup (lit "default") booted booted-IsFresh start
