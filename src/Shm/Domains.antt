-- ===== src/Shm/Domains.antt =====
-- The domain and group tables of kmod/shm.c: `shm_idle_cpu` and `shm_collect_domains`.
pub mod Balance
pub mod Runs
use Prim.Native.Nat.{bit_and}
use kstep.Prelude.{
  ℕ, zero, suc, ◌+◌, ◌-◌, ◌*◌, ◌/◌, ◌%◌, ◌^◌, ◌<◌, Bool, true, false, not, ◌&&◌, ◌||◌, List, [],
  ◌∷◌, ◌++◌, length, map, Option, none, some, ltb, leb, ◌==◌, if◌then◌else◌,
}
use kstep.Text.{Bytes, strscpy}
use kstep.Cpu.Mask.{Mask}
use kstep.Shm.{domains_max, groups_max, u32, ShmDomain, ShmGroup}
use kstep.Shm.Entities.{Rq}
use kstep.Shm.Cgroups.{clamp}

-- What is read of a `struct sched_group`; `span` is the first word of its span.
pub record SchedGroup : Type 0 where
  pub span : ℕ
  pub balance_mask : Mask
  pub capacity : ℕ
  pub min_capacity : ℕ
  pub max_capacity : ℕ
  pub group_weight : ℕ

-- What is read of a `struct sched_domain`; its ring of groups is the first with the others.
pub record SchedDomain : Type 0 where
  pub span : ℕ
  pub flags : ℕ
  pub name : Bytes
  pub imbalance_pct : ℕ
  pub balance_interval : ℕ
  pub nr_balance_failed : ℕ
  pub busy_factor : ℕ
  pub cache_nice_tries : ℕ
  pub last_balance : ℕ
  pub first : SchedGroup
  pub others : List SchedGroup

-- The kernel around them. HZ is that of its configuration.
pub record Machine : Type 0 where
  pub rq : ℕ → Rq
  pub smt_mask : ℕ → Mask
  pub jiffies : ℕ
  pub msecs_to_jiffies : ℕ → ℕ
  pub share_cpucapacity : ℕ
  pub domains : ℕ → List SchedDomain
  pub nr_cpu_ids : ℕ

abbrev pub hz : ℕ
hz = 1000

-- `time_after(a, b)` on 64 bits
abbrev pub time_after : ℕ → ℕ → Bool
time_after a b = leb (2 ^ 63) ((b + 2 ^ 64 - a) % 2 ^ 64)

unfoldable pub shm_idle_cpu : Rq → Bool
shm_idle_cpu rq = rq.curr == rq.idle && rq.nr_running == 0 && not rq.ttwu_pending

-- The clamped interval, in jiffies. `msecs_to_jiffies` takes an `unsigned int`.
unfoldable pub interval_of : (ℕ → ℕ) → Bool → SchedDomain → ℕ
interval_of msecs_to_jiffies busy sd =
    let interval =
      if busy then (sd.balance_interval * sd.busy_factor) % 2 ^ 64 else sd.balance_interval in
    let in_jiffies = msecs_to_jiffies (u32 interval) in
    clamp (if busy then (in_jiffies + 2 ^ 64 - 1) % 2 ^ 64 else in_jiffies) 1 (hz / 10)

unfoldable pub wait_until : ℕ → ℕ → ℕ
wait_until due jiffies =
    if time_after due jiffies then u32 ((due + 2 ^ 64 - jiffies) % 2 ^ 64) else 0

module _ (m : Machine) where
  abbrev pub idle_cpu : ℕ → Bool
  unfolding shm_idle_cpu
  idle_cpu c = shm_idle_cpu (m.rq c)

  abbrev pub all_idle : Mask → Bool
  all_idle [] = true
  all_idle (s ∷ l) = idle_cpu s && all_idle l

  abbrev pub or_first : Option ℕ → ℕ → Option ℕ
  or_first none c = some c
  or_first (some d) c = some d

  -- The loop: `first_idle` and `idle_core` where it ends.
  unfoldable pub find_idle : Mask → Option ℕ → Option ℕ × Option ℕ
  find_idle [] first_idle = (first_idle, none)
  find_idle (c ∷ bal) first_idle =
      let skip = find_idle bal first_idle in
      let go_on = find_idle bal (or_first first_idle c) in
      if not (idle_cpu c)
      then skip
      else if all_idle (m.smt_mask c)
      then (or_first first_idle c, some c)
      else go_on

  abbrev pub pick_of : Bool → Option ℕ × Option ℕ → Option ℕ
  pick_of true (first_idle, idle_core) = first_idle
  pick_of false (first_idle, none) = first_idle
  pick_of false (first_idle, some c) = some c

  -- `cpumask_first`
  abbrev pub first_of : Mask → ℕ
  first_of [] = m.nr_cpu_ids
  first_of (c ∷ bal) = c

  abbrev pub or_else : Option ℕ → ℕ → ℕ
  or_else none d = d
  or_else (some c) d = c

  unfoldable pub balancer_of : SchedDomain → ℕ
  unfolding find_idle
  balancer_of sd =
      let bal = sd.first.balance_mask in
      or_else (pick_of (not (bit_and sd.flags m.share_cpucapacity == 0)) (find_idle bal none))
        (first_of bal)

  unfoldable pub shm_group : SchedGroup → ShmGroup
  shm_group g = record {
    span = g.span;
    capacity = u32 g.capacity;
    min_capacity = u32 g.min_capacity;
    max_capacity = u32 g.max_capacity;
    weight = g.group_weight;
  }

  -- The loop over the ring, with the table up to `*ngroups`, and how many it added.
  unfoldable pub add_groups : List SchedGroup → List ShmGroup → ℕ × List ShmGroup
  add_groups [] groups = (0, groups)
  add_groups (sg ∷ ring) groups =
      let rest = add_groups ring (groups ++ (shm_group sg ∷ [])) in
      if length groups == groups_max then (0, groups) else (suc rest.0, rest.1)

  unfoldable pub shm_domain : ℕ → SchedDomain → ℕ → ℕ → ShmDomain
  unfolding wait_until interval_of
  shm_domain cpu sd group ngroups = record {
    span = sd.span;
    flags = sd.flags;
    cpu = cpu;
    group = group;
    ngroups = ngroups;
    imbalance_pct = sd.imbalance_pct;
    balance_interval = u32 sd.balance_interval;
    busy_factor = sd.busy_factor;
    cache_nice_tries = sd.cache_nice_tries;
    nr_balance_failed = sd.nr_balance_failed;
    next_balance_in =
        wait_until
          ((sd.last_balance
              + interval_of m.msecs_to_jiffies (not ((m.rq cpu).curr == (m.rq cpu).idle)) sd)
            % 2 ^ 64)
          m.jiffies;
    balancer = balancer_of sd;
    name = strscpy 8 sd.name;
  }

  -- The domains of one CPU, with both tables up to their counts.
  unfoldable pub add_domains :
      ℕ → List SchedDomain → List ShmDomain → List ShmGroup → List ShmDomain × List ShmGroup
  unfolding add_groups
  add_domains cpu [] out groups = (out, groups)
  add_domains cpu (sd ∷ sds) out groups =
      let added = add_groups (sd.first ∷ sd.others) groups in
      let rest =
        add_domains cpu sds (out ++ (shm_domain cpu sd (length groups) added.0 ∷ [])) added.1 in
      if length out == domains_max then (out, groups) else rest

  -- `n` CPUs from `cpu` on.
  unfoldable pub collect_domains :
      ℕ → ℕ → List ShmDomain → List ShmGroup → List ShmDomain × List ShmGroup
  collect_domains zero cpu out groups = (out, groups)
  collect_domains (suc n) cpu out groups =
      let step = add_domains cpu (m.domains cpu) out groups in
      let rest = collect_domains n (cpu + 1) step.0 step.1 in
      if ltb (length out) domains_max then rest else (out, groups)

  unfoldable pub shm_collect_domains : ℕ → List ShmDomain × List ShmGroup
  shm_collect_domains ncpus = collect_domains ncpus 1 [] []
