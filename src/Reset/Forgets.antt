-- ===== src/Reset/Forgets.antt =====
-- A reset forgets what came before it.
use kstep.Prelude.{
  ℕ, suc, ◌≡◌, ◌≢◌, refl, ap, ap₂, ◌∙◌, Bool, true, false, List, [], ◌∷◌, map, ◌==◌, if◌then◌else◌,
  arith,
}
use kstep.Reset.{
  reset_sched_avg, Task, Domain, RunQueue, GroupCpu, Group, DlServer, World, reset_task,
  reset_tasks, reset_domain, reset_runqueue, reset_group_cpu, reset_group, reset_control_rq,
  is_test, reset_rqs, reset_runqueues, reset_cpumask, apply_params, reset_dl_server, reset,
}

-- Two lists of one length whose entries are related, each pair with its index from `i` on.
abbrev pub Pairwise : {A : Type 0} → (ℕ → A → A → Type 0) → ℕ → List A → List A → Type 0
Pairwise R i [] [] = Unit {0}
Pairwise R i [] (b ∷ ys) = ⊥
Pairwise R i (a ∷ xs) [] = ⊥
Pairwise R i (a ∷ xs) (b ∷ ys) = R i a b × Pairwise R (suc i) xs ys

-- What a reset leaves of a task: all of it on CPU 0, elsewhere the load weight and the fields that
-- it does not write.
pub record AlikeTask (i : ℕ) (p q : Task) : Type 0 where
  pub cpu : p.cpu ≡ q.cpu
  pub weight : p.weight ≡ q.weight
  pub others : p.others ≡ q.others
  pub control : p.cpu ≡ 0 → p ≡ q

abbrev pub without_clocks : RunQueue → RunQueue
without_clocks rq = record rq {
  clock = 0;
  clock_task = 0;
  clock_pelt = 0;
  lost_idle_time = 0;
  clock_pelt_idle = 0;
  clock_idle = 0;
  idle_stamp = 0;
}

-- What a reset leaves of the domains.
abbrev pub domains_kept : List Domain → List (ℕ × List ℕ)
domains_kept domains = map (λ (sd : Domain). (sd.min_interval, sd.others)) domains

-- Of a test CPU's queue the least intervals of its domains and the fields that a reset does not
-- write, of CPU 0's all but the clocks, and of another CPU's all.
pub record AlikeRq (ncpus cpu : ℕ) (a b : RunQueue) : Type 0 where
  pub domains : domains_kept a.domains ≡ domains_kept b.domains
  pub others : a.others ≡ b.others
  pub control : cpu ≡ 0 → without_clocks a ≡ without_clocks b
  pub spare : is_test ncpus cpu ≡ false → cpu ≢ 0 → a ≡ b

abbrev pub cpus_kept : List GroupCpu → List (List ℕ)
cpus_kept cpus = map (λ (g : GroupCpu). g.others) cpus

pub record AlikeGroup (i : ℕ) (a b : Group) : Type 0 where
  pub is_root : a.is_root ≡ b.is_root
  pub root : a.is_root ≡ true → a ≡ b
  pub others : a.others ≡ b.others
  pub per_cpu : cpus_kept a.per_cpu ≡ cpus_kept b.per_cpu

abbrev AlikeServer : ℕ → ℕ → DlServer → DlServer → Type 0
AlikeServer ncpus cpu a b = is_test ncpus cpu ≡ false → a ≡ b

abbrev AnyPrev : ℕ → ℕ → ℕ → Type 0
AnyPrev i a b = Unit {0}

-- Two machines that differ at most in what a reset is to forget.
pub record Alike (v w : World) : Type 0 where
  pub tick_nsec : v.tick_nsec ≡ w.tick_nsec
  pub jiffies : v.jiffies ≡ w.jiffies
  pub base_slice : v.base_slice ≡ w.base_slice
  pub migration_cost : v.migration_cost ≡ w.migration_cost
  pub test_ncpus : v.test_ncpus ≡ w.test_ncpus
  pub rqs : Pairwise (AlikeRq v.test_ncpus) 0 v.rqs w.rqs
  pub groups : Pairwise AlikeGroup 0 v.groups w.groups
  pub tasks : Pairwise AlikeTask 0 v.tasks w.tasks
  pub prev : Pairwise AnyPrev 0 v.distribute_cpu_mask_prev w.distribute_cpu_mask_prev
  pub servers : Pairwise (AlikeServer v.test_ncpus) 0 v.fair_server w.fair_server

if-eq :
    {A : Type 0} {x x' y y' : A} (b c : Bool)
    → b ≡ c
    → (b ≡ true → x ≡ x')
    → (b ≡ false → y ≡ y')
    → (if b then x else y) ≡ (if c then x' else y')
if-eq true true h f g = f refl
if-eq true false h f g = cc
if-eq false true h f g = cc
if-eq false false h f g = g refl

reset_task-eq :
    (base : ℕ) (p q : Task)
    → p.cpu ≡ q.cpu
    → p.weight ≡ q.weight
    → p.others ≡ q.others
    → reset_task base p ≡ reset_task base q
unfolding reset_task
reset_task-eq base p q c w o = ground arith

zero_iff : (n : ℕ) → (n == 0) ≡ true → n ≡ 0
zero_iff n h = ground (arith, h)

reset_tasks-eq :
    (base i : ℕ) (ps qs : List Task)
    → Pairwise AlikeTask i ps qs
    → reset_tasks base ps ≡ reset_tasks base qs
unfolding reset_tasks
reset_tasks-eq base i [] [] h = refl
reset_tasks-eq base i [] (q ∷ qs) h = elim h [ ]
reset_tasks-eq base i (p ∷ ps) [] h = elim h [ ]
reset_tasks-eq base i (p ∷ ps) (q ∷ qs) h =
    ap₂ (λ t ts. t ∷ ts)
      (if-eq (p.cpu == 0) (q.cpu == 0) (ap (λ c. c == 0) h.0.cpu)
        (λ z. h.0.control (zero_iff p.cpu z))
        (λ z. reset_task-eq base p q h.0.cpu h.0.weight h.0.others))
      (reset_tasks-eq base (suc i) ps qs h.1)

reset_domains-eq :
    (jiffies : ℕ) (ds es : List Domain)
    → domains_kept ds ≡ domains_kept es
    → map (reset_domain jiffies) ds ≡ map (reset_domain jiffies) es
unfolding reset_domain
reset_domains-eq j [] [] h = refl
reset_domains-eq j [] (e ∷ es) h = cc
reset_domains-eq j (d ∷ ds) [] h = cc
reset_domains-eq j (d ∷ ds) (e ∷ es) h =
    let here : d.min_interval ≡ e.min_interval = cc in
    let others : d.others ≡ e.others = cc in
    let rest : domains_kept ds ≡ domains_kept es = cc in
    ground (arith, here, others, reset_domains-eq j ds es rest)

reset_runqueue-eq :
    (w : World) (a b : RunQueue)
    → domains_kept a.domains ≡ domains_kept b.domains
    → a.others ≡ b.others
    → reset_runqueue w a ≡ reset_runqueue w b
unfolding reset_runqueue
reset_runqueue-eq w a b h o = ground (arith, reset_domains-eq w.jiffies a.domains b.domains h)

reset_control-eq :
    (t : ℕ) (a b : RunQueue)
    → without_clocks a ≡ without_clocks b
    → reset_control_rq t a ≡ reset_control_rq t b
unfolding reset_control_rq
reset_control-eq t a b h = ap (reset_control_rq t) h

same_settings :
    (v w : World) (rq : RunQueue)
    → v.tick_nsec ≡ w.tick_nsec
    → v.jiffies ≡ w.jiffies
    → v.migration_cost ≡ w.migration_cost
    → reset_runqueue v rq ≡ reset_runqueue w rq
unfolding reset_runqueue
same_settings v w rq t j c =
    let m : map (reset_domain v.jiffies) rq.domains ≡ map (reset_domain w.jiffies) rq.domains =
      ap (λ k. map (reset_domain k) rq.domains) j in
    ground (arith, m)

module _ (v w : World) (alike : Alike v w) where
  reset_rqs-eq :
      (cpu : ℕ) (xs ys : List RunQueue)
      → Pairwise (AlikeRq v.test_ncpus) cpu xs ys
      → reset_rqs v cpu xs ≡ reset_rqs w cpu ys
  unfolding reset_rqs
  reset_rqs-eq cpu [] [] h = refl
  reset_rqs-eq cpu [] (b ∷ ys) h = elim h [ ]
  reset_rqs-eq cpu (a ∷ xs) [] h = elim h [ ]
  reset_rqs-eq cpu (a ∷ xs) (b ∷ ys) h =
      ap₂ (λ t ts. t ∷ ts)
        (if-eq (is_test v.test_ncpus cpu) (is_test w.test_ncpus cpu)
          (ap (λ n. is_test n cpu) alike.test_ncpus)
          (λ t.
            reset_runqueue-eq v a b h.0.domains h.0.others
            ∙ same_settings v w b alike.tick_nsec alike.jiffies alike.migration_cost)
          (λ t.
            if-eq (cpu == 0) (cpu == 0) refl
              (λ z.
                reset_control-eq v.tick_nsec a b (h.0.control (zero_iff cpu z))
                ∙ ap (λ n. reset_control_rq n b) alike.tick_nsec)
              (λ z. h.0.spare t (λ e. absurd (ground (arith, z, e))))))
        (reset_rqs-eq (suc cpu) xs ys h.1)

reset_cpus-eq :
    (xs ys : List GroupCpu)
    → cpus_kept xs ≡ cpus_kept ys
    → map reset_group_cpu xs ≡ map reset_group_cpu ys
unfolding reset_group_cpu reset_sched_avg
reset_cpus-eq [] [] h = refl
reset_cpus-eq [] (y ∷ ys) h = cc
reset_cpus-eq (x ∷ xs) [] h = cc
reset_cpus-eq (x ∷ xs) (y ∷ ys) h =
    let here : x.others ≡ y.others = cc in
    let rest : cpus_kept xs ≡ cpus_kept ys = cc in ground (arith, here, reset_cpus-eq xs ys rest)

reset_groups-eq :
    (i : ℕ) (xs ys : List Group)
    → Pairwise AlikeGroup i xs ys
    → map reset_group xs ≡ map reset_group ys
unfolding reset_group
reset_groups-eq i [] [] h = refl
reset_groups-eq i [] (b ∷ ys) h = elim h [ ]
reset_groups-eq i (a ∷ xs) [] h = elim h [ ]
reset_groups-eq i (a ∷ xs) (b ∷ ys) h =
    ap₂ (λ t ts. t ∷ ts)
      (if-eq a.is_root b.is_root h.0.is_root h.0.root (λ z.
        ground (arith, h.0.is_root, h.0.others, reset_cpus-eq a.per_cpu b.per_cpu h.0.per_cpu)))
      (reset_groups-eq (suc i) xs ys h.1)

reset_prev-eq :
    (i : ℕ) (xs ys : List ℕ)
    → Pairwise AnyPrev i xs ys
    → map {B = ℕ} (λ prev. 0) xs ≡ map (λ prev. 0) ys
reset_prev-eq i [] [] h = refl
reset_prev-eq i [] (b ∷ ys) h = elim h [ ]
reset_prev-eq i (a ∷ xs) [] h = elim h [ ]
reset_prev-eq i (a ∷ xs) (b ∷ ys) h = ap (λ t. 0 ∷ t) (reset_prev-eq (suc i) xs ys h.1)

apply_params-eq :
    (n cpu : ℕ) (xs ys : List DlServer)
    → Pairwise (AlikeServer n) cpu xs ys
    → apply_params n cpu xs ≡ apply_params n cpu ys
unfolding apply_params
apply_params-eq n cpu [] [] h = refl
apply_params-eq n cpu [] (b ∷ ys) h = elim h [ ]
apply_params-eq n cpu (a ∷ xs) [] h = elim h [ ]
apply_params-eq n cpu (a ∷ xs) (b ∷ ys) h =
    ap₂ (λ t ts. t ∷ ts) (if-eq (is_test n cpu) (is_test n cpu) refl (λ t. refl) (λ t. h.0 t))
      (apply_params-eq n (suc cpu) xs ys h.1)

-- Two machines that agree on their configuration, on the loads and CPUs of their tasks, on the least
-- intervals of their domains and on every field that reset.c does not write (a task's deadline, what
-- a queue has still to take off its averages) are the same after a reset, whatever else their test
-- CPUs had before: clocks, averages, vruntimes, balancing history, counters. CPU 0 forgets its clocks
-- and its idle stamp, its tasks and the root task group nothing.
pub reset-forgets : (v w : World) → Alike v w → reset v ≡ reset w
unfolding reset reset_runqueues reset_cpumask reset_dl_server
reset-forgets v w a =
    let rqs = reset_rqs-eq v w a 0 v.rqs w.rqs a.rqs in
    let groups = reset_groups-eq 0 v.groups w.groups a.groups in
    let tasks =
      reset_tasks-eq v.base_slice 0 v.tasks w.tasks a.tasks
      ∙ ap (λ n. reset_tasks n w.tasks) a.base_slice in
    let prev = reset_prev-eq 0 v.distribute_cpu_mask_prev w.distribute_cpu_mask_prev a.prev in
    let servers =
      apply_params-eq v.test_ncpus 0 v.fair_server w.fair_server a.servers
      ∙ ap (λ n. apply_params n 0 w.fair_server) a.test_ncpus in
    cc (
      a.tick_nsec, a.jiffies, a.base_slice, a.migration_cost, a.test_ncpus, rqs, groups, tasks,
      prev, servers,
    )
