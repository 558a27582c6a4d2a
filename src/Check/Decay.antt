-- ===== src/Check/Decay.antt =====
-- The rule util_decay of kmod/checkers/util_decay.c. An `s64` is an integer.
pub mod Silence
mod Tests
use kstep.Prelude.{
  ℕ, zero, suc, ◌+◌, Bool, true, false, not, ◌&&◌, ◌||◌, List, [], ◌∷◌, get_or, set, ltb, leb, ◌==◌,
  if◌then◌else◌,
}
use kstep.Prelude.Int.{ℤ, pos, pos_part, neg_part, sub_ℕ}

pub record UtilObs : Type 0 where
  pub cfs : ℤ
  pub rt : ℤ
  pub valid : Bool

pub record Seen : Type 0 where
  pub pid : ℕ
  pub cpu : ℕ
  pub policy : ℕ

-- `last_util` of each CPU, and `util_seen`.
pub record Watch : Type 0 where
  pub last : ℕ → UtilObs
  pub seen : List Seen

-- What is read of a task.
pub record Task : Type 0 where
  pub pid : ℕ
  pub cpu : ℕ
  pub policy : ℕ
  pub exited : Bool

-- What is read of a runqueue; `leaves` are the `removed.util_avg` of its leaf queues.
pub record UtilView : Type 0 where
  pub util_avg : ℕ
  pub removed : ℕ
  pub leaves : List ℕ
  pub rt_util_avg : ℕ

abbrev pub seen_max : ℕ
seen_max = 64

abbrev pub no_task : Seen
no_task = record { pid = 0; cpu = 0; policy = 0 }

abbrev pub sum : List ℕ → ℕ
sum [] = 0
sum (n ∷ ns) = n + sum ns

unfoldable pub cfs_util : UtilView → ℤ
cfs_util v = sub_ℕ v.util_avg (v.removed + sum v.leaves)

abbrev pub observed : UtilView → UtilObs
unfolding cfs_util
observed v = record { cfs = cfs_util v; rt = pos v.rt_util_avg; valid = true }

-- `per_cpu_ptr(&last_util, cpu)->valid = false`
abbrev pub void : ℕ → Watch → Watch
void cpu w = record w {
  last = λ c. record (w.last c) { valid = if c == cpu then false else (w.last c).valid };
}

-- A round of the first loop, for the task of slot `i`.
unfoldable pub see_task : ℕ → Task → Watch → Watch
see_task i p w =
    let old = get_or w.seen i no_task in
    let seen = set w.seen i (record { pid = p.pid; cpu = p.cpu; policy = p.policy }) in
    if not (old.pid == p.pid)
    then void p.cpu (record w { seen = seen })
    else if not (old.cpu == p.cpu) || (not (old.policy == p.policy) || p.exited)
    then record (void p.cpu (void old.cpu w)) {
      seen = set w.seen i (record old { cpu = p.cpu; policy = p.policy });
    }
    else w

-- The tasks from index `i` on.
unfoldable pub see_tasks : ℕ → List Task → Watch → Watch
unfolding see_task
see_tasks i [] w = w
see_tasks i (p ∷ tasks) w =
    let rest = see_tasks (suc i) tasks (see_task i p w) in if ltb i seen_max then rest else w

-- SCHED_CAPACITY_SCALE or more between the two.
abbrev pub falls : ℕ → ℕ → Bool
falls up down = leb (down + 1024) up

unfoldable pub fell : UtilObs → UtilObs → Bool
fell last cur =
    last.valid
    && (falls (pos_part last.cfs + neg_part cur.cfs) (pos_part cur.cfs + neg_part last.cfs)
        || (falls (pos_part last.rt + neg_part cur.rt) (pos_part cur.rt + neg_part last.rt)
            || falls (pos_part last.cfs + pos_part last.rt + neg_part cur.cfs + neg_part cur.rt)
                (pos_part cur.cfs + pos_part cur.rt + neg_part last.cfs + neg_part last.rt)))

-- The second loop, `n` CPUs from `cpu` on: the CPUs that it reports, and what it keeps.
unfoldable pub check_cpus : (ℕ → UtilView) → ℕ → ℕ → Watch → List ℕ × Watch
unfolding fell
check_cpus view zero cpu w = ([], w)
check_cpus view (suc n) cpu w =
    let cur = observed (view cpu) in
    let rest =
      check_cpus view n (cpu + 1) (record w { last = λ c. if c == cpu then cur else w.last c }) in
    (if fell (w.last cpu) cur then cpu ∷ rest.0 else rest.0, rest.1)

-- `on_tick_end`
unfoldable pub decay_tick : (ℕ → UtilView) → ℕ → List Task → Watch → List ℕ × Watch
unfolding see_tasks check_cpus
decay_tick view ncpus tasks w = check_cpus view ncpus 1 (see_tasks 0 tasks w)
