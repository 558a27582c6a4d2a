-- ===== src/Check/Tick/Streak.antt =====
-- When the rule reports.
use kstep.Prelude.{
  zero, suc, ◌-◌, ◌==◌, ◌&&◌, ◌||◌, ltb, ap, ◌∙◌, Bool-cases, inl, inr, ℕ, ◌+◌, ◌≤◌, Bool, true,
  false, not, List, [], ◌∷◌, Option, none, some, leb, if◌then◌else◌, ◌≡◌, refl, arith,
}
use kstep.Check.Tick.{
  Runner, View, idle_of, runnable, waiting, is_empty, streak_of, work_tick, idle_ticks,
}
use kstep.Cpu.Mask.{intersects}

-- The streak after a sequence of ticks, newest first.
unfoldable pub after : List View → ℕ
after [] = 0
after (v ∷ earlier) = (work_tick v (after earlier)).0

-- Some test CPU is idle.
abbrev pub some_idle : View → ℕ → Bool
some_idle v zero = false
some_idle v (suc n) = v.nr_running (suc n) == 0 || some_idle v n

-- Some task in TASK_RUNNING is queued behind another and may run on a test CPU that is idle.
abbrev pub some_waits : View → List Runner → Bool
some_waits v [] = false
some_waits v (p ∷ tasks) =
    p.running && leb 2 p.nr_running && intersects p.cpus (idle_of v.nr_running v.test_ncpus)
    || some_waits v tasks

-- A tick at which the balancer owes a move: a test CPU is idle, a task waits that may run on such a
-- CPU, and the runnable tasks are as many as the CPUs that are online beside the controller's.
abbrev pub owed : View → Bool
owed v = some_idle v v.test_ncpus && some_waits v v.tasks && leb (v.online - 1) (runnable v.tasks)

-- How many of the newest ticks in a row owe a move.
abbrev pub owed_run : List View → ℕ
owed_run [] = 0
owed_run (v ∷ earlier) = if owed v then owed_run earlier + 1 else 0

idle_of-empty : (v : View) (n : ℕ) → not (is_empty (idle_of v.nr_running n)) ≡ some_idle v n
unfolding idle_of is_empty
idle_of-empty v zero = refl
idle_of-empty v (suc n) = elim (Bool-cases (v.nr_running (suc n) == 0)) [
  | inl e ↦ rw e refl
  | inr e ↦ rw e (idle_of-empty v n)
]

is_some : Option Runner → Bool
is_some none = false
is_some (some p) = true

more_than_one : (n : ℕ) → ltb 1 n ≡ leb 2 n
more_than_one n = elim (Bool-cases (ltb 1 n)) [
  | inl e ↦ ground (arith, e)
  | inr e ↦ ground (arith, e)
]

waiting-here :
    (running queued two meets : Bool) (p : Runner) (o : Option Runner) (b : Bool)
    → queued ≡ two
    → is_some o ≡ b
    → is_some (if running && queued && meets then some p else o) ≡ (running && two && meets || b)
unfolding is_some
waiting-here running queued two meets p o b e f = ground (arith, e, f)

waiting-some :
    (v : View) (tasks : List Runner)
    → is_some (waiting (idle_of v.nr_running v.test_ncpus) tasks) ≡ some_waits v tasks
unfolding waiting is_some
waiting-some v [] = refl
waiting-some v (p ∷ tasks) =
    waiting-here p.running (ltb 1 p.nr_running) (leb 2 p.nr_running)
      (intersects p.cpus (idle_of v.nr_running v.test_ncpus)) p
      (waiting (idle_of v.nr_running v.test_ncpus) tasks) (some_waits v tasks)
      (more_than_one p.nr_running) (waiting-some v tasks)

streak_of-run :
    (s : ℕ) (silent : Bool) (o : Option Runner)
    → (streak_of s silent o).0 ≡ (if not silent && is_some o then s + 1 else 0)
unfolding streak_of is_some
streak_of-run s true none = refl
streak_of-run s false none = refl
streak_of-run s true (some p) = refl
streak_of-run s false (some p) = refl

owed-cases :
    (empty : Bool) {idle waits some_there : Bool} (n least : ℕ)
    → not empty ≡ idle
    → some_there ≡ waits
    → (not (empty || ltb n least) && some_there) ≡ (idle && waits && leb least n)
owed-cases empty n least e f = ground (arith, e, f)

owed-eq :
    (v : View)
    → (not (is_empty (idle_of v.nr_running v.test_ncpus) || ltb (runnable v.tasks) (v.online - 1))
        && is_some (waiting (idle_of v.nr_running v.test_ncpus) v.tasks))
      ≡ owed v
owed-eq v =
    owed-cases (is_empty (idle_of v.nr_running v.test_ncpus)) (runnable v.tasks) (v.online - 1)
      (idle_of-empty v v.test_ncpus) (waiting-some v v.tasks)

work_tick-run : (v : View) (s : ℕ) → (work_tick v s).0 ≡ (if owed v then s + 1 else 0)
unfolding work_tick
work_tick-run v s =
    streak_of-run s _ (waiting (idle_of v.nr_running v.test_ncpus) v.tasks)
    ∙ ap (λ b. if b then s + 1 else 0) (owed-eq v)

after-run : (vs : List View) → after vs ≡ owed_run vs
unfolding after
after-run [] = refl
after-run (v ∷ vs) = rw (work_tick-run v (after vs), after-run vs)

reported-late :
    (s : ℕ) (silent : Bool) (o : Option Runner) {p : Runner}
    → (streak_of s silent o).1 ≡ some p
    → (o ≡ some p) × (idle_ticks ≤ s + 1) × ((streak_of s silent o).0 ≡ s + 1)
unfolding streak_of
reported-late s silent none e = absurd (ground arith)
reported-late s true (some q) e = absurd (ground arith)
reported-late s false (some q) e = (ground arith, ground arith, refl)

work_tick-late :
    (v : View) (s : ℕ) {p : Runner}
    → (work_tick v s).1 ≡ some p
    → (waiting (idle_of v.nr_running v.test_ncpus) v.tasks ≡ some p)
      × (idle_ticks ≤ s + 1)
      × ((work_tick v s).0 ≡ s + 1)
unfolding work_tick
work_tick-late v s e = reported-late s _ (waiting (idle_of v.nr_running v.test_ncpus) v.tasks) e

-- A task that the rule reports is the first that waits, and at this tick and the three before it a
-- test CPU was idle, a task waited that could run there, and there was a runnable task for each CPU
-- but the controller's.
pub work_tick-reported :
    (v : View) (earlier : List View) (p : Runner)
    → (work_tick v (after earlier)).1 ≡ some p
    → (waiting (idle_of v.nr_running v.test_ncpus) v.tasks ≡ some p)
      × (idle_ticks ≤ owed_run (v ∷ earlier))
unfolding after
work_tick-reported v earlier p e =
    let (first, late, streak) = work_tick-late v (after earlier) e in
    let r = after-run (v ∷ earlier) in (first, omega (arith, late, streak, r))
