-- ===== src/Check/Decay/Silence.antt =====
-- When util_decay reports a CPU, and when it cannot.
use kstep.Prelude.{
  ℕ, zero, suc, ◌+◌, ◌≤◌, ◌<◌, ◌≡◌, refl, Bool, true, false, List, [], ◌∷◌, get_elem?, some, ltb,
  ◌==◌, if◌then◌else◌, arith, Bool-cases, inl, inr,
}
use kstep.Check.Decay.{
  Watch, Task, UtilView, seen_max, observed, see_task, see_tasks, fell, check_cpus, decay_tick,
}
use kstep.Cpu.Mask.{test_cpu}

-- `n` CPUs from `cpu` on of which `p` holds.
unfoldable pub which : (ℕ → Bool) → ℕ → ℕ → List ℕ
which p zero cpu = []
which p (suc n) cpu = if p cpu then cpu ∷ which p n (cpu + 1) else which p n (cpu + 1)

which-same :
    (p q : ℕ → Bool) (n cpu : ℕ) → ((c : ℕ) → cpu ≤ c → p c ≡ q c) → which p n cpu ≡ which q n cpu
unfolding which
which-same p q zero cpu h = refl
which-same p q (suc n) cpu h =
    rw (h cpu (omega arith), which-same p q n (cpu + 1) (λ c l. h c (omega arith)))

check_cpus-which :
    (view : ℕ → UtilView) (n cpu : ℕ) (w : Watch)
    → (check_cpus view n cpu w).0 ≡ which (λ c. fell (w.last c) (observed (view c))) n cpu
unfolding check_cpus which
check_cpus-which view zero cpu w = refl
check_cpus-which view (suc n) cpu w =
    let w' : Watch = record w { last = λ c. if c == cpu then observed (view cpu) else w.last c } in
    let later =
      which-same (λ c. fell (w'.last c) (observed (view c)))
        (λ c. fell (w.last c) (observed (view c))) n (cpu + 1)
        (λ c l. let ne : (c == cpu) ≡ false = ground arith in rw ne) in
    rw (check_cpus-which view n (cpu + 1) w', later)

-- A tick reports the test CPUs, in order, whose utilization fell by 1024 or more, of the fair class,
-- of the real-time class or of both together, from a baseline that the look at the tasks left
-- valid.
pub decay_tick-reports :
    (view : ℕ → UtilView) (ncpus : ℕ) (tasks : List Task) (w : Watch)
    → (decay_tick view ncpus tasks w).0
      ≡ which (λ c. fell ((see_tasks 0 tasks w).last c) (observed (view c))) ncpus 1
unfolding decay_tick
decay_tick-reports view ncpus tasks w = check_cpus-which view ncpus 1 (see_tasks 0 tasks w)

see_task-void :
    (i : ℕ) (p : Task) (w : Watch) (c : ℕ)
    → (w.last c).valid ≡ false
    → ((see_task i p w).last c).valid ≡ false
unfolding see_task
see_task-void i p w c h = ground (arith, h)

see_tasks-void :
    (i : ℕ) (tasks : List Task) (w : Watch) (c : ℕ)
    → (w.last c).valid ≡ false
    → ((see_tasks i tasks w).last c).valid ≡ false
unfolding see_tasks
see_tasks-void i [] w c h = h
see_tasks-void i (p ∷ tasks) w c h = elim (Bool-cases (ltb i seen_max)) [
  | inl x ↦ rw x (see_tasks-void (suc i) tasks (see_task i p w) c (see_task-void i p w c h))
  | inr x ↦ rw x h
]

see_task-exited :
    (i : ℕ) (p : Task) (w : Watch) → p.exited ≡ true → ((see_task i p w).last p.cpu).valid ≡ false
unfolding see_task
see_task-exited i p w h = ground (arith, h)

see_tasks-exited :
    (i j : ℕ) (tasks : List Task) (w : Watch) (p : Task)
    → get_elem? tasks j ≡ some p
    → i + j < seen_max
    → p.exited ≡ true
    → ((see_tasks i tasks w).last p.cpu).valid ≡ false
unfolding see_tasks
see_tasks-exited i j [] w p e l h = cc
see_tasks-exited i zero (q ∷ tasks) w p e l h =
    let room : ltb i seen_max ≡ true = ground arith in
    let same : q ≡ p = cc in
    rw room
      (see_tasks-void (suc i) tasks (see_task i q w) p.cpu (rw same (see_task-exited i p w h)))
see_tasks-exited i (suc j) (q ∷ tasks) w p e l h =
    let room : ltb i seen_max ≡ true = ground arith in
    rw room (see_tasks-exited (suc i) j tasks (see_task i q w) p e (omega arith) h)

which-not : (p : ℕ → Bool) (n cpu c : ℕ) → p c ≡ false → test_cpu c (which p n cpu) ≡ false
unfolding which
which-not p zero cpu c h = refl
which-not p (suc n) cpu c h = elim (Bool-cases (cpu == c)) [
  | inl e ↦
      let same : cpu ≡ c = ground (arith, e) in
      let off : p cpu ≡ false = rw same h in rw off (which-not p n (cpu + 1) c h)
  | inr ne ↦ elim (Bool-cases (p cpu)) [
    | inl x ↦ rw (x, ne) (which-not p n (cpu + 1) c h)
    | inr x ↦ rw x (which-not p n (cpu + 1) c h)
  ]
]

-- While a task that has exited is one of the session's first 64, no tick reports the CPU that it
-- exited on, however far the utilization of that CPU falls.
pub exited-silences :
    (view : ℕ → UtilView) (ncpus j : ℕ) (tasks : List Task) (w : Watch) (p : Task)
    → get_elem? tasks j ≡ some p
    → j < seen_max
    → p.exited ≡ true
    → test_cpu p.cpu (decay_tick view ncpus tasks w).0 ≡ false
exited-silences view ncpus j tasks w p e l h =
    rw (decay_tick-reports view ncpus tasks w)
      (which-not (λ c. fell ((see_tasks 0 tasks w).last c) (observed (view c))) ncpus 1 p.cpu off)
  where
    off : fell ((see_tasks 0 tasks w).last p.cpu) (observed (view p.cpu)) ≡ false
    off = unfold fell in rw (see_tasks-exited 0 j tasks w p e (omega arith) h)
