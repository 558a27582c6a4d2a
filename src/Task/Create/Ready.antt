-- ===== src/Task/Create/Ready.antt =====
-- A task that is made is ready for the controller.
use kstep.Prelude.{
  ℕ, zero, suc, ◌+◌, ◌≤◌, ◌≡◌, refl, ap₂, ◌∙◌, true, false, List, [], ◌∷◌, ◌++◌, some,
  if◌then◌else◌, arith, ok, panic, no_helper,
}
use kstep.Prelude.Int.{pos}
use kstep.Cpu.Mask.{Mask, test_cpu, last_cpu}
use kstep.Cpu.Topo.{Host, parse_cpus}
use kstep.Reset.{reset_task}
use kstep.Task.Queue.{Task, parked, put-zeroed}
use kstep.Task.Queue.Fifo.{pending}
use kstep.Task.Table.{Proc, Table, xa_store, task_find, task_add}
use kstep.Task.Read.{parks, ctrl_read}
use kstep.Task.Read.Handover.{add-read-parks}
use kstep.Task.Create.{
  File, null_file, console_file, ctrl_file, Fds, ran, Umh, World, test_cpus, got, install,
  task_init, set_affinity, affine, first_read, after_exec, task_create,
}

-- The CPUs from one on, in their order.
unfoldable pub range_from : ℕ → ℕ → Mask
range_from c zero = []
range_from c (suc n) = c ∷ range_from (suc c) n

from-positive : (c n : ℕ) → test_cpu 0 (range_from (suc c) n) ≡ false
unfolding range_from
from-positive c zero = refl
from-positive c (suc n) = ground (arith, from-positive (suc c) n)

last-from : (c n : ℕ) → last_cpu (range_from (suc c) n) ≤ c + n
unfolding range_from
last-from c zero = omega arith
last-from c (suc n) = ground (arith, last-from (suc c) n)

-- The parser of CPU lists reads "1-n" as what it says.
abbrev pub ReadsRange : Host → ℕ → Type 0
ReadsRange host n = host.cpulist_parse (test_cpus n) ≡ some (range_from 1 n)

parse-test_cpus :
    (host : Host) (n : ℕ)
    → 1 ≤ n
    → ReadsRange host n
    → parse_cpus host n (test_cpus n) ≡ some (range_from 1 n)
unfolding parse_cpus range_from
parse-test_cpus host zero h r = absurd (omega arith)
parse-test_cpus host (suc n) h r = rw r (ground (arith, from-positive 1 n, last-from 1 n))

-- Nothing fails: a new process gets the lowest descriptor that is unused, there is memory, the
-- helper runs as that process, and the kernel lets it have the CPUs asked for.
pub record Healthy {K : Type 0} (u : Umh K) (p : Proc) : Type 0 where
  pub at_0 : u.unused_fd [] ≡ pos 0
  pub at_1 : (a : File) → u.unused_fd ((0, a) ∷ []) ≡ pos 1
  pub at_2 : (a b : File) → u.unused_fd ((0, a) ∷ (1, b) ∷ []) ≡ pos 2
  pub at_3 : (a b c : File) → u.unused_fd ((0, a) ∷ (1, b) ∷ (2, c) ∷ []) ≡ pos 3
  pub allowed_0 : u.allowed_0 ≡ true
  pub allocated : u.allocated ≡ true
  pub stored : u.stored ≡ true
  pub set_up : u.set_up ≡ true
  pub runs : u.exec ≡ ran p
  pub affine : (m : Mask) (k : K) → (u.sched_setaffinity true p.pid m k).0 ≡ pos 0

-- stdin, stdout, stderr and the control file.
abbrev pub task_fds : Fds
task_fds = (0, null_file) ∷ (1, console_file) ∷ (2, console_file) ∷ (3, ctrl_file) ∷ []

-- The kernel behind the making: the test CPUs were asked for, with the coverage map's flag up, and
-- then the task's counters were reset.
abbrev pub left_kernel : {K : Type 0} → Umh K → ℕ → ℕ → Proc → K → K
left_kernel u n base_slice p k =
    let k' = (u.sched_setaffinity true p.pid (range_from 1 n) k).1 in
    u.write p.pid (reset_task base_slice (u.look p.pid k')) k'

got-same : (i : ℕ) → got (pos i) i ≡ ok i
unfolding got
got-same i = ground arith

module _ {K : Type 0} (u : Umh K) (p : Proc) where
  task_init-table :
      (m : Table) {fds : Fds}
      → install u (null_file ∷ console_file ∷ console_file ∷ ctrl_file ∷ []) 0 [] ≡ ok fds
      → u.allowed_0 ≡ true
      → u.allocated ≡ true
      → u.stored ≡ true
      → task_init u p [] m ≡ ok (fds, xa_store m p.pid (parked p.addr))
  unfolding task_init task_add
  task_init-table m e a b c = rw (e, a, b, c, put-zeroed p.addr)

  create-chain :
      (host : Host) (n base_slice : ℕ) (w : World K) {w' : World K} {fds : Fds} {m m' : Table}
      → u.set_up ≡ true
      → u.exec ≡ ran p
      → task_init u p [] w.table ≡ ok (fds, m)
      → ctrl_read u.entered m p ≡ ok (parks, m')
      → first_read u host n base_slice p w (parks, m') ≡ ok w'
      → task_create u host n base_slice [] w ≡ ok (p, fds, w')
  unfolding task_create after_exec
  create-chain host n base_slice w a b c d e =
      ap₂ (λ x y. if x then after_exec u host n base_slice y [] w else panic no_helper) a b
      ∙ rw (c, d, e)

module _ {K : Type 0} (u : Umh K) (p : Proc) (ok_u : Healthy u p) where
  install-one :
      (f : File) (files : List File) (i : ℕ) (fds : Fds)
      → u.unused_fd fds ≡ pos i
      → install u (f ∷ files) i fds ≡ install u files (suc i) (fds ++ ((i, f) ∷ []))
  unfolding install
  install-one f files i fds e = rw (e, got-same i)

  fds-installed :
      install u (null_file ∷ console_file ∷ console_file ∷ ctrl_file ∷ []) 0 [] ≡ ok task_fds
  unfolding install
  fds-installed =
      install-one null_file (console_file ∷ console_file ∷ ctrl_file ∷ []) 0 [] ok_u.at_0
      ∙ install-one console_file (console_file ∷ ctrl_file ∷ []) 1 _ (ok_u.at_1 null_file)
      ∙ install-one console_file (ctrl_file ∷ []) 2 _ (ok_u.at_2 null_file console_file)
      ∙ install-one ctrl_file [] 3 _ (ok_u.at_3 null_file console_file console_file)

  init-added :
      (m : Table)
      → (m' : Table) × (task_add true true m p ≡ ok m') × (task_init u p [] m ≡ ok (task_fds, m'))
  unfolding task_init task_add
  init-added m = (
    xa_store m p.pid (parked p.addr),
    rw (put-zeroed p.addr),
    task_init-table u p m fds-installed ok_u.allowed_0 ok_u.allocated ok_u.stored,
  )

  affine-kernel :
      (host : Host) (n base_slice : ℕ) (w : World K)
      → 1 ≤ n
      → ReadsRange host n
      → affine u host n base_slice p (set_affinity u host n p (test_cpus n) w)
        ≡ ok (record w { controller = false; k = left_kernel u n base_slice p w.k })
  unfolding affine set_affinity
  affine-kernel host n base_slice w h r =
      rw (parse-test_cpus host n h r, ok_u.affine (range_from 1 n) w.k)

  -- Where nothing fails and there is a test CPU, making a task returns, with the controller not left
  -- waiting: the new task has the control file at the fourth descriptor, behind stdin, stdout and
  -- stderr; its record is there and has no action left, since its first read has parked it; and what
  -- the kernel was asked is that the task may run on the test CPUs, all of them and no other, and
  -- that its counters start anew. The coverage map's flag is down again.
  pub task_create-left_kernel :
      (host : Host) (n base_slice : ℕ) (w : World K)
      → 1 ≤ n
      → ReadsRange host n
      → (w' : World K) × (t : Task) × (task_create u host n base_slice [] w ≡ ok (p, task_fds, w'))
        × (task_find w'.table p ≡ some t)
        × (pending t ≡ [])
        × (w'.k ≡ left_kernel u n base_slice p w.k)
        × (w'.controller ≡ false)
  unfolding first_read
  task_create-left_kernel host n base_slice w h r =
      let (m', added, made) = init-added w.table in
      let (m, t, read, known, idle) = add-read-parks u.entered w.table p added in
      (
        record { controller = false; k = left_kernel u n base_slice p w.k; table = m },
        t,
        create-chain u p host n base_slice w ok_u.set_up ok_u.runs made read
            (affine-kernel host n base_slice (record w { table = m }) h r),
        known,
        idle,
        refl,
        refl,
      )
