-- ===== src/Task/Create.antt =====
-- How a task comes about, and what the kernel is asked for it: `task_init`, `kstep_task_create`,
-- `kstep_task_wakeup`, `kstep_task_set_fair`, `kstep_task_set_rt` and `kstep_task_set_affinity` of
-- kmod/task.c.
pub mod Ready
mod Tests
use kstep.Prelude.{
  ℕ, zero, suc, ◌+◌, ◌/◌, ◌%◌, Bool, true, false, List, [], ◌∷◌, ◌++◌, Option, none, some, ltb,
  ◌==◌, if◌then◌else◌, Outcome, ok, panic, fd_taken, not_pinned, no_helper, not_affine, not_ended,
  ◌>>=◌,
}
use kstep.Prelude.Int.{ℤ, pos, negsuc}
use kstep.Text.{Bytes, lit, printed}
use kstep.Cpu.Mask.{Mask, only}
use kstep.Cpu.Topo.{Host, parse_cpus}
use kstep.Reset.{reset_task}
use kstep.Task.Table.{Proc, Table, task_add}
use kstep.Task.Read.{Read, parks, gives, halts, returns, Entered, ctrl_read}

-- The open files that every task shares.
pub data File : Type 0 where
  null_file console_file ctrl_file : File

-- A file descriptor table, the oldest entry first.
abbrev pub Fds : Type 0
Fds = List (ℕ × File)

-- `struct sched_attr`, as far as it is set; the rest is 0.
pub record Attr : Type 0 where
  pub sched_policy : ℕ
  pub sched_nice : ℤ
  pub sched_priority : ℕ

-- What `call_usermodehelper_exec` comes to: it fails, or the program runs without `task_init`, or
-- as that process, behind `task_init`.
pub data Exec : Type 0 where
  failed : Exec
  not_run : Exec
  ran : Proc → Exec

-- What is called of the kernel, on a state of any type. The flag is the one that
-- `kstep_cov_controller` sets, as it stands during the call; a signal is SIGUSR1.
pub record Umh (K : Type 0) : Type 0 where
  pub unused_fd : Fds → ℤ
  pub allowed_0 : Bool
  pub allocated : Bool
  pub stored : Bool
  pub set_up : Bool
  pub exec : Exec
  pub entered : Entered
  pub sched_setaffinity : Bool → ℕ → Mask → K → ℤ × K
  pub sched_setattr : Bool → ℕ → Attr → K → K
  pub send_sig : Bool → ℕ → K → K
  pub look : ℕ → K → kstep.Reset.Task
  pub write : ℕ → kstep.Reset.Task → K → K

-- What a task is made in: the flag of the coverage map, the kernel, and the records.
pub record World (K : Type 0) : Type 0 where
  pub controller : Bool
  pub k : K
  pub table : Table

-- SCHED_NORMAL is 0; the policies are numbers here. ERANGE is 34.
abbrev erange : ℤ
erange = negsuc 33

-- "1-%d" for `kstep_test_ncpus`; 16 bytes are enough.
abbrev pub test_cpus : ℕ → Bytes
test_cpus ncpus = lit "1-" ++ printed 10 ncpus []

-- The descriptor that the loop over `files` goes on with.
unfoldable pub got : ℤ → ℕ → Outcome ℕ
got (pos fd) i = if fd == i then ok fd else panic fd_taken
got (negsuc e) i = panic fd_taken

module _ {K : Type 0} (u : Umh K) where
  unfoldable pub install : List File → ℕ → Fds → Outcome Fds
  unfolding got
  install [] i fds = ok fds
  install (f ∷ files) i fds =
      got (u.unused_fd fds) i >>= λ fd. install files (suc i) (fds ++ ((fd, f) ∷ []))

  -- `task_init`, in the new process: its descriptors and the records.
  unfoldable pub task_init : Proc → Fds → Table → Outcome (Fds × Table)
  unfolding install
  task_init p fds m =
      install (null_file ∷ console_file ∷ console_file ∷ ctrl_file ∷ []) 0 fds >>= λ fds'.
      if u.allowed_0
      then (task_add u.allocated u.stored m p >>= λ m'. ok (fds', m'))
      else panic not_pinned

  module _ (host : Host) (ncpus : ℕ) where
    set_mask : ℕ → Option Mask → World K → ℤ × World K
    set_mask pid none w = (erange, w)
    set_mask pid (some mask) w =
        let (ret, k') = u.sched_setaffinity true pid mask w.k in
        (ret, record w { controller = false; k = k' })

    unfoldable pub set_affinity : Proc → Bytes → World K → ℤ × World K
    unfolding set_mask
    set_affinity p cpulist w = set_mask p.pid (parse_cpus host ncpus cpulist) w

    unfoldable pub affine : ℕ → Proc → ℤ × World K → Outcome (World K)
    affine base_slice p (pos zero, w) =
        ok (record w { k = u.write p.pid (reset_task base_slice (u.look p.pid w.k)) w.k })
    affine base_slice p (ret, w) = panic not_affine

    -- The first read of the task ends the wait.
    unfoldable pub first_read : ℕ → Proc → World K → Read × Table → Outcome (World K)
    unfolding affine
    first_read base_slice p w (parks, m) =
        affine base_slice p (set_affinity p (test_cpus ncpus) (record w { table = m }))
    first_read base_slice p w (read, m) = panic not_ended

    unfoldable pub after_exec : ℕ → Exec → Fds → World K → Outcome (Proc × Fds × World K)
    unfolding first_read task_init
    after_exec base_slice failed fds w = panic no_helper
    after_exec base_slice not_run fds w = panic no_helper
    after_exec base_slice (ran p) fds w = task_init p fds w.table >>= λ made.
        ctrl_read u.entered made.1 p >>= λ read.
        first_read base_slice p w read >>= λ w'. ok (p, made.0, w')

    -- With the descriptors that the helper begins with.
    unfoldable pub task_create : ℕ → Fds → World K → Outcome (Proc × Fds × World K)
    unfolding after_exec
    task_create base_slice fds w =
        if u.set_up then after_exec base_slice u.exec fds w else panic no_helper

  -- Up to its settle.
  unfoldable pub task_wakeup : Proc → World K → World K
  task_wakeup p w = record w { controller = false; k = u.send_sig true p.pid w.k }

  set_attr : Proc → Attr → World K → World K
  set_attr p attr w = record w { controller = false; k = u.sched_setattr true p.pid attr w.k }

  unfoldable pub set_fair : Proc → ℕ → ℤ → World K → World K
  unfolding set_attr
  set_fair p policy nice w =
      set_attr p (record { sched_policy = policy; sched_nice = nice; sched_priority = 0 }) w

  unfoldable pub set_rt : Proc → ℕ → ℕ → World K → World K
  unfolding set_attr
  set_rt p policy prio w =
      set_attr p (record { sched_policy = policy; sched_nice = pos 0; sched_priority = prio }) w
