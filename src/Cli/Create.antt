-- ===== src/Cli/Create.antt =====
-- `cmd_create` of kmod/cli.c.
pub mod Bounds
use kstep.Prelude.{
  ℕ, zero, suc, ◌+◌, ◌-◌, ◌^◌, Bool, true, false, not, ◌&&◌, ◌||◌, List, [], ◌∷◌, ◌++◌, Option,
  none, some, length, ltb, leb, ◌==◌, if◌then◌else◌, Outcome, ok, panic, out_of_bounds, ◌>>=◌,
}
use kstep.Prelude.Int.{ℤ, pos, negsuc, pos_part, ltb_ℤ}
use kstep.Text.{Bytes, lit}
use kstep.Io.Json.{text}
use kstep.Cli.{Kernel, Cli, shm_tasks, reply_error, reply_errno, is_zero}
use kstep.Cli.Args.{Parsed, wrong, right, take_arg, parse_cgroup}

-- `ntasks + n > KSTEP_SHM_TASKS` in `int`, which wraps: a sum of 2 ^ 31 or more is negative.
abbrev pub too_many : ℕ → ℕ → Bool
too_many ntasks n = if ltb (ntasks + n) (2 ^ 31) then ltb shm_tasks (ntasks + n) else false

module _ {K : Type 0} (k : Kernel K) where
  -- The move of a new task; 0 where no cgroup is named.
  moved : Option Bytes → ℕ → K → ℤ × K
  moved none p kernel = (pos 0, kernel)
  moved (some name) p kernel = k.cgroup_move_task name p kernel

  -- One turn of the loop behind `kstep_task_create`: `none` where the command returns.
  one_task : Option Bytes → ℕ → K → ℤ × K
  unfolding moved
  one_task name p kernel = moved name p kernel

  number_task : ℕ → Cli K → Outcome (Cli K)
  number_task p w =
      if leb shm_tasks (length w.tasks)
      then panic out_of_bounds
      else ok (record w { tasks = w.tasks ++ (p ∷ []); kernel = k.task_wakeup p w.kernel })

  -- The loop, and the reply behind it.
  unfoldable pub create_tasks : Option Bytes → ℕ → Cli K → Outcome (Cli K)
  unfolding one_task number_task
  create_tasks name zero w =
      ok (record w { reply = w.reply ++ (text (lit "task") (k.decimal (length w.tasks)) ∷ []) })
  create_tasks name (suc n) w =
      let p = (k.task_create w.kernel).0 in
      let (err, kernel) = one_task name p (k.task_create w.kernel).1 in
      let refused = ok (reply_errno k err (record w { kernel = k.task_exit p kernel })) in
      let rest = number_task p (record w { kernel = kernel }) >>= λ w'. create_tasks name n w' in
      if is_zero err then rest else refused

  -- From the check of the number on.
  create_number : Option Bytes → ℤ → Cli K → Outcome (Cli K)
  create_number name n w =
      if ltb_ℤ n (pos 1) || too_many (length w.tasks) (pos_part n)
      then ok (reply_error (lit "too many tasks") w)
      else create_tasks name (pos_part n) w

  -- What is left of the arguments, behind the number: a path, or nothing.
  create_path : ℤ → Parsed (Bytes × Option Bytes) → Cli K → Outcome (Cli K)
  unfolding create_number
  create_path n (wrong msg) w = ok (reply_error msg w)
  create_path n (right (name, none)) w = create_number (some name) n w
  create_path n (right (name, some arg)) w = ok (reply_error (lit "usage: create [n] [/path]") w)

  create_rest : ℤ → Option Bytes → Cli K → Outcome (Cli K)
  unfolding create_path
  create_rest n none w = create_number none n w
  create_rest n (some []) w = create_number none n w
  create_rest n (some (c ∷ arg)) w =
      create_path n (parse_cgroup k w (some (c ∷ arg)) (lit "usage: create [n] [/path]") false) w

  create_counted : Option ℤ → Option Bytes → Cli K → Outcome (Cli K)
  unfolding create_rest
  create_counted none rest w = ok (reply_error (lit "usage: create [n] [/path]") w)
  create_counted (some n) rest w = create_rest n rest w

  -- The token is there, since the argument is.
  create_first : Option Bytes × Option Bytes → Cli K → Outcome (Cli K)
  unfolding create_counted
  create_first (none, rest) w = create_counted none rest w
  create_first (some token, rest) w = create_counted (k.kstrtoint token) rest w

  unfoldable pub cmd_create : Option Bytes → Cli K → Outcome (Cli K)
  unfolding create_first
  cmd_create none w = create_rest (pos 1) none w
  cmd_create (some []) w = create_first (take_arg (some [])) w
  cmd_create (some (c ∷ arg)) w =
      if c == b'/'
      then create_rest (pos 1) (some (c ∷ arg)) w
      else create_first (take_arg (some (c ∷ arg))) w
