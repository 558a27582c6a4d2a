-- ===== src/Cli/Args.antt =====
-- The arguments of a command: `take_arg`, `parse_task` and `parse_cgroup` of kmod/cli.c.
pub mod Checked
use kstep.Prelude.{
  ℕ, zero, suc, ◌+◌, ◌-◌, Bool, true, false, not, ◌&&◌, ◌||◌, List, [], ◌∷◌, ◌++◌, Option, none,
  some, length, get_or, ltb, leb, ◌==◌, if◌then◌else◌,
}
use kstep.Prelude.Int.{ℤ, pos, negsuc, pos_part, ltb_ℤ}
use kstep.Text.{Bytes, lit, strsep, strim, contains_part, blank, split_at}
use kstep.Cli.{Kernel, Cli}

-- What is parsed, or the error that the command replies with.
pub data Parsed (A : Type 0) : Type 0 where
  wrong : Bytes → Parsed A
  right : A → Parsed A

trimmed : Option Bytes → Option Bytes
trimmed none = none
trimmed (some s) = some (strim s)

-- The argument, and what is left; NULL is `none`.
unfoldable pub take_arg : Option Bytes → Option Bytes × Option Bytes
unfolding trimmed
take_arg none = (none, none)
take_arg (some arg) = let (token, rest) = strsep blank arg in (some token, trimmed rest)

module _ {K : Type 0} (k : Kernel K) where
  pub in_range : ℤ → ℤ → Option ℤ → Option ℤ
  in_range lo hi none = none
  in_range lo hi (some n) = if ltb_ℤ n lo || ltb_ℤ hi n then none else some n

  -- `kstrtoint(s, 10, &n) || n < lo || n > hi` is `none`.
  unfoldable pub number : ℤ → ℤ → Bytes → Option ℤ
  unfolding in_range
  number lo hi s = in_range lo hi (k.kstrtoint s)

  -- The task of a number, with what is left of the arguments.
  unfoldable pub found : Cli K → Option Bytes → ℕ → Parsed (ℕ × Option Bytes)
  found w rest n =
      if ltb (length w.tasks) n || k.exited (get_or w.tasks (n - 1) 0) w.kernel
      then wrong (lit "no such task")
      else right (get_or w.tasks (n - 1) 0, rest)

  pub numbered : Cli K → Bytes → Option Bytes → Option ℤ → Parsed (ℕ × Option Bytes)
  unfolding found
  numbered w usage rest none = wrong usage
  numbered w usage rest (some (negsuc n)) = wrong usage
  numbered w usage rest (some (pos zero)) = wrong usage
  numbered w usage rest (some (pos (suc n))) = found w rest (suc n)

  pub task_arg : Cli K → Bytes → Option Bytes × Option Bytes → Parsed (ℕ × Option Bytes)
  unfolding numbered
  task_arg w usage (none, rest) = wrong usage
  task_arg w usage (some num_s, rest) = numbered w usage rest (k.kstrtoint num_s)

  unfoldable pub parse_task : Cli K → Option Bytes → Bytes → Parsed (ℕ × Option Bytes)
  unfolding task_arg
  parse_task w arg usage = task_arg w usage (take_arg arg)

  -- Whether the path, without its slash, is refused.
  taken : Cli K → Bool → Bytes → Bool
  taken w create [] = create
  taken w true (c ∷ path) = k.cgroup_exists (c ∷ path) w.kernel
  taken w false (c ∷ path) = not (k.cgroup_exists (c ∷ path) w.kernel)

  path_arg : Cli K → Bytes → Bool → Option Bytes × Option Bytes → Parsed (Bytes × Option Bytes)
  unfolding taken
  path_arg w usage create (none, rest) = wrong usage
  path_arg w usage create (some [], rest) = wrong usage
  path_arg w usage create (some (c ∷ path), rest) =
      if not (c == b'/') || contains_part (c ∷ path) (lit "..") || leb 48 (length (c ∷ path))
      then wrong usage
      else if taken w create path
      then wrong (if create then lit "cgroup exists" else lit "no such cgroup")
      else right (path, rest)

  -- The path without its slash, with what is left of the arguments.
  unfoldable pub parse_cgroup : Cli K → Option Bytes → Bytes → Bool → Parsed (Bytes × Option Bytes)
  unfolding path_arg
  parse_cgroup w arg usage create = path_arg w usage create (take_arg arg)

  -- `arg && kstrtoint(arg) ...`: an argument that may be left out.
  unfoldable pub optional : ℤ → ℤ → ℤ → Option Bytes → Option ℤ
  optional lo hi default none = some default
  optional lo hi default (some arg) = number lo hi arg

  unfoldable pub required : ℤ → ℤ → Option Bytes → Option ℤ
  required lo hi none = none
  required lo hi (some arg) = number lo hi arg
