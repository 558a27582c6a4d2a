-- ===== src/Cli/Reports/Numbers.antt =====
-- The number of a task and the task of a number.
use kstep.Prelude.{
  ℕ, suc, ◌+◌, ◌-◌, ◌<◌, ◌≡◌, refl, ap, ◌∙◌, false, List, [], ◌∷◌, Option, some, length, get_or,
  ltb, ◌==◌, arith, Bool-cases, inl, inr,
}
use kstep.Prelude.Int.{pos}
use kstep.Text.{Bytes}
use kstep.Cli.{Kernel, Cli}
use kstep.Cli.Args.{right, take_arg, parse_task, found}
use kstep.Cli.Reports.{number_from, task_number}

-- Where a task was found it stands, and the table reaches that far.
record Stands (tasks : List ℕ) (p i : ℕ) : Type 0 where
  there : get_or tasks i 0 ≡ p
  inside : i < length tasks

number_from-Stands :
    (i : ℕ) (tasks : List ℕ) (p n : ℕ)
    → number_from i tasks p ≡ suc n
    → (j : ℕ) × (n ≡ i + j) × Stands tasks p j
unfolding number_from
number_from-Stands i [] p n e = absurd (omega (arith, e))
number_from-Stands i (q ∷ tasks) p n e = elim (Bool-cases (q == p)) [
  | inl it ↦ (0, ground (arith, e, it), record { there = ground (arith, it); inside = omega arith })
  | inr other ↦
      let (j, at, s) = number_from-Stands (suc i) tasks p n (rw other at e) in
      (suc j, omega (arith, at), record { there = s.there; inside = omega (arith, s.inside) })
]

found-right :
    {K : Type 0} (k : Kernel K) (w : Cli K) (rest : Option Bytes) (n : ℕ) {p : ℕ}
    → get_or w.tasks n 0 ≡ p
    → ltb (length w.tasks) (suc n) ≡ false
    → k.exited p w.kernel ≡ false
    → found k w rest (suc n) ≡ right (p, rest)
unfolding found
found-right k w rest n {p} there inside live =
    let at : suc n - 1 ≡ n = omega arith in rw (inside, at, there, live) refl

-- The number that a report names a task by is the one that a command finds it by: where that number
-- is the first argument of a command, in any form that the kernel reads as it, and the task has not
-- exited, the command is run on that task.
pub task_number-parse_task :
    {K : Type 0} (k : Kernel K) (w : Cli K) (p n : ℕ) (arg : Option Bytes) (usage num_s : Bytes)
    {rest : Option Bytes}
    → task_number w.tasks p ≡ suc n
    → take_arg arg ≡ (some num_s, rest)
    → k.kstrtoint num_s ≡ some (pos (task_number w.tasks p))
    → k.exited p w.kernel ≡ false
    → parse_task k w arg usage ≡ right (p, rest)
unfolding parse_task task_number
task_number-parse_task k w p n arg usage num_s {rest} e a r live =
    let (j, at, s) = number_from-Stands 0 w.tasks p n e in
    let is_j : n ≡ j = omega (arith, at) in
    let there : get_or w.tasks n 0 ≡ p = ap (λ x. get_or w.tasks x 0) is_j ∙ s.there in
    let inside : ltb (length w.tasks) (suc n) ≡ false = ground (arith, s.inside, is_j) in
    rw (a, r, e) (found-right k w rest n there inside live)
