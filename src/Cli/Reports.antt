-- ===== src/Cli/Reports.antt =====
-- What the session reports beside its replies: `task_number`, `report_migrate` and the ready record
-- of `run` in kmod/cli.c.
pub mod Numbers
use kstep.Prelude.{
  ℕ, zero, suc, ◌+◌, Bool, true, false, List, [], ◌∷◌, Option, none, some, ◌==◌, if◌then◌else◌,
  Outcome,
}
use kstep.Text.{Bytes, lit}
use kstep.Io.Json.{Field, text, send_record, output_migrate}
use kstep.Io.Reports.{llu}
use kstep.Cli.{Cli}

-- The loop over `tasks` from index `i` on.
unfoldable pub number_from : ℕ → List ℕ → ℕ → ℕ
number_from i [] p = 0
number_from i (q ∷ tasks) p =
    let rest = number_from (suc i) tasks p in if q == p then suc i else rest

unfoldable pub task_number : List ℕ → ℕ → ℕ
unfolding number_from
task_number tasks p = number_from 0 tasks p

-- Nothing is sent for a process that is not of the session.
unfoldable pub report_migrate : List ℕ → Bytes → ℕ → ℕ → ℕ → Option (Outcome Bytes)
unfolding task_number
report_migrate tasks now p src_cpu dst_cpu =
    let n = task_number tasks p in
    if n == 0 then none else some (output_migrate now (llu n) (llu src_cpu) (llu dst_cpu))

-- The record that opens a session, with the addresses of the region and of the coverage map.
unfoldable pub ready_record : Bytes → ℕ → ℕ → Outcome Bytes
ready_record now shm_phys cov_phys = send_record now (
    text (lit "ready") (lit "true")
    ∷ text (lit "shm") (llu shm_phys)
    ∷ text (lit "cov") (llu cov_phys)
    ∷ [])
