-- ===== src/Io/Reports.antt =====
-- The reports of every test CPU in kmod/io.c: `kstep_output_curr_task`, `kstep_output_nr_running`.
pub mod Fits
use kstep.Prelude.{ℕ, zero, suc, ◌+◌, List, [], ◌∷◌, ◌++◌, Outcome, ok, panic, ◌>>=◌}
use kstep.Text.{Bytes, lit, strscpy, printed}
use kstep.Io.Json.{Field, text, string, send_record}

-- "%llu"
unfoldable pub llu : ℕ → Bytes
unfolding printed
llu n = printed 20 n []

-- The records of `n` CPUs from `cpu` on, by the pid of what runs there.
unfoldable pub each_curr : Bytes → (ℕ → ℕ) → ℕ → ℕ → Outcome (List Bytes)
each_curr now pid zero cpu = ok []
each_curr now pid (suc n) cpu =
    send_record now (
      string (lit "type") (lit "curr_task")
      ∷ text (lit "cpu") (llu cpu)
      ∷ text (lit "pid") (llu (pid cpu))
      ∷ [])
    >>= λ sent. each_curr now pid n (suc cpu) >>= λ others. ok (sent ∷ others)

unfoldable pub output_curr_task : Bytes → ℕ → (ℕ → ℕ) → Outcome (List Bytes)
unfolding each_curr
output_curr_task now test_ncpus pid = each_curr now pid test_ncpus 1

-- `snprintf` into `char key[8]`.
unfoldable pub cpu_key : ℕ → Bytes
unfolding printed strscpy
cpu_key cpu = strscpy 8 (lit "cpu" ++ printed 10 cpu [])

unfoldable pub running_fields : (ℕ → ℕ) → ℕ → ℕ → List Field
running_fields nr_running zero cpu = []
running_fields nr_running (suc n) cpu =
    text (cpu_key cpu) (llu (nr_running cpu)) ∷ running_fields nr_running n (suc cpu)

-- The fields of the one record.
unfoldable pub running_report : ℕ → (ℕ → ℕ) → List Field
unfolding running_fields
running_report test_ncpus nr_running =
    string (lit "type") (lit "nr_running") ∷ running_fields nr_running test_ncpus 1

unfoldable pub output_nr_running : Bytes → ℕ → (ℕ → ℕ) → Outcome Bytes
unfolding running_report
output_nr_running now test_ncpus nr_running = send_record now (running_report test_ncpus nr_running)
