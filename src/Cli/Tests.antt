-- ===== src/Cli/Tests.antt =====
-- Lines of a session on a kernel that counts its calls by two.
use kstep.Prelude.{
  ap, ok-inj, panic-not_ok, Bool-cases, inl, inr, Outcome, queue_full, ◌==◌, ℕ, ◌+◌, ◌-◌, ◌%◌, Bool,
  true, false, ◌&&◌, List, [], ◌∷◌, Option, none, some, ◌≡◌, refl, arith, leb, if◌then◌else◌, ok,
  panic, out_of_bounds,
}
use kstep.Prelude.Int.{ℤ, pos}
use kstep.Text.{Bytes, lit, equal, strsep, strim, cut, skip_spaces, drop_trailing}
use kstep.Io.Json.{Field, text, string}
use kstep.Cli.{Kernel, Cli, reply_error}
use kstep.Cli.Reports.{task_number, report_migrate}
use kstep.Cli.Reports.Numbers.{task_number-parse_task}
use kstep.Cli.Args.{right, take_arg, parse_task, number}
use kstep.Cli.Commands.{cmd_tick}
use kstep.Cli.Commands.Keeps.{Admits}
use kstep.Cli.Create.{cmd_create, create_tasks}
use kstep.Cli.Create.Bounds.{create-wraps}
use kstep.Cli.Execute.{lookup, run_command, run_verb, execute, run_line, run}
use kstep.Cli.Execute.Session.{Ran, run-Ran}

abbrev is_digit : ℕ → Bool
is_digit c = leb 48 c && leb c 57

abbrev digit : Bytes → Option ℤ
digit [] = none
digit (c ∷ []) = if is_digit c then some (pos (c - 48)) else none
digit (c ∷ d ∷ s) = none

-- The largest `int`, whatever the text.
abbrev huge : Bytes → Option ℤ
huge s = some (pos 2147483647)

abbrev counting : (Bytes → Option ℤ) → Kernel ℕ
counting parser = record {
  kstrtoint = parser;
  decimal = λ n. (48 + n % 10) ∷ [];
  exited = λ p κ. false;
  task_nice = λ p κ. pos 0;
  test_ncpus = λ κ. 4;
  tick_repeat = λ n κ. ok (κ + 2);
  task_create = λ κ. (κ, κ + 2);
  task_exit = λ p κ. κ + 2;
  task_wakeup = λ p κ. κ + 2;
  set_affinity = λ p l κ. (pos 0, κ + 2);
  set_fair = λ p c n κ. κ + 2;
  set_rt = λ p c n κ. κ + 2;
  act = λ v p κ. if κ == 8 then panic queue_full else ok (κ + 2);
  cgroup_exists = λ c κ. true;
  cgroup_create = λ c κ. (pos 0, κ + 2);
  cgroup_move_task = λ c p κ. (pos 0, κ + 2);
  cgroup_set_weight = λ c n κ. (pos 0, κ + 2);
  parse_cpus = λ l κ. true;
  cgroup_set_cpuset = λ c l κ. (pos 0, κ + 2);
  cgroup_busy = λ c κ. some false;
  cgroup_destroy = λ c κ. ok (κ + 2);
  check_enable = λ c κ. (pos 0, κ + 2);
  freq_set = λ c n κ. κ + 2;
  topo_set = λ s κ. ok (none, κ + 2);
  settle = λ κ. κ + 2;
  shm_update = λ l κ. κ + 2;
}

abbrev small : Kernel ℕ
small = counting digit

abbrev Even : ℕ → Type 0
Even κ = κ % 2 ≡ 0

Even-two : (κ : ℕ) → Even κ → Even (κ + 2)
Even-two κ h = omega arith

Even-topo :
    (κ : ℕ) {r : Option Bytes × ℕ}
    → ◌≡◌ {A = Outcome (Option Bytes × ℕ)} (ok (none, κ + 2)) (ok r)
    → Even κ
    → Even r.1
Even-topo κ {r} e h =
    let same : κ + 2 ≡ r.1 = ap (λ (x : Option Bytes × ℕ). x.1) (ok-inj e) in
    rw (← same) (Even-two κ h)

Even-ok : (κ : ℕ) {κ' : ℕ} → ◌≡◌ {A = Outcome ℕ} (ok (κ + 2)) (ok κ') → Even κ → Even κ'
Even-ok κ e h = rw (← ok-inj e) (Even-two κ h)

Even-act :
    (κ : ℕ) {κ' : ℕ} → (if κ == 8 then panic queue_full else ok (κ + 2)) ≡ ok κ' → Even κ → Even κ'
Even-act κ e h = elim (Bool-cases (κ == 8)) [
  | inl x ↦ absurd (panic-not_ok (rw x at e))
  | inr x ↦ Even-ok κ (rw x at e) h
]

small-Admits : Admits small Even
small-Admits = record {
  nice = λ p κ h. (refl, refl);
  ticks = λ n κ lo hi e h. Even-ok κ e h;
  creates = Even-two;
  exits = λ p κ h. Even-two κ h;
  wakes = λ p κ h. Even-two κ h;
  affinity = λ p l κ x h. Even-two κ h;
  fair = λ p c n κ x r h. Even-two κ h;
  rt = λ p c n κ x lo hi h. Even-two κ h;
  acts = λ v p κ x e h. Even-act κ e h;
  cgroup = λ c κ h. Even-two κ h;
  moves = λ c p κ h. Even-two κ h;
  weighs = λ c n κ lo hi h. Even-two κ h;
  cpuset = λ c l κ x h. Even-two κ h;
  destroys = λ c κ x e h. Even-ok κ e h;
  checks = λ c κ h. Even-two κ h;
  freq = λ c n κ a b d e h. Even-two κ h;
  topo = λ s κ e h. Even-topo κ e h;
  settles = Even-two;
  updates = λ l κ h. Even-two κ h;
}

abbrev one_task : Cli ℕ
one_task = record { tasks = 7 ∷ []; reply = []; kernel = 10 }

-- Two more tasks, ticks, a pause, an unknown task, a comment, and the end.
abbrev lines : List Bytes
lines =
    lit "create 2" ∷ lit " tick 5 " ∷ lit "# none" ∷ lit "pause 3" ∷ lit "pause 4" ∷ lit "exit" ∷ []

abbrev replies : List (List Field)
replies =
    (text (lit "task") (lit "3") ∷ [])
    ∷ []
    ∷ []
    ∷ (string (lit "error") (lit "no such task") ∷ [])
    ∷ []
    ∷ []

abbrev finished : Cli ℕ
finished = record { tasks = 7 ∷ 10 ∷ 14 ∷ []; reply = []; kernel = 42 }

run-lines : run small lines one_task ≡ ok (replies, true, finished)
unfolding run run_line execute lookup run_command run_verb cmd_create create_tasks cmd_tick
    parse_task take_arg number kstep.Cli.Args.optional equal strsep strim cut skip_spaces
    drop_trailing
run-lines = refl

run-Ran_example : Ran Even replies one_task finished
run-Ran_example = run-Ran small Even small-Admits lines one_task (omega arith) refl run-lines

abbrev paused : Cli ℕ
paused = record one_task { kernel = 12 }

execute-pause : execute small (lit "pause 1") one_task ≡ ok (true, paused)
unfolding execute lookup run_verb parse_task take_arg equal strsep strim cut skip_spaces
    drop_trailing
execute-pause = refl

take-number : take_arg (some (lit "2147483647")) ≡ (some (lit "2147483647"), none)
unfolding take_arg strsep cut
take-number = refl

create-wraps_example :
    cmd_create (counting huge) (some (lit "2147483647")) one_task ≡ panic out_of_bounds
create-wraps_example =
    create-wraps (counting huge) b'2' (lit "147483647") (lit "2147483647") 2147483647 one_task refl
      take-number refl (omega arith) (omega arith) (omega arith)

-- The third task is reported as 3, and "3" finds it.
third : take_arg (some (lit "3 20")) ≡ (some (lit "3"), some (lit "20"))
unfolding take_arg strsep strim cut skip_spaces drop_trailing
third = refl

third-number : task_number finished.tasks 14 ≡ 3
unfolding task_number
third-number = refl

task_number-parse_task_example :
    parse_task small finished (some (lit "3 20")) (lit "usage") ≡ right (14, some (lit "20"))
task_number-parse_task_example =
    task_number-parse_task small finished 14 2 (some (lit "3 20")) (lit "usage") (lit "3")
      third-number third (rw third-number refl) refl

-- A process that is not of the session is not reported.
stranger : report_migrate finished.tasks (lit "9") 99 1 2 ≡ none
unfolding report_migrate
stranger = refl
