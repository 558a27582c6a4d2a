-- ===== src/Cli/Execute.antt =====
-- The tables of commands, `execute` and the loop of `run` of kmod/cli.c.
pub mod Session
use kstep.Prelude.{
  ℕ, Bool, true, false, List, [], ◌∷◌, ◌++◌, Option, none, some, ◌==◌, if◌then◌else◌, Outcome, ok,
  panic, ◌>>=◌,
}
use kstep.Text.{Bytes, lit, equal, strsep, strim, blank}
use kstep.Io.Json.{Field}
use kstep.Cli.{
  Kernel, Cli, TaskVerb, pause, block, wake, kill, chan_read, chan_write, freeze, thaw, yield,
  reply_error,
}
use kstep.Cli.Args.{take_arg, parse_task}
use kstep.Cli.Commands.{
  with_args, call_may, cmd_tick, cmd_affinity, cmd_policy_fair, cmd_policy_rt, cmd_cgroup_create,
  cmd_cgroup_weight, cmd_cgroup_cpus, cmd_cgroup_destroy, cmd_cgroup_attach, cmd_check,
  cmd_cpu_freq, cmd_cpu_topo,
}
use kstep.Cli.Create.{cmd_create}

-- The entries of `commands`.
pub data Command : Type 0 where
  create tick cpu_topo cpu_freq policy_fair policy_rt affinity : Command
  cgroup_create cgroup_weight cgroup_cpus cgroup_destroy cgroup_attach check : Command

-- A table, and its first entry with a name.
abbrev pub Names : Type 0 → Type 0
Names A = List (Bytes × A)

unfoldable pub lookup : {A : Type 0} → Names A → Bytes → Option A
lookup [] verb = none
lookup ((name, a) ∷ table) verb = if equal verb name then some a else lookup table verb

abbrev pub commands : Names Command
commands =
    (lit "create", create)
    ∷ (lit "tick", tick)
    ∷ (lit "cpu-topo", cpu_topo)
    ∷ (lit "cpu-freq", cpu_freq)
    ∷ (lit "policy-fair", policy_fair)
    ∷ (lit "policy-rt", policy_rt)
    ∷ (lit "affinity", affinity)
    ∷ (lit "cgroup-create", cgroup_create)
    ∷ (lit "cgroup-weight", cgroup_weight)
    ∷ (lit "cgroup-cpus", cgroup_cpus)
    ∷ (lit "cgroup-destroy", cgroup_destroy)
    ∷ (lit "cgroup-attach", cgroup_attach)
    ∷ (lit "check", check)
    ∷ []

abbrev pub task_verbs : Names TaskVerb
task_verbs =
    (lit "pause", pause)
    ∷ (lit "block", block)
    ∷ (lit "wake", wake)
    ∷ (lit "kill", kill)
    ∷ (lit "chan-read", chan_read)
    ∷ (lit "chan-write", chan_write)
    ∷ (lit "freeze", freeze)
    ∷ (lit "thaw", thaw)
    ∷ (lit "yield", yield)
    ∷ []

-- `line ? strim(line) : NULL`, and NULL where nothing is left.
pub argument : Option Bytes → Option Bytes
argument none = none
argument (some []) = none
argument (some (c ∷ arg)) = some (c ∷ arg)

-- A line that `run` passes over.
skipped : Bytes → Bool
skipped [] = true
skipped (c ∷ line) = c == b'#'

module _ {K : Type 0} (k : Kernel K) where
  unfoldable pub run_command : Command → Option Bytes → Cli K → Outcome (Cli K)
  run_command create arg w = cmd_create k arg w
  run_command tick arg w = cmd_tick k arg w
  run_command cpu_topo arg w = cmd_cpu_topo k arg w
  run_command cpu_freq arg w = cmd_cpu_freq k arg w
  run_command policy_fair arg w = cmd_policy_fair k arg w
  run_command policy_rt arg w = cmd_policy_rt k arg w
  run_command affinity arg w = cmd_affinity k arg w
  run_command cgroup_create arg w = cmd_cgroup_create k arg w
  run_command cgroup_weight arg w = cmd_cgroup_weight k arg w
  run_command cgroup_cpus arg w = cmd_cgroup_cpus k arg w
  run_command cgroup_destroy arg w = cmd_cgroup_destroy k arg w
  run_command cgroup_attach arg w = cmd_cgroup_attach k arg w
  run_command check arg w = cmd_check k arg w

  unfoldable pub run_verb : TaskVerb → Bytes → Option Bytes → Cli K → Outcome (Cli K)
  run_verb v verb arg w =
      with_args k (parse_task k w arg (lit "usage: " ++ (verb ++ lit " <n>")))
        (λ p. call_may k (k.act v p.0)) w

  -- Whether the session goes on.
  going_on : Bool → Outcome (Cli K) → Outcome (Bool × Cli K)
  going_on more (ok w) = ok (more, w)
  going_on more (panic x) = panic x

  other_verb : Bytes → Cli K → Outcome (Bool × Cli K)
  other_verb verb w =
      if equal verb (lit "exit")
      then ok (false, w)
      else ok (true, reply_error (lit "unknown command") w)

  verb_entry : Option TaskVerb → Bytes → Option Bytes → Cli K → Outcome (Bool × Cli K)
  unfolding going_on other_verb
  verb_entry none verb arg w = other_verb verb w
  verb_entry (some v) verb arg w = going_on true (run_verb v verb arg w)

  command_entry : Option Command → Bytes → Option Bytes → Cli K → Outcome (Bool × Cli K)
  unfolding verb_entry
  command_entry none verb arg w = verb_entry (lookup task_verbs verb) verb arg w
  command_entry (some c) verb arg w = going_on true (run_command c arg w)

  dispatch : Option Bytes × Option Bytes → Cli K → Outcome (Bool × Cli K)
  unfolding command_entry argument
  dispatch (none, rest) w = ok (true, w)
  dispatch (some verb, rest) w = command_entry (lookup commands verb) verb (argument rest) w

  -- The line is not NULL; its first token is the verb.
  unfoldable pub execute : Bytes → Cli K → Outcome (Bool × Cli K)
  unfolding dispatch
  execute line w = dispatch (take_arg (some line)) w

  -- What follows a command, up to its reply.
  settled : Cli K → Cli K
  settled w = record w { kernel = k.shm_update w.tasks (k.settle w.kernel) }

  -- A line of `run` that is neither empty nor a comment, from the open reply on.
  unfoldable pub run_line : Bytes → Cli K → Outcome (Bool × Cli K)
  unfolding settled
  run_line line w = do (more, w') ← execute line (record w { reply = [] }); ok (more, settled w')

  -- The reply is sent; then the session goes on, or ends.
  replied :
      Bool
      → Cli K
      → Outcome (List (List Field) × Bool × Cli K)
      → Outcome (List (List Field) × Bool × Cli K)
  replied false w rest = ok (w.reply ∷ [], true, w)
  replied true w rest = do (replies, ended, w') ← rest; ok (w.reply ∷ replies, ended, w')

  -- The loop on the lines that the channel gives: the replies, whether the session was ended, and
  -- the state that it comes to.
  unfoldable pub run : List Bytes → Cli K → Outcome (List (List Field) × Bool × Cli K)
  unfolding skipped replied
  run [] w = ok ([], false, w)
  run (line ∷ lines) w =
      if skipped (strim line)
      then run lines w
      else (run_line (strim line) w >>= λ r. replied r.0 r.1 (run lines r.1))
