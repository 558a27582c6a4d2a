-- ===== src/Cli/Commands.antt =====
-- The commands of kmod/cli.c, `cmd_create` .. `cmd_cpu_topo`.
pub mod Keeps
pub mod Each
use kstep.Prelude.{
  ℕ, zero, suc, ◌+◌, ◌-◌, ◌^◌, Bool, true, false, not, ◌&&◌, ◌||◌, List, [], ◌∷◌, ◌++◌, Option,
  none, some, length, ltb, leb, ◌==◌, if◌then◌else◌, Outcome, ok, panic, out_of_bounds, ◌>>=◌,
}
use kstep.Prelude.Int.{ℤ, pos, negsuc, pos_part, ltb_ℤ}
use kstep.Text.{Bytes, lit, equal, split_at}
use kstep.Io.Json.{text}
use kstep.Cli.{
  Kernel, Cli, shm_tasks, FairPolicy, normal, batch, idle, RtPolicy, fifo, rr, reply_error,
  reply_errno, is_zero,
}
use kstep.Cli.Args.{
  Parsed, wrong, right, take_arg, number, optional, required, parse_task, parse_cgroup,
}

fair_policy : Bytes → Option FairPolicy
fair_policy name =
    if equal name (lit "normal")
    then some normal
    else if equal name (lit "batch")
    then some batch
    else if equal name (lit "idle")
    then some idle
    else none

rt_policy : Bytes → Option RtPolicy
rt_policy name =
    if equal name (lit "fifo") then some fifo else if equal name (lit "rr") then some rr else none

abbrev pub is_errno : ℕ → ℤ → Bool
is_errno n (pos m) = false
is_errno n (negsuc m) = n == m + 1

module _ {K : Type 0} (k : Kernel K) where
  -- A command replies with the error of its arguments, or goes on with them.
  abbrev pub with_args :
      {A : Type 0} → Parsed A → (A → Cli K → Outcome (Cli K)) → Cli K → Outcome (Cli K)
  with_args (wrong msg) f w = ok (reply_error msg w)
  with_args (right a) f w = f a w

  -- The same for a number or a name that is `none` where the usage is replied.
  abbrev pub with_value :
      {A : Type 0} → Bytes → Option A → (A → Cli K → Outcome (Cli K)) → Cli K → Outcome (Cli K)
  with_value usage none f w = ok (reply_error usage w)
  with_value usage (some a) f w = f a w

  -- A call that changes the kernel, and one that returns an errno for the reply.
  abbrev pub call : (K → K) → Cli K → Outcome (Cli K)
  call f w = ok (record w { kernel = f w.kernel })

  -- A call that may panic.
  abbrev pub call_may : (K → Outcome K) → Cli K → Outcome (Cli K)
  call_may f w = f w.kernel >>= λ κ. ok (record w { kernel = κ })

  abbrev pub call_errno : (K → ℤ × K) → Cli K → Outcome (Cli K)
  call_errno f w = ok (reply_errno k (f w.kernel).0 (record w { kernel = (f w.kernel).1 }))

  unfoldable pub cmd_tick : Option Bytes → Cli K → Outcome (Cli K)
  cmd_tick arg =
      with_value (lit "usage: tick [1..10000]") (optional k (pos 1) (pos 10000) (pos 1) arg)
        λ n. call_may (k.tick_repeat (pos_part n))

  -- -ERANGE and -EINVAL of `kstep_task_set_affinity` have messages of their own.
  affinity_reply : Bytes → ℤ → Cli K → Cli K
  affinity_reply usage err w =
      if is_errno 34 err
      then reply_error usage w
      else if is_errno 22 err
      then reply_error (lit "cpulist has no CPU in the task's cgroup cpuset") w
      else reply_errno k err w

  unfoldable pub cmd_affinity : Option Bytes → Cli K → Outcome (Cli K)
  unfolding affinity_reply
  cmd_affinity arg w =
      let usage = lit "usage: affinity <n> <cpulist within 1..CPUS>" in
      with_args (parse_task k w arg usage)
        (λ p w. ok (
          affinity_reply usage (k.set_affinity p.0 p.1 w.kernel).0
            (record w { kernel = (k.set_affinity p.0 p.1 w.kernel).1 })))
        w

  pub named_fair : Option Bytes → Option FairPolicy
  named_fair none = none
  named_fair (some name) = fair_policy name

  pub named_rt : Option Bytes → Option RtPolicy
  named_rt none = none
  named_rt (some name) = rt_policy name

  unfoldable pub cmd_policy_fair : Option Bytes → Cli K → Outcome (Cli K)
  unfolding named_fair fair_policy
  cmd_policy_fair arg w =
      let usage = lit "usage: policy-fair <n> <normal|batch|idle> [-20..19]" in
      with_args (parse_task k w arg usage)
        (λ p.
          let (name, rest) = take_arg p.1 in
          with_value usage (optional k (negsuc 19) (pos 19) (k.task_nice p.0 w.kernel) rest)
            λ nice. with_value usage (named_fair name) λ policy. call (k.set_fair p.0 policy nice))
        w

  unfoldable pub cmd_policy_rt : Option Bytes → Cli K → Outcome (Cli K)
  unfolding named_rt rt_policy
  cmd_policy_rt arg w =
      let usage = lit "usage: policy-rt <n> <fifo|rr> <1..99>" in
      with_args (parse_task k w arg usage)
        (λ p.
          let (name, rest) = take_arg p.1 in
          with_value usage (required k (pos 1) (pos 99) rest) λ prio.
            with_value usage (named_rt name) λ policy. call (k.set_rt p.0 policy (pos_part prio)))
        w

  unfoldable pub cmd_cgroup_create : Option Bytes → Cli K → Outcome (Cli K)
  cmd_cgroup_create arg w =
      with_args (parse_cgroup k w arg (lit "usage: cgroup-create /path") true)
        (λ name. call_errno (k.cgroup_create name.0)) w

  unfoldable pub cmd_cgroup_weight : Option Bytes → Cli K → Outcome (Cli K)
  cmd_cgroup_weight arg w =
      let usage = lit "usage: cgroup-weight /path <1..10000>" in
      with_args (parse_cgroup k w arg usage false)
        (λ name.
          with_value usage (required k (pos 1) (pos 10000) name.1)
            λ weight. call_errno (k.cgroup_set_weight name.0 (pos_part weight)))
        w

  pub test_list : K → Option Bytes → Option Bytes
  test_list kernel none = none
  test_list kernel (some arg) = if k.parse_cpus arg kernel then some arg else none

  unfoldable pub cmd_cgroup_cpus : Option Bytes → Cli K → Outcome (Cli K)
  unfolding test_list
  cmd_cgroup_cpus arg w =
      let usage = lit "usage: cgroup-cpus /path <cpulist within 1..CPUS>" in
      with_args (parse_cgroup k w arg usage false)
        (λ name.
          with_value usage (test_list w.kernel name.1)
            λ cpus. call_errno (k.cgroup_set_cpuset name.0 cpus))
        w

  unfoldable pub destroy_if : Bytes → Option Bool → Cli K → Outcome (Cli K)
  destroy_if name none w = ok (reply_error (lit "no such cgroup") w)
  destroy_if name (some true) w = ok (reply_error (lit "cgroup has tasks or children") w)
  destroy_if name (some false) w = call_may (k.cgroup_destroy name) w

  unfoldable pub destroy_path : Bytes → Cli K → Outcome (Cli K)
  unfolding destroy_if
  destroy_path [] w = ok (reply_error (lit "cannot destroy the root cgroup") w)
  destroy_path (c ∷ name) w = destroy_if (c ∷ name) (k.cgroup_busy (c ∷ name) w.kernel) w

  unfoldable pub cmd_cgroup_destroy : Option Bytes → Cli K → Outcome (Cli K)
  unfolding destroy_path
  cmd_cgroup_destroy arg w =
      with_args (parse_cgroup k w arg (lit "usage: cgroup-destroy /path") false)
        (λ name. destroy_path name.0) w

  unfoldable pub cmd_cgroup_attach : Option Bytes → Cli K → Outcome (Cli K)
  cmd_cgroup_attach arg w =
      let usage = lit "usage: cgroup-attach /path <n>" in
      with_args (parse_cgroup k w arg usage false)
        (λ name.
          with_args (parse_task k w name.1 usage) λ p. call_errno (k.cgroup_move_task name.0 p.0))
        w

  checked : Bytes → Cli K → Cli K
  checked name w =
      let w' : Cli K = record w { kernel = (k.check_enable name w.kernel).1 } in
      if is_zero (k.check_enable name w.kernel).0 then w' else reply_error (lit "no such check") w'

  unfoldable pub cmd_check : Option Bytes → Cli K → Outcome (Cli K)
  unfolding checked
  cmd_check arg = with_value (lit "usage: check <name>") arg λ name w. ok (checked name w)

  pub val_part : Option Bytes → Option (Bytes × Bytes)
  val_part none = none
  val_part (some arg) = split_at b' ' arg

  -- `cmd_cpu_scale`, with `kstep_freq_set` for `set`.
  unfoldable pub cmd_cpu_freq : Option Bytes → Cli K → Outcome (Cli K)
  unfolding val_part
  cmd_cpu_freq arg w =
      let usage = lit "usage: cpu-freq <cpu> <1..1024>" in
      with_value usage (val_part arg)
        (λ parts. with_value usage (number k (pos 1) (pos (k.test_ncpus w.kernel)) parts.0) λ cpu.
          with_value usage (number k (pos 1) (pos 1024) parts.1)
            λ scale. call (k.freq_set (pos_part cpu) (pos_part scale)))
        w

  topo_reply : Option Bytes → Cli K → Cli K
  topo_reply none w = w
  topo_reply (some err) w = reply_error err w

  unfoldable pub cmd_cpu_topo : Option Bytes → Cli K → Outcome (Cli K)
  unfolding topo_reply
  cmd_cpu_topo arg =
      with_value (lit "usage: cpu-topo KEY=group|group[;...] (levels, CAP and CPUS=K, see cpu.c)")
        arg
        λ spec w. k.topo_set spec w.kernel >>= λ r. ok (topo_reply r.0 (record w { kernel = r.1 }))
