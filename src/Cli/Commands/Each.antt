-- ===== src/Cli/Commands/Each.antt =====
-- Command by command: what `Keeps` says of it.
use kstep.Prelude.{
  Bool, true, false, [], ◌∷◌, Option, none, some, Bool-cases, inl, inr, ◌≡◌, refl, arith, ok,
  >>=-eq-ok,
}
use kstep.Prelude.Int.{ℤ, pos, negsuc, pos_part}
use kstep.Text.{Bytes}
use kstep.Cli.{Kernel, Cli, is_zero}
use kstep.Cli.Args.{take_arg, number, optional, required, parse_task, parse_cgroup}
use kstep.Cli.Args.Checked.{
  InRange-pos, number-InRange, required-InRange, optional-InRange, parse_task-IsLive,
}
use kstep.Cli.Commands.{
  is_errno, affinity_reply, named_fair, named_rt, test_list, destroy_if, destroy_path, checked,
  val_part, topo_reply, cmd_tick, cmd_affinity, cmd_policy_fair, cmd_policy_rt, cmd_cgroup_create,
  cmd_cgroup_weight, cmd_cgroup_cpus, cmd_cgroup_destroy, cmd_cgroup_attach, cmd_check,
  cmd_cpu_freq, cmd_cpu_topo,
}
use kstep.Cli.Commands.Keeps.{
  Admits, Keeps, error-Keeps, kernel-Keeps, late-Keeps, ok-Keeps, args-Keeps, value-Keeps,
  call-Keeps, may-Keeps, errno-Keeps,
}

module _ {K : Type 0} (k : Kernel K) (P : K → Type 0) (a : Admits k P) (arg : Option Bytes)
    (w : Cli K) where
  pub tick-Keeps : {w' : Cli K} → cmd_tick k arg w ≡ ok w' → Keeps k P w w'
  unfolding cmd_tick
  tick-Keeps e =
      value-Keeps k P _ (optional k (pos 1) (pos 10000) (pos 1) arg) _ w
        (λ n en ec.
          let (lo, hi) =
            InRange-pos 0 10000 n
              (optional-InRange k (pos 1) (pos 10000) (pos 1) arg (refl, refl) en) in
          may-Keeps k P (k.tick_repeat (pos_part n)) w (λ κ. a.ticks (pos_part n) w.kernel lo hi)
            ec)
        e

  affinity_reply-Keeps :
      (usage : Bytes) (err : ℤ) (κ : K)
      → (P w.kernel → P κ)
      → Keeps k P w (affinity_reply k usage err (record w { kernel = κ }))
  unfolding affinity_reply
  affinity_reply-Keeps usage err κ h = elim (Bool-cases (is_errno 34 err)) [
    | inl x ↦ rw x (late-Keeps k P usage w κ h)
    | inr x ↦ elim (Bool-cases (is_errno 22 err)) [
      | inl y ↦ rw (x, y) (late-Keeps k P _ w κ h)
      | inr y ↦ rw (x, y) (errno-Keeps k P err w κ h)
    ]
  ]

  pub affinity-Keeps : {w' : Cli K} → cmd_affinity k arg w ≡ ok w' → Keeps k P w w'
  unfolding cmd_affinity
  affinity-Keeps e =
      args-Keeps k P (parse_task k w arg _) _ w
        (λ p ep ec.
          ok-Keeps k P
            (affinity_reply-Keeps _ (k.set_affinity p.0 p.1 w.kernel).0
              (k.set_affinity p.0 p.1 w.kernel).1
              (a.affinity p.0 p.1 w.kernel (parse_task-IsLive k w arg _ p ep).alive))
            ec)
        e

  pub policy_fair-Keeps : {w' : Cli K} → cmd_policy_fair k arg w ≡ ok w' → Keeps k P w w'
  unfolding cmd_policy_fair
  policy_fair-Keeps e =
      args-Keeps k P (parse_task k w arg _) _ w
        (λ p ep ec.
          value-Keeps k P _
            (optional k (negsuc 19) (pos 19) (k.task_nice p.0 w.kernel) (take_arg p.1).1) _ w
            (λ nice en ed.
              value-Keeps k P _ (named_fair k (take_arg p.1).0) _ w
                (λ policy ey ef.
                  call-Keeps k P (k.set_fair p.0 policy nice) w
                    (λ h.
                      a.fair p.0 policy nice w.kernel (parse_task-IsLive k w arg _ p ep).alive
                        (optional-InRange k (negsuc 19) (pos 19) (k.task_nice p.0 w.kernel)
                          (take_arg p.1).1 (a.nice p.0 w.kernel h) en)
                        h)
                    ef)
                ed)
            ec)
        e

  pub policy_rt-Keeps : {w' : Cli K} → cmd_policy_rt k arg w ≡ ok w' → Keeps k P w w'
  unfolding cmd_policy_rt
  policy_rt-Keeps e =
      args-Keeps k P (parse_task k w arg _) _ w
        (λ p ep ec.
          value-Keeps k P _ (required k (pos 1) (pos 99) (take_arg p.1).1) _ w
            (λ prio en ed.
              let (lo, hi) =
                InRange-pos 0 99 prio (required-InRange k (pos 1) (pos 99) (take_arg p.1).1 en) in
              value-Keeps k P _ (named_rt k (take_arg p.1).0) _ w
                (λ policy ey ef.
                  call-Keeps k P (k.set_rt p.0 policy (pos_part prio)) w
                    (a.rt p.0 policy (pos_part prio) w.kernel
                      (parse_task-IsLive k w arg _ p ep).alive lo hi)
                    ef)
                ed)
            ec)
        e

  pub cgroup_create-Keeps : {w' : Cli K} → cmd_cgroup_create k arg w ≡ ok w' → Keeps k P w w'
  unfolding cmd_cgroup_create
  cgroup_create-Keeps e =
      args-Keeps k P (parse_cgroup k w arg _ true) _ w
        (λ name en ec.
          ok-Keeps k P
            (errno-Keeps k P (k.cgroup_create name.0 w.kernel).0 w
              (k.cgroup_create name.0 w.kernel).1 (a.cgroup name.0 w.kernel))
            ec)
        e

  pub cgroup_weight-Keeps : {w' : Cli K} → cmd_cgroup_weight k arg w ≡ ok w' → Keeps k P w w'
  unfolding cmd_cgroup_weight
  cgroup_weight-Keeps e =
      args-Keeps k P (parse_cgroup k w arg _ false) _ w
        (λ name en ec.
          value-Keeps k P _ (required k (pos 1) (pos 10000) name.1) _ w
            (λ n em ed.
              let (lo, hi) =
                InRange-pos 0 10000 n (required-InRange k (pos 1) (pos 10000) name.1 em) in
              let c = k.cgroup_set_weight name.0 (pos_part n) w.kernel in
              ok-Keeps k P (errno-Keeps k P c.0 w c.1 (a.weighs name.0 (pos_part n) w.kernel lo hi))
                ed)
            ec)
        e

  test_list-parses :
      (o : Option Bytes) {l : Bytes}
      → test_list k w.kernel o ≡ some l
      → k.parse_cpus l w.kernel ≡ true
  unfolding test_list
  test_list-parses none h = cc
  test_list-parses (some x) h = ground arith

  pub cgroup_cpus-Keeps : {w' : Cli K} → cmd_cgroup_cpus k arg w ≡ ok w' → Keeps k P w w'
  unfolding cmd_cgroup_cpus
  cgroup_cpus-Keeps e =
      args-Keeps k P (parse_cgroup k w arg _ false) _ w
        (λ name en ec.
          value-Keeps k P _ (test_list k w.kernel name.1) _ w
            (λ l el ed.
              let c = k.cgroup_set_cpuset name.0 l w.kernel in
              ok-Keeps k P
                (errno-Keeps k P c.0 w c.1
                  (a.cpuset name.0 l w.kernel (test_list-parses name.1 el)))
                ed)
            ec)
        e

  destroy_if-Keeps :
      (name : Bytes) (o : Option Bool) {w' : Cli K}
      → k.cgroup_busy name w.kernel ≡ o
      → destroy_if k name o w ≡ ok w'
      → Keeps k P w w'
  unfolding destroy_if
  destroy_if-Keeps name none b e = ok-Keeps k P (error-Keeps k P _ w) e
  destroy_if-Keeps name (some true) b e = ok-Keeps k P (error-Keeps k P _ w) e
  destroy_if-Keeps name (some false) b e =
      may-Keeps k P (k.cgroup_destroy name) w (λ κ. a.destroys name w.kernel b) e

  destroy_path-Keeps : (name : Bytes) {w' : Cli K} → destroy_path k name w ≡ ok w' → Keeps k P w w'
  unfolding destroy_path
  destroy_path-Keeps [] e = ok-Keeps k P (error-Keeps k P _ w) e
  destroy_path-Keeps (c ∷ name) e =
      destroy_if-Keeps (c ∷ name) (k.cgroup_busy (c ∷ name) w.kernel) refl e

  pub cgroup_destroy-Keeps : {w' : Cli K} → cmd_cgroup_destroy k arg w ≡ ok w' → Keeps k P w w'
  unfolding cmd_cgroup_destroy
  cgroup_destroy-Keeps e =
      args-Keeps k P (parse_cgroup k w arg _ false) _ w (λ name en ec. destroy_path-Keeps name.0 ec)
        e

  pub cgroup_attach-Keeps : {w' : Cli K} → cmd_cgroup_attach k arg w ≡ ok w' → Keeps k P w w'
  unfolding cmd_cgroup_attach
  cgroup_attach-Keeps e =
      args-Keeps k P (parse_cgroup k w arg _ false) _ w
        (λ name en ec.
          args-Keeps k P (parse_task k w name.1 _) _ w
            (λ p ep ed.
              let c = k.cgroup_move_task name.0 p.0 w.kernel in
              ok-Keeps k P (errno-Keeps k P c.0 w c.1 (a.moves name.0 p.0 w.kernel)) ed)
            ec)
        e

  checked-Keeps : (name : Bytes) → Keeps k P w (checked k name w)
  unfolding checked
  checked-Keeps name =
      let c = k.check_enable name w.kernel in
      elim (Bool-cases (is_zero c.0)) [
        | inl z ↦ rw z (kernel-Keeps k P w c.1 (a.checks name w.kernel))
        | inr z ↦ rw z (late-Keeps k P _ w c.1 (a.checks name w.kernel))
      ]

  pub check-Keeps : {w' : Cli K} → cmd_check k arg w ≡ ok w' → Keeps k P w w'
  unfolding cmd_check
  check-Keeps e = value-Keeps k P _ arg _ w (λ name en ec. ok-Keeps k P (checked-Keeps name) ec) e

  pub cpu_freq-Keeps : {w' : Cli K} → cmd_cpu_freq k arg w ≡ ok w' → Keeps k P w w'
  unfolding cmd_cpu_freq
  cpu_freq-Keeps e =
      value-Keeps k P _ (val_part k arg) _ w
        (λ parts ep ec.
          value-Keeps k P _ (number k (pos 1) (pos (k.test_ncpus w.kernel)) parts.0) _ w
            (λ cpu en ed.
              let (lo, hi) =
                InRange-pos 0 (k.test_ncpus w.kernel) cpu (number-InRange k (pos 1) _ parts.0 en) in
              value-Keeps k P _ (number k (pos 1) (pos 1024) parts.1) _ w
                (λ scale es ef.
                  let (lo', hi') =
                    InRange-pos 0 1024 scale (number-InRange k (pos 1) _ parts.1 es) in
                  call-Keeps k P (k.freq_set (pos_part cpu) (pos_part scale)) w
                    (a.freq (pos_part cpu) (pos_part scale) w.kernel lo hi lo' hi') ef)
                ed)
            ec)
        e

  topo_reply-Keeps :
      (o : Option Bytes) (κ : K)
      → (P w.kernel → P κ)
      → Keeps k P w (topo_reply k o (record w { kernel = κ }))
  unfolding topo_reply
  topo_reply-Keeps none κ h = kernel-Keeps k P w κ h
  topo_reply-Keeps (some err) κ h = late-Keeps k P err w κ h

  pub cpu_topo-Keeps : {w' : Cli K} → cmd_cpu_topo k arg w ≡ ok w' → Keeps k P w w'
  unfolding cmd_cpu_topo
  cpu_topo-Keeps e =
      value-Keeps k P _ arg _ w
        (λ spec en ec.
          let (r, er, last) = >>=-eq-ok (k.topo_set spec w.kernel) _ ec in
          ok-Keeps k P (topo_reply-Keeps r.0 r.1 (a.topo spec w.kernel er)) last)
        e
