-- ===== src/Cli/Execute/Session.antt =====
-- What every line of a session leaves alone.
use kstep.Prelude.{
  ℕ, ◌≤◌, Bool, true, false, List, [], ◌∷◌, ◌++◌, Option, none, some, Bool-cases, inl, inr, ◌≡◌,
  refl, sym, ap, ◌∙◌, arith, length, Outcome, ok, panic, >>=-eq-ok, ◌⊎◌,
}
use mathlib.Core.List.{append-nil, append_assoc}
use kstep.Text.{Bytes, lit, equal, strim}
use kstep.Io.Json.{Field}
use kstep.Cli.{Kernel, Cli, TaskVerb, shm_tasks}
use kstep.Cli.Args.{take_arg, parse_task}
use kstep.Cli.Args.Checked.{parse_task-IsLive}
use kstep.Cli.Commands.Keeps.{
  Admits, Keeps, error-Keeps, kernel-Keeps, ok-Keeps, args-Keeps, may-Keeps,
}
use kstep.Cli.Commands.Each.{
  tick-Keeps, affinity-Keeps, policy_fair-Keeps, policy_rt-Keeps, cgroup_create-Keeps,
  cgroup_weight-Keeps, cgroup_cpus-Keeps, cgroup_destroy-Keeps, cgroup_attach-Keeps, check-Keeps,
  cpu_freq-Keeps, cpu_topo-Keeps,
}
use kstep.Cli.Create.Bounds.{create-Keeps}
use kstep.Cli.Execute.{
  Command, create, tick, cpu_topo, cpu_freq, policy_fair, policy_rt, affinity, cgroup_create,
  cgroup_weight, cgroup_cpus, cgroup_destroy, cgroup_attach, check, lookup, commands, task_verbs,
  argument, run_command, run_verb, going_on, other_verb, verb_entry, command_entry, dispatch,
  execute, settled, run_line, skipped, replied, run,
}

-- Every reply has at most one field.
abbrev pub AllShort : List (List Field) → Type 0
AllShort [] = Unit
AllShort (r ∷ rs) = (length r ≤ 1) × AllShort rs

-- A session from `w` that comes to `w'` with these replies.
pub record Ran {K : Type 0} (P : K → Type 0) (replies : List (List Field)) (w w' : Cli K)
    : Type 0 where
  pub new : List ℕ
  pub kept : w'.tasks ≡ w.tasks ++ new
  pub fits : length w'.tasks ≤ shm_tasks
  pub short : AllShort replies
  pub outside : P w'.kernel

module _ {K : Type 0} (k : Kernel K) (P : K → Type 0) (a : Admits k P) where
  command-Keeps :
      (c : Command) (arg : Option Bytes) (w : Cli K) {w' : Cli K}
      → run_command k c arg w ≡ ok w'
      → Keeps k P w w'
  unfolding run_command
  command-Keeps create arg w e = create-Keeps k P a arg w e
  command-Keeps tick arg w e = tick-Keeps k P a arg w e
  command-Keeps cpu_topo arg w e = cpu_topo-Keeps k P a arg w e
  command-Keeps cpu_freq arg w e = cpu_freq-Keeps k P a arg w e
  command-Keeps policy_fair arg w e = policy_fair-Keeps k P a arg w e
  command-Keeps policy_rt arg w e = policy_rt-Keeps k P a arg w e
  command-Keeps affinity arg w e = affinity-Keeps k P a arg w e
  command-Keeps cgroup_create arg w e = cgroup_create-Keeps k P a arg w e
  command-Keeps cgroup_weight arg w e = cgroup_weight-Keeps k P a arg w e
  command-Keeps cgroup_cpus arg w e = cgroup_cpus-Keeps k P a arg w e
  command-Keeps cgroup_destroy arg w e = cgroup_destroy-Keeps k P a arg w e
  command-Keeps cgroup_attach arg w e = cgroup_attach-Keeps k P a arg w e
  command-Keeps check arg w e = check-Keeps k P a arg w e

  verb-Keeps :
      (v : TaskVerb) (verb : Bytes) (arg : Option Bytes) (w : Cli K) {w' : Cli K}
      → run_verb k v verb arg w ≡ ok w'
      → Keeps k P w w'
  unfolding run_verb
  verb-Keeps v verb arg w e =
      args-Keeps k P (parse_task k w arg _) _ w
        (λ p ep ec.
          may-Keeps k P (k.act v p.0) w
            (λ κ. a.acts v p.0 w.kernel (parse_task-IsLive k w arg _ p ep).alive) ec)
        e

  going-ok :
      {more : Bool} (o : Outcome (Cli K)) {w' : Cli K}
      → going_on k true o ≡ ok (more, w')
      → o ≡ ok w'
  unfolding going_on
  going-ok (ok w) e = ground arith
  going-ok (panic x) e = cc

  other-Keeps :
      (verb : Bytes) (w : Cli K) {more : Bool} {w' : Cli K}
      → other_verb k verb w ≡ ok (more, w')
      → Keeps k P w w'
  unfolding other_verb
  other-Keeps verb w {more} {w'} e = elim (Bool-cases (equal verb (lit "exit"))) [
    | inl x ↦ ok-Keeps k P (kernel-Keeps k P w w.kernel (λ h. h)) (second (rw x at e))
    | inr x ↦ ok-Keeps k P (error-Keeps k P _ w) (second (rw x at e))
  ]
    where
      second :
          {b : Bool} {u : Cli K}
          → ◌≡◌ {A = Outcome (Bool × Cli K)} (ok (b, u)) (ok (more, w'))
          → ok u ≡ ok w'
      second h = ground arith

  entry-Keeps :
      (o : Option TaskVerb) (verb : Bytes) (arg : Option Bytes) (w : Cli K) {more : Bool}
      {w' : Cli K}
      → verb_entry k o verb arg w ≡ ok (more, w')
      → Keeps k P w w'
  unfolding verb_entry
  entry-Keeps none verb arg w e = other-Keeps verb w e
  entry-Keeps (some v) verb arg w e = verb-Keeps v verb arg w (going-ok (run_verb k v verb arg w) e)

  named-Keeps :
      (o : Option Command) (verb : Bytes) (arg : Option Bytes) (w : Cli K) {more : Bool}
      {w' : Cli K}
      → command_entry k o verb arg w ≡ ok (more, w')
      → Keeps k P w w'
  unfolding command_entry
  named-Keeps none verb arg w e = entry-Keeps (lookup task_verbs verb) verb arg w e
  named-Keeps (some c) verb arg w e = command-Keeps c arg w (going-ok (run_command k c arg w) e)

  dispatch-Keeps :
      (args : Option Bytes × Option Bytes) (w : Cli K) {more : Bool} {w' : Cli K}
      → dispatch k args w ≡ ok (more, w')
      → Keeps k P w w'
  unfolding dispatch
  dispatch-Keeps (none, rest) w {more} {w'} e =
      let same : w ≡ w' = ground arith in rw (← same) (kernel-Keeps k P w w.kernel (λ h. h))
  dispatch-Keeps (some verb, rest) w e = named-Keeps (lookup commands verb) verb (argument rest) w e

  -- What `Keeps` says, of a line that comes to an end.
  pub execute-Keeps :
      (line : Bytes) (w : Cli K) {more : Bool} {w' : Cli K}
      → execute k line w ≡ ok (more, w')
      → Keeps k P w w'
  unfolding execute
  execute-Keeps line w e = dispatch-Keeps (take_arg (some line)) w e

  one_field :
      (r s : List Field) → r ≡ [] → (s ≡ r) ⊎ ((f : Field) × (s ≡ r ++ (f ∷ []))) → length s ≤ 1
  one_field r s e (inl same) = rw (same ∙ e) (omega arith)
  one_field r s e (inr (f, same)) = rw (same, e) (omega arith)

  line-Ran :
      (line : Bytes) (w : Cli K) {more : Bool} {w' : Cli K}
      → length w.tasks ≤ shm_tasks
      → P w.kernel
      → run_line k line w ≡ ok (more, w')
      → Ran P (w'.reply ∷ []) w w'
  unfolding run_line settled
  line-Ran line w {more} {w'} l h e =
      let ((m, b), ea, eb) = >>=-eq-ok (execute k line (record w { reply = [] })) _ e in
      let x = execute-Keeps line (record w { reply = [] }) ea in
      let b' : Cli K = record b { kernel = k.shm_update b.tasks (k.settle b.kernel) } in
      let same : b' ≡ w' = ground arith in
      rw (← same) (record {
        new = x.orderly.new;
        kept = x.orderly.kept;
        fits = x.orderly.fits l;
        short = (one_field [] b.reply refl x.orderly.replied, tt);
        outside = a.updates b.tasks _ (a.settles b.kernel (x.outside h));
      })

  then_Ran :
      (reply : List Field) (replies : List (List Field)) (w b w' : Cli K)
      → Ran P (reply ∷ []) w b
      → Ran P replies b w'
      → Ran P (reply ∷ replies) w w'
  then_Ran reply replies w b w' x y = record {
    new = x.new ++ y.new;
    kept = y.kept ∙ ap (λ t. t ++ y.new) x.kept ∙ append_assoc w.tasks x.new y.new;
    fits = y.fits;
    short = (x.short.0, y.short);
    outside = y.outside;
  }

  replied-Ran :
      (more : Bool) (w b : Cli K) (rest : Outcome (List (List Field) × Bool × Cli K))
      {replies : List (List Field)} {ended : Bool} {w' : Cli K}
      → Ran P (b.reply ∷ []) w b
      → ((rs : List (List Field)) (e : Bool) (u : Cli K) → rest ≡ ok (rs, e, u) → Ran P rs b u)
      → replied k more b rest ≡ ok (replies, ended, w')
      → Ran P replies w w'
  unfolding replied
  replied-Ran false w b rest {replies} {ended} {w'} x y e =
      let same : b ≡ w' = ground arith in
      let only : b.reply ∷ [] ≡ replies = ground arith in rw (← only, ← same) x
  replied-Ran true w b rest {replies} {ended} {w'} x y e =
      let ((rs, en, u), ea, eb) = >>=-eq-ok rest _ e in
      let same : u ≡ w' = ground arith in
      let all : b.reply ∷ rs ≡ replies = ground arith in
      rw (← all, ← same) (then_Ran b.reply rs w b u x (y rs en u ea))

  -- Over a whole session: the tasks keep their numbers and at most 64 are ever numbered, each reply
  -- has at most one field, and a property of what is outside the driver that outlives the calls in
  -- range outlives the session.
  pub run-Ran :
      (lines : List Bytes) (w : Cli K) {replies : List (List Field)} {ended : Bool} {w' : Cli K}
      → length w.tasks ≤ shm_tasks
      → P w.kernel
      → run k lines w ≡ ok (replies, ended, w')
      → Ran P replies w w'
  unfolding run
  run-Ran [] w {replies} {ended} {w'} l h e =
      let same : w ≡ w' = ground arith in
      let none_sent : [] ≡ replies = ground arith in
      rw (← none_sent, ← same)
        (record { new = []; kept = sym (append-nil w.tasks); fits = l; short = tt; outside = h })
  run-Ran (line ∷ lines) w l h e = elim (Bool-cases (skipped (strim line))) [
    | inl x ↦ run-Ran lines w l h (rw x at e)
    | inr x ↦
        let ((more, b), ea, eb) = >>=-eq-ok (run_line k (strim line) w) _ (rw x at e) in
        let first = line-Ran (strim line) w l h ea in
        replied-Ran more w b (run k lines b) first
          (λ rs en u er. run-Ran lines b first.fits first.outside er) eb
  ]
