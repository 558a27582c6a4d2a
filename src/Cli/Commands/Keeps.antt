-- ===== src/Cli/Commands/Keeps.antt =====
-- What every command leaves alone, and the arguments that it passes on.
use kstep.Prelude.{
  ℕ, ◌≤◌, true, false, List, [], ◌∷◌, ◌++◌, Option, none, some, Bool-cases, inl, inr, ◌⊎◌, ◌≡◌,
  refl, sym, arith, length, Outcome, ok, >>=-eq-ok,
}
use mathlib.Core.List.{append-nil}
use kstep.Prelude.Int.{ℤ, pos, negsuc}
use kstep.Text.{Bytes, lit}
use kstep.Io.Json.{Field, string}
use kstep.Cli.{
  Kernel, Cli, shm_tasks, FairPolicy, RtPolicy, TaskVerb, reply_error, reply_errno, is_zero,
  is_busy,
}
use kstep.Cli.Args.{Parsed, wrong, right}
use kstep.Cli.Args.Checked.{InRange}
use kstep.Cli.Commands.{with_args, with_value, call, call_may}

-- The tasks numbered so far keep their numbers, there are at most 64, and the reply gets at most
-- one field.
pub record Orderly {K : Type 0} (w w' : Cli K) : Type 0 where
  pub new : List ℕ
  pub kept : w'.tasks ≡ w.tasks ++ new
  pub fits : length w.tasks ≤ shm_tasks → length w'.tasks ≤ shm_tasks
  pub replied : (w'.reply ≡ w.reply) ⊎ ((f : Field) × (w'.reply ≡ w.reply ++ (f ∷ [])))

module _ {K : Type 0} (k : Kernel K) where
  -- What a property of everything outside the driver needs to outlive the commands: the calls that
  -- they make, with the arguments that they make them with.
  pub record Admits (P : K → Type 0) : Type 0 where
    pub nice : (p : ℕ) (κ : K) → P κ → InRange (negsuc 19) (pos 19) (k.task_nice p κ)
    pub ticks :
        (n : ℕ) (κ : K) {κ' : K} → 1 ≤ n → n ≤ 10000 → k.tick_repeat n κ ≡ ok κ' → P κ → P κ'
    pub creates : (κ : K) → P κ → P (k.task_create κ).1
    pub exits : (p : ℕ) (κ : K) → P κ → P (k.task_exit p κ)
    pub wakes : (p : ℕ) (κ : K) → P κ → P (k.task_wakeup p κ)
    pub affinity :
        (p : ℕ) (l : Option Bytes) (κ : K) → k.exited p κ ≡ false → P κ → P (k.set_affinity p l κ).1
    pub fair :
        (p : ℕ) (c : FairPolicy) (n : ℤ) (κ : K)
        → k.exited p κ ≡ false
        → InRange (negsuc 19) (pos 19) n
        → P κ
        → P (k.set_fair p c n κ)
    pub rt :
        (p : ℕ) (c : RtPolicy) (n : ℕ) (κ : K)
        → k.exited p κ ≡ false
        → 1 ≤ n
        → n ≤ 99
        → P κ
        → P (k.set_rt p c n κ)
    pub acts :
        (v : TaskVerb) (p : ℕ) (κ : K) {κ' : K}
        → k.exited p κ ≡ false
        → k.act v p κ ≡ ok κ'
        → P κ
        → P κ'
    pub cgroup : (c : Bytes) (κ : K) → P κ → P (k.cgroup_create c κ).1
    pub moves : (c : Bytes) (p : ℕ) (κ : K) → P κ → P (k.cgroup_move_task c p κ).1
    pub weighs :
        (c : Bytes) (n : ℕ) (κ : K) → 1 ≤ n → n ≤ 10000 → P κ → P (k.cgroup_set_weight c n κ).1
    pub cpuset :
        (c l : Bytes) (κ : K) → k.parse_cpus l κ ≡ true → P κ → P (k.cgroup_set_cpuset c l κ).1
    pub destroys :
        (c : Bytes) (κ : K) {κ' : K}
        → k.cgroup_busy c κ ≡ some false
        → k.cgroup_destroy c κ ≡ ok κ'
        → P κ
        → P κ'
    pub checks : (c : Bytes) (κ : K) → P κ → P (k.check_enable c κ).1
    pub freq :
        (c n : ℕ) (κ : K)
        → 1 ≤ c
        → c ≤ k.test_ncpus κ
        → 1 ≤ n
        → n ≤ 1024
        → P κ
        → P (k.freq_set c n κ)
    pub topo : (s : Bytes) (κ : K) {r : Option Bytes × K} → k.topo_set s κ ≡ ok r → P κ → P r.1
    pub settles : (κ : K) → P κ → P (k.settle κ)
    pub updates : (l : List ℕ) (κ : K) → P κ → P (k.shm_update l κ)

  module _ (P : K → Type 0) where
    -- What a command does, as far as all commands do it.
    pub record Keeps (w w' : Cli K) : Type 0 where
      pub orderly : Orderly w w'
      pub outside : P w.kernel → P w'.kernel

    pub error-Keeps : (msg : Bytes) (w : Cli K) → Keeps w (reply_error msg w)
    error-Keeps msg w = record {
      orderly = record {
        new = [];
        kept = sym (append-nil w.tasks);
        fits = λ h. h;
        replied = inr (string (lit "error") msg, refl);
      };
      outside = λ h. h;
    }

    pub kernel-Keeps : (w : Cli K) (κ : K) → (P w.kernel → P κ) → Keeps w (record w { kernel = κ })
    kernel-Keeps w κ f = record {
      orderly = record {
        new = [];
        kept = sym (append-nil w.tasks);
        fits = λ h. h;
        replied = inl refl;
      };
      outside = f;
    }

    -- An error behind a change outside.
    pub late-Keeps :
        (msg : Bytes) (w : Cli K) (κ : K)
        → (P w.kernel → P κ)
        → Keeps w (reply_error msg (record w { kernel = κ }))
    late-Keeps msg w κ f = record {
      orderly = record {
        new = [];
        kept = sym (append-nil w.tasks);
        fits = λ h. h;
        replied = inr (string (lit "error") msg, refl);
      };
      outside = f;
    }

    pub ok-Keeps : {w a w' : Cli K} → Keeps w a → ok a ≡ ok w' → Keeps w w'
    ok-Keeps {w} {a} {w'} h e = let same : a ≡ w' = ground arith in rw (← same) h

    pub args-Keeps :
        {A : Type 0} (parsed : Parsed A) (f : A → Cli K → Outcome (Cli K)) (w : Cli K) {w' : Cli K}
        → ((a : A) → parsed ≡ right a → f a w ≡ ok w' → Keeps w w')
        → with_args k parsed f w ≡ ok w'
        → Keeps w w'
    args-Keeps (wrong msg) f w h e = ok-Keeps (error-Keeps msg w) e
    args-Keeps (right a) f w h e = h a refl e

    pub value-Keeps :
        {A : Type 0} (usage : Bytes) (o : Option A) (f : A → Cli K → Outcome (Cli K)) (w : Cli K)
        {w' : Cli K}
        → ((a : A) → o ≡ some a → f a w ≡ ok w' → Keeps w w')
        → with_value k usage o f w ≡ ok w'
        → Keeps w w'
    value-Keeps usage none f w h e = ok-Keeps (error-Keeps usage w) e
    value-Keeps usage (some a) f w h e = h a refl e

    pub call-Keeps :
        (f : K → K) (w : Cli K) {w' : Cli K}
        → (P w.kernel → P (f w.kernel))
        → call k f w ≡ ok w'
        → Keeps w w'
    call-Keeps f w h e = ok-Keeps (kernel-Keeps w (f w.kernel) h) e

    pub may-Keeps :
        (f : K → Outcome K) (w : Cli K) {w' : Cli K}
        → ((κ : K) → f w.kernel ≡ ok κ → P w.kernel → P κ)
        → call_may k f w ≡ ok w'
        → Keeps w w'
    may-Keeps f w h e =
        let (κ, ef, last) = >>=-eq-ok (f w.kernel) (λ κ'. ok (record w { kernel = κ' })) e in
        ok-Keeps (kernel-Keeps w κ (h κ ef)) last

    pub errno-Keeps :
        (err : ℤ) (w : Cli K) (κ : K)
        → (P w.kernel → P κ)
        → Keeps w (reply_errno k err (record w { kernel = κ }))
    errno-Keeps err w κ h = elim (Bool-cases (is_zero err)) [
      | inl z ↦ rw z (kernel-Keeps w κ h)
      | inr z ↦ elim (Bool-cases (is_busy err)) [
        | inl b ↦ rw (z, b) (late-Keeps _ w κ h)
        | inr b ↦ rw (z, b) (late-Keeps _ w κ h)
      ]
    ]
