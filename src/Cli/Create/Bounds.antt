-- ===== src/Cli/Create/Bounds.antt =====
-- What `create` does to the table of tasks: 64 places, and one sum that may wrap.
use kstep.Prelude.{
  panic-not_ok, ℕ, zero, suc, ◌+◌, ◌^◌, ◌≤◌, ◌<◌, Bool, true, false, ◌||◌, [], ◌∷◌, ◌++◌, Option,
  none, some, Bool-cases, inl, inr, ◌≡◌, refl, sym, ◌∙◌, arith, length, length-append, leb, ◌==◌,
  if◌then◌else◌, ok, panic, out_of_bounds,
}
use mathlib.Core.List.{append-nil, append_assoc}
use kstep.Prelude.Int.{ℤ, pos, pos_part, ltb_ℤ}
use kstep.Text.{Bytes, lit}
use kstep.Io.Json.{text}
use kstep.Cli.{Kernel, Cli, shm_tasks, is_zero}
use kstep.Cli.Args.{Parsed, wrong, right, take_arg, parse_cgroup}
use kstep.Cli.Commands.Keeps.{Admits, Keeps, error-Keeps, errno-Keeps, ok-Keeps}
use kstep.Cli.Create.{
  too_many, one_task, number_task, create_tasks, create_number, create_path, create_rest,
  create_counted, create_first, cmd_create,
}

else_part : {A : Type 0} (b : Bool) (x y : A) → b ≡ false → (if b then x else y) ≡ y
else_part true x y z = cc
else_part false x y z = refl

module _ {K : Type 0} (k : Kernel K) (P : K → Type 0) (a : Admits k P) where
  moved-outside : (name : Option Bytes) (p : ℕ) (κ : K) → P κ → P (one_task k name p κ).1
  unfolding one_task
  moved-outside none p κ h = h
  moved-outside (some name) p κ h = a.moves name p κ h

  task-Keeps :
      (w : Cli K)
      → Keeps k P w
          (record w { reply = w.reply ++ (text (lit "task") (k.decimal (length w.tasks)) ∷ []) })
  task-Keeps w = record {
    orderly = record {
      new = [];
      kept = sym (append-nil w.tasks);
      fits = λ h. h;
      replied = inr (text (lit "task") (k.decimal (length w.tasks)), refl);
    };
    outside = λ h. h;
  }

  -- What one more task in front does to a step.
  prepend :
      (w : Cli K) (p : ℕ) (κ : K) {w' : Cli K}
      → length w.tasks < shm_tasks
      → (P w.kernel → P κ)
      → Keeps k P (record w { tasks = w.tasks ++ (p ∷ []); kernel = κ }) w'
      → Keeps k P w w'
  prepend w p κ room f h = record {
    orderly = record {
      new = p ∷ h.orderly.new;
      kept = h.orderly.kept ∙ append_assoc w.tasks (p ∷ []) h.orderly.new;
      fits = λ l. h.orderly.fits (omega (arith, room, length-append w.tasks (p ∷ [])));
      replied = h.orderly.replied;
    };
    outside = λ x. h.outside (f x);
  }

  create_tasks-Keeps :
      (name : Option Bytes) (n : ℕ) (w : Cli K) {w' : Cli K}
      → create_tasks k name n w ≡ ok w'
      → Keeps k P w w'
  unfolding create_tasks number_task
  create_tasks-Keeps name zero w e = ok-Keeps k P (task-Keeps w) e
  create_tasks-Keeps name (suc n) w e =
      let p = (k.task_create w.kernel).0 in
      let made = (k.task_create w.kernel).1 in
      let m = one_task k name p made in
      let in_step = λ (x : P w.kernel). moved-outside name p made (a.creates w.kernel x) in
      elim (Bool-cases (is_zero m.0)) [
        | inl z ↦ elim (Bool-cases (leb shm_tasks (length w.tasks))) [
          | inl full ↦ absurd (panic-not_ok (rw (z, full) at e))
          | inr room ↦
              prepend w p (k.task_wakeup p m.1) (ground (arith, room))
                (λ x. a.wakes p m.1 (in_step x)) (create_tasks-Keeps name n _ (rw (z, room) at e))
        ]
        | inr z ↦
            ok-Keeps k P
              (errno-Keeps k P m.0 w (k.task_exit p m.1) (λ x. a.exits p m.1 (in_step x)))
              (sym (else_part (is_zero m.0) _ _ z) ∙ e)
      ]

  create_number-Keeps :
      (name : Option Bytes) (n : ℤ) (w : Cli K) {w' : Cli K}
      → create_number k name n w ≡ ok w'
      → Keeps k P w w'
  unfolding create_number
  create_number-Keeps name n w e =
      elim (Bool-cases (ltb_ℤ n (pos 1) || too_many (length w.tasks) (pos_part n))) [
        | inl x ↦ ok-Keeps k P (error-Keeps k P _ w) (rw x at e)
        | inr x ↦ create_tasks-Keeps name (pos_part n) w (rw x at e)
      ]

  create_path-Keeps :
      (n : ℤ) (parsed : Parsed (Bytes × Option Bytes)) (w : Cli K) {w' : Cli K}
      → create_path k n parsed w ≡ ok w'
      → Keeps k P w w'
  unfolding create_path
  create_path-Keeps n (wrong msg) w e = ok-Keeps k P (error-Keeps k P msg w) e
  create_path-Keeps n (right (name, none)) w e = create_number-Keeps (some name) n w e
  create_path-Keeps n (right (name, some arg)) w e = ok-Keeps k P (error-Keeps k P _ w) e

  create_rest-Keeps :
      (n : ℤ) (rest : Option Bytes) (w : Cli K) {w' : Cli K}
      → create_rest k n rest w ≡ ok w'
      → Keeps k P w w'
  unfolding create_rest
  create_rest-Keeps n none w e = create_number-Keeps none n w e
  create_rest-Keeps n (some []) w e = create_number-Keeps none n w e
  create_rest-Keeps n (some (c ∷ arg)) w e =
      create_path-Keeps n (parse_cgroup k w (some (c ∷ arg)) _ false) w e

  create_counted-Keeps :
      (o : Option ℤ) (rest : Option Bytes) (w : Cli K) {w' : Cli K}
      → create_counted k o rest w ≡ ok w'
      → Keeps k P w w'
  unfolding create_counted
  create_counted-Keeps none rest w e = ok-Keeps k P (error-Keeps k P _ w) e
  create_counted-Keeps (some n) rest w e = create_rest-Keeps n rest w e

  create_first-Keeps :
      (args : Option Bytes × Option Bytes) (w : Cli K) {w' : Cli K}
      → create_first k args w ≡ ok w'
      → Keeps k P w w'
  unfolding create_first
  create_first-Keeps (none, rest) w e = create_counted-Keeps none rest w e
  create_first-Keeps (some token, rest) w e = create_counted-Keeps (k.kstrtoint token) rest w e

  pub create-Keeps :
      (arg : Option Bytes) (w : Cli K) {w' : Cli K} → cmd_create k arg w ≡ ok w' → Keeps k P w w'
  unfolding cmd_create
  create-Keeps none w e = create_rest-Keeps (pos 1) none w e
  create-Keeps (some []) w e = create_first-Keeps (take_arg (some [])) w e
  create-Keeps (some (c ∷ arg)) w e = elim (Bool-cases (c == b'/')) [
    | inl x ↦ create_rest-Keeps (pos 1) (some (c ∷ arg)) w (rw x at e)
    | inr x ↦ create_first-Keeps (take_arg (some (c ∷ arg))) w (rw x at e)
  ]

module _ {K : Type 0} (k : Kernel K) where
  -- Without a cgroup to move into, nothing stops the loop before the table is full.
  create_tasks-overflows :
      (n : ℕ) (w : Cli K)
      → length w.tasks ≤ shm_tasks
      → shm_tasks < length w.tasks + n
      → create_tasks k none n w ≡ panic out_of_bounds
  unfolding create_tasks number_task one_task
  create_tasks-overflows zero w l h = absurd (omega arith)
  create_tasks-overflows (suc n) w l h = elim (Bool-cases (leb shm_tasks (length w.tasks))) [
    | inl full ↦ rw full
    | inr room ↦
        let p = (k.task_create w.kernel).0 in
        let longer = length-append w.tasks (p ∷ []) in
        rw room (
          create_tasks-overflows n _ (ground (arith, room, longer))
            (ground (arith, room, longer, h)))
  ]

  -- A number of tasks whose sum with the tasks there are is 2 ^ 31 or more wraps in the check of the
  -- table, so that `create` passes it and writes behind the table.
  pub create-wraps :
      (c : ℕ) (arg : Bytes) (token : Bytes) (n : ℕ) (w : Cli K)
      → (c == b'/') ≡ false
      → take_arg (some (c ∷ arg)) ≡ (some token, none)
      → k.kstrtoint token ≡ some (pos n)
      → n < 2 ^ 31
      → length w.tasks ≤ shm_tasks
      → 2 ^ 31 ≤ length w.tasks + n
      → cmd_create k (some (c ∷ arg)) w ≡ panic out_of_bounds
  unfolding cmd_create create_first create_counted create_rest create_number
  create-wraps c arg token n w slash t num int l h =
      let one : ltb_ℤ (pos n) (pos 1) ≡ false = ground (arith, h, l) in
      let passes : too_many (length w.tasks) n ≡ false = ground (arith, h) in
      rw (slash, t, create_first, num, create_counted, create_rest, create_number, one, passes)
        (create_tasks-overflows n w l (omega (arith, h)))
