-- ===== src/Isolation/Moved.antt =====
-- Which processes are left on the test CPUs.
use kstep.Prelude.{
  ◌≡◌, refl, ◌⊎◌, inl, inr, Bool, true, false, not, ◌||◌, List, [], ◌∷◌, arith, Bool-cases,
}
use kstep.Cpu.Mask.{only}
use kstep.Isolation.{Process, Affinity, is_sys_kthread, only_0, move_kthread, move_kthreads}

-- Why a process may still run on another CPU than 0.
abbrev pub stays : Affinity → Process → Bool
stays a p = (not p.is_kthread || is_sys_kthread p) || a.refuses p

-- What becomes of one process: it keeps its name and its kind, and it may run where it could before
-- or on CPU 0 alone; on another CPU than 0 only if it stays.
pub record Placed (a : Affinity) (p q : Process) : Type 0 where
  pub same_kind : q.is_kthread ≡ p.is_kthread
  pub same_name : q.comm ≡ p.comm
  pub where_to : (q.cpus_mask ≡ p.cpus_mask) ⊎ (q.cpus_mask ≡ only 0)
  pub kept_off : stays a p ≡ false → only_0 q.cpus_mask ≡ true
  pub untouched : not p.is_kthread || is_sys_kthread p ≡ true → q ≡ p

pub data AllPlaced (a : Affinity) : List Process → List Process → Type 0 where
  none_left : AllPlaced a [] []
  one_more :
      {p q : Process} {ps qs : List Process}
      → Placed a p q
      → AllPlaced a ps qs
      → AllPlaced a (p ∷ ps) (q ∷ qs)

differ : {b : Bool} → b ≡ true → b ≡ false → ⊥
differ h k = cc

or-false_left : (b c : Bool) → b || c ≡ false → b ≡ false
or-false_left b c h = ground arith

or-false_right : (b : Bool) {c : Bool} → b || c ≡ false → c ≡ false
or-false_right true h = cc
or-false_right false h = h

stays-Placed :
    (a : Affinity) (p : Process) → (stays a p ≡ false → only_0 p.cpus_mask ≡ true) → Placed a p p
stays-Placed a p h = record {
  same_kind = refl;
  same_name = refl;
  where_to = inl refl;
  kept_off = h;
  untouched = λ s. refl;
}

move_kthread-Placed : (a : Affinity) (p : Process) → Placed a p (move_kthread a p)
unfolding move_kthread is_sys_kthread only_0
move_kthread-Placed a p = elim (Bool-cases (only_0 p.cpus_mask)) [
  | inl x ↦ rw x (stays-Placed a p (λ s. x))
  | inr x ↦ elim (Bool-cases (not p.is_kthread || is_sys_kthread p)) [
    | inl y ↦
        rw (x, y) (stays-Placed a p (λ s. absurd (differ y (or-false_left _ (a.refuses p) s))))
    | inr y ↦ elim (Bool-cases (a.refuses p)) [
      | inl z ↦
          rw (x, y, z)
            (record {
              same_kind = refl;
              same_name = refl;
              where_to = inl refl;
              kept_off =
                  λ s. absurd (differ z (or-false_right (not p.is_kthread || is_sys_kthread p) s));
              untouched = λ s. absurd (differ s y);
            })
      | inr z ↦
          rw (x, y, z)
            (record {
              same_kind = refl;
              same_name = refl;
              where_to = inr refl;
              kept_off = λ s. refl;
              untouched = λ s. absurd (differ s y);
            })
    ]
  ]
]

-- Behind `kstep_move_kthreads`, every process is where it was but for this: a kernel thread that is
-- not one of the system's, and whose affinity the kernel changes, may run on CPU 0 and nowhere
-- else. Processes that are no kernel threads, and the system's own threads, are left as they were.
pub move_kthreads-AllPlaced :
    (a : Affinity) (ps : List Process) → AllPlaced a ps (move_kthreads a ps)
unfolding move_kthreads
move_kthreads-AllPlaced a [] = none_left
move_kthreads-AllPlaced a (p ∷ ps) =
    one_more (move_kthread-Placed a p) (move_kthreads-AllPlaced a ps)
