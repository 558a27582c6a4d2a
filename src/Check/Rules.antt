-- ===== src/Check/Rules.antt =====
-- When the rules of Check.antt report.
use kstep.Prelude.{
  ℕ, ◌+◌, ◌-◌, ◌*◌, ◌/◌, ◌%◌, ◌^◌, ◌≤◌, ◌<◌, Bool, true, false, [], ◌∷◌, none, some, leb, ◌==◌, ◌≡◌,
  arith, Bool-cases, inl, inr,
}
use kstep.Cpu.Mask.{Mask, test_cpu}
use native.Mathlib.Nat.{mul-le-mul_left, div-le_self}
use kstep.Check.{
  half_life, first_cpu, on_balance, nsec_per_sec, far, PeltObs, pelt_floor, check_pelt,
}

first_cpu-holds :
    (p : ℕ → Bool) (m : Mask) {i : ℕ}
    → first_cpu p m ≡ some i
    → (p i ≡ true) × (test_cpu i m ≡ true)
unfolding first_cpu
first_cpu-holds p [] e = cc
first_cpu-holds p (c ∷ m) {i} e = elim (Bool-cases (p c)) [
  | inl h ↦ ground arith
  | inr h ↦ ground (arith, first_cpu-holds p m {i = i})
]

-- The balance rule names an idle CPU of the local group, and only where the balancing CPU is busy and
-- of that group itself.
pub on_balance-named :
    (nr_running : ℕ → ℕ) (cpu : ℕ) (group : Mask) (i : ℕ)
    → on_balance nr_running cpu group ≡ some i
    → (nr_running i ≡ 0)
      × (test_cpu i group ≡ true)
      × (0 < nr_running cpu)
      × (test_cpu cpu group ≡ true)
unfolding on_balance
on_balance-named nr_running cpu group i e =
    ground (arith, first_cpu-holds (λ j. nr_running j == 0) group {i = i})

-- A vruntime that is at most 1000 s before or behind its queue's, however the 64 bits wrap, is not
-- far from it.
pub far-near :
    (m k : ℕ)
    → m < 2 ^ 64
    → k ≤ 1000 * nsec_per_sec
    → (far ((m + k) % 2 ^ 64) m ≡ false) × (far ((m + 2 ^ 64 - k) % 2 ^ 64) m ≡ false)
unfolding far
far-near m k h l = (ground arith, ground arith)

floor-le : (q r u : ℕ) → q ≤ u → u < 2 ^ 53 → (q * (1024 - r)) % 2 ^ 64 / 2 ^ 10 ≤ u
floor-le q r u h l =
    let a : q * (1024 - r) ≤ q * 1024 = mul-le-mul_left q (omega arith) in omega (arith, a, h, l)

pelt_floor-le : (u dt : ℕ) → u < 2 ^ 53 → pelt_floor u dt ≤ u
unfolding pelt_floor
pelt_floor-le u dt l =
    let halves = dt / half_life in
    elim (Bool-cases (leb 64 halves)) [
      | inl e ↦ rw e (floor-le 0 _ u (omega arith) l)
      | inr e ↦ rw e (floor-le (u / 2 ^ halves) _ u (div-le_self u (2 ^ halves)) l)
    ]

-- The decay rule says nothing where the utilization has not fallen, whatever time has passed, for a
-- utilization below 2 ^ 53.
pub check_pelt-steady :
    (last cur : PeltObs)
    → last.util < 2 ^ 53
    → last.util ≤ cur.util
    → (check_pelt last cur).1 ≡ none
unfolding check_pelt
check_pelt-steady last cur l h =
    ground (arith, pelt_floor-le last.util (cur.clock_task - last.clock_task) l)
