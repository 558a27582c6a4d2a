-- ===== src/Cli/Args/Checked.antt =====
-- What an argument that is accepted is known to be.
use kstep.Prelude.{
  ℕ, zero, suc, ◌-◌, ◌≤◌, ◌<◌, false, ◌||◌, Option, none, some, Option-cases, inl, inr, ◌≡◌, arith,
  length, get_or, if◌then◌else◌,
}
use kstep.Prelude.Int.{ℤ, pos, negsuc, pos_part, ltb_ℤ}
use kstep.Text.{Bytes}
use kstep.Cli.{Kernel, Cli}
use kstep.Cli.Args.{
  right, take_arg, number, optional, required, parse_task, in_range, found, numbered, task_arg,
}

abbrev pub InRange : ℤ → ℤ → ℤ → Type 0
InRange lo hi n = (ltb_ℤ n lo ≡ false) × (ltb_ℤ hi n ≡ false)

pub InRange-pos :
    (lo hi : ℕ) (n : ℤ)
    → InRange (pos (suc lo)) (pos hi) n
    → (suc lo ≤ pos_part n) × (pos_part n ≤ hi)
InRange-pos lo hi (pos n) h = (ground arith, ground arith)
InRange-pos lo hi (negsuc n) h = absurd (ground arith)

module _ {K : Type 0} (k : Kernel K) where
  pub number-InRange : (lo hi : ℤ) (s : Bytes) {n : ℤ} → number k lo hi s ≡ some n → InRange lo hi n
  unfolding number in_range
  number-InRange lo hi s e = elim (Option-cases (k.kstrtoint s)) [
    | inl x ↦ absurd (bad (rw (x, in_range) at e))
    | inr (m, x) ↦ within m (rw (x, in_range) at e)
  ]
    where
      bad : {n : ℤ} → ◌≡◌ {A = Option ℤ} none (some n) → ⊥
      bad h = cc

      within :
          (m : ℤ) {n : ℤ}
          → ◌≡◌ {A = Option ℤ} (if ltb_ℤ m lo || ltb_ℤ hi m then none else some m) (some n)
          → InRange lo hi n
      within m h = ground arith

  pub required-InRange :
      (lo hi : ℤ) (arg : Option Bytes) {n : ℤ} → required k lo hi arg ≡ some n → InRange lo hi n
  unfolding required
  required-InRange lo hi none e = cc
  required-InRange lo hi (some arg) e = number-InRange lo hi arg e

  pub optional-InRange :
      (lo hi default : ℤ) (arg : Option Bytes) {n : ℤ}
      → InRange lo hi default
      → optional k lo hi default arg ≡ some n
      → InRange lo hi n
  unfolding optional
  optional-InRange lo hi default none {n} d e =
      let same : default ≡ n = ground arith in rw (← same) d
  optional-InRange lo hi default (some arg) d e = number-InRange lo hi arg e

  -- A task that a command acts on has a number, and has not exited.
  pub record IsLive (w : Cli K) (p : ℕ) : Type 0 where
    pub index : ℕ
    pub numbered : index < length w.tasks
    pub there : p ≡ get_or w.tasks index 0
    pub alive : k.exited p w.kernel ≡ false

  found-IsLive :
      (w : Cli K) (rest : Option Bytes) (n : ℕ) {p : ℕ} {left : Option Bytes}
      → 0 < n
      → found k w rest n ≡ right (p, left)
      → IsLive w p
  unfolding found
  found-IsLive w rest n h e = record {
    index = n - 1;
    numbered = ground arith;
    there = ground arith;
    alive = ground arith;
  }

  numbered-IsLive :
      (w : Cli K) (usage : Bytes) (rest : Option Bytes) (o : Option ℤ) {p : ℕ} {left : Option Bytes}
      → numbered k w usage rest o ≡ right (p, left)
      → IsLive w p
  unfolding numbered
  numbered-IsLive w usage rest none e = cc
  numbered-IsLive w usage rest (some (negsuc n)) e = cc
  numbered-IsLive w usage rest (some (pos zero)) e = cc
  numbered-IsLive w usage rest (some (pos (suc n))) e = found-IsLive w rest (suc n) (omega arith) e

  arg-IsLive :
      (w : Cli K) (usage : Bytes) (a : Option Bytes × Option Bytes) {p : ℕ} {left : Option Bytes}
      → task_arg k w usage a ≡ right (p, left)
      → IsLive w p
  unfolding task_arg
  arg-IsLive w usage (none, rest) e = cc
  arg-IsLive w usage (some num_s, rest) e = numbered-IsLive w usage rest (k.kstrtoint num_s) e

  pub parse_task-IsLive :
      (w : Cli K) (arg : Option Bytes) (usage : Bytes) (p : ℕ × Option Bytes)
      → parse_task k w arg usage ≡ right p
      → IsLive w p.0
  unfolding parse_task
  parse_task-IsLive w arg usage p e = arg-IsLive w usage (take_arg arg) e
