-- ===== src/Cpu/Mask.antt =====
-- A `struct cpumask` as the list of its CPUs, and the operations of the kernel that kmod/cpu.c uses.
use Prim.Native.Nat.{max}
use kstep.Prelude.{
  ℕ, Bool, true, false, ◌&&◌, ◌||◌, ◌≤◌, List, [], ◌∷◌, ◌++◌, ◌≡◌, refl, arith, ◌==◌, if◌then◌else◌,
}

abbrev pub Mask : Type 0
Mask = List ℕ

-- `cpumask_test_cpu`
abbrev pub test_cpu : ℕ → Mask → Bool
test_cpu c [] = false
test_cpu c (d ∷ m) = d == c || test_cpu c m

-- `cpumask_last` of a mask that is not empty.
abbrev pub last_cpu : Mask → ℕ
last_cpu [] = 0
last_cpu (d ∷ m) = max d (last_cpu m)

-- `cpumask_intersects`
abbrev pub intersects : Mask → Mask → Bool
intersects [] m = false
intersects (d ∷ l) m = test_cpu d m || intersects l m

-- `cpumask_and`, with the second mask given by its test.
abbrev pub and_mask : Mask → (ℕ → Bool) → Mask
and_mask [] p = []
and_mask (d ∷ m) p = if p d then d ∷ and_mask m p else and_mask m p

-- `cpumask_of`
abbrev pub only : ℕ → Mask
only c = c ∷ []

pub test-append : (c : ℕ) (l m : Mask) → test_cpu c (l ++ m) ≡ test_cpu c l || test_cpu c m
test-append c [] m = refl
test-append c (d ∷ l) m = ground (arith, test-append c l m)

pub test-and : (c : ℕ) (m : Mask) (p : ℕ → Bool) → test_cpu c (and_mask m p) ≡ test_cpu c m && p c
test-and c [] p = refl
test-and c (d ∷ m) p = ground (arith, test-and c m p)

pub test-intersects :
    (c : ℕ) (l m : Mask) → intersects l m ≡ false → test_cpu c l ≡ true → test_cpu c m ≡ false
test-intersects c [] m h t = cc
test-intersects c (d ∷ l) m h t = ground (arith, test-intersects c l m)

pub le-last : (c : ℕ) (m : Mask) → test_cpu c m ≡ true → c ≤ last_cpu m
le-last c [] t = cc
le-last c (d ∷ m) t = ground (arith, le-last c m)
