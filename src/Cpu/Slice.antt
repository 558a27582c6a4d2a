-- ===== src/Cpu/Slice.antt =====
-- The slices of the fair class, scaled for the test CPUs: `set_slice_scaling` of kmod/cpu.c.
pub mod Boot
mod Tests
use Prim.Native.Nat.{min}
use kstep.Prelude.{
  ℕ, zero, suc, ◌+◌, ◌*◌, ◌/◌, ◌%◌, ◌^◌, Bool, true, false, not, ◌&&◌, List, [], ◌∷◌, Option, none,
  some, ltb, ◌==◌, if◌then◌else◌, Outcome, ok, panic, scaled_differently, ◌>>=◌,
}

-- `ilog2` of an `unsigned int`, which takes fewer than 32 halvings.
unfoldable pub ilog2 : ℕ → ℕ → ℕ
ilog2 zero n = 0
ilog2 (suc halvings) n = let rest = suc (ilog2 halvings (n / 2)) in if ltb n 2 then 0 else rest

unfoldable pub slice_factor : ℕ → ℕ
unfolding ilog2
slice_factor cpus = 1 + ilog2 32 (min cpus 8)

-- A tunable that the kernel has, with what it is normalized to.
pub record Tunable : Type 0 where
  pub sysctl : ℕ
  pub normalized : ℕ

-- The four names in their order, and whether they were looked up before.
pub record Tunables : Type 0 where
  pub looked_up : Bool
  pub named : List (Option Tunable)

unfoldable pub scaled : ℕ → ℕ → ℕ
unfolding slice_factor
scaled normalized cpus = (normalized * slice_factor cpus) % 2 ^ 32

abbrev rescaled : ℕ → Tunable → Option Tunable
rescaled cpus t = some (record t { sysctl = scaled t.normalized cpus })

-- A round of the loop.
unfoldable pub scale_one : ℕ → ℕ → Bool → Option Tunable → Outcome (Option Tunable)
scale_one online test_ncpus looked_up none = ok none
scale_one online test_ncpus looked_up (some t) =
    if not looked_up && not (t.sysctl == scaled t.normalized online)
    then panic scaled_differently
    else ok (rescaled (test_ncpus + 1) t)

unfoldable pub scale_each : ℕ → ℕ → Bool → List (Option Tunable) → Outcome (List (Option Tunable))
unfolding scale_one
scale_each online test_ncpus looked_up [] = ok []
scale_each online test_ncpus looked_up (t ∷ named) =
    scale_one online test_ncpus looked_up t >>= λ t'.
    scale_each online test_ncpus looked_up named >>= λ named'. ok (t' ∷ named')

unfoldable pub set_slice_scaling : ℕ → ℕ → Tunables → Outcome Tunables
unfolding scale_each
set_slice_scaling online test_ncpus s =
    scale_each online test_ncpus s.looked_up s.named >>= λ named.
    ok (record { looked_up = true; named = named })
