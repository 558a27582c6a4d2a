-- ===== src/Cpu/Slice/Tests.antt =====
-- A kernel with one tunable of 700 us on eight CPUs, for four and then for two test CPUs.
use kstep.Prelude.{ℕ, true, false, List, [], ◌∷◌, Option, none, some, ok, ◌≡◌, refl}
use kstep.Cpu.Slice.{slice_factor}
use kstep.Cpu.Slice.Boot.{booted, layouts, layouts-booted}

abbrev norms : List (Option ℕ)
norms = some 700000 ∷ none ∷ none ∷ none ∷ []

factors :
    slice_factor 1 ∷ slice_factor 2 ∷ slice_factor 7 ∷ slice_factor 32 ∷ [] ≡ 1 ∷ 2 ∷ 3 ∷ 4 ∷ []
unfolding slice_factor
factors = refl

layouts-booted_example :
    layouts 8 (4 ∷ 2 ∷ []) (record { looked_up = false; named = booted 8 norms })
    ≡ ok (record { looked_up = true; named = booted 3 norms })
layouts-booted_example = layouts-booted 8 4 (2 ∷ []) norms
