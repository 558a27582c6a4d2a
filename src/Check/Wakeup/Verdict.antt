-- ===== src/Check/Wakeup/Verdict.antt =====
-- What a step is warned of.
use Prim.Native.Nat.{min}
use kstep.Prelude.{ℕ, zero, suc, List, [], ◌∷◌, if◌then◌else◌}
use kstep.Check.Wakeup.{entries, wakeups, Placement, Pending, owed_wakeup}

-- The placements that were owed the waker's CPU, at most `n` of them.
abbrev pub owed_first : ℕ → List Placement → List (ℕ × ℕ)
owed_first zero xs = []
owed_first (suc n) [] = []
owed_first (suc n) (x ∷ xs) =
    if owed_wakeup x then (x.p, x.this_cpu) ∷ owed_first n xs else owed_first (suc n) xs

-- What the settle judges.
abbrev judged : Pending → List (ℕ × ℕ)
judged w = entries (min w.npending wakeups) w.pending
