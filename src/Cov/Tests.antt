-- ===== src/Cov/Tests.antt =====
-- A map that is about to saturate.
use kstep.Prelude.{false, List, [], ◌∷◌, ◌≡◌, refl}
use kstep.Cov.{Cov, Pc, edge, recorded, trace_pc, trace_all}

abbrev almost : Cov
almost = record { map = λ _. 254; prev = λ _. 7; controller = false }

-- Two edges of CPU 1 into the slot of the edge from 7 to 7, and one PC of CPU 0, which is no edge.
abbrev pcs : List Pc
pcs =
    record { cpu = 1; pid = 30; ip = 7 }
    ∷ record { cpu = 0; pid = 1; ip = 9 }
    ∷ record { cpu = 1; pid = 31; ip = 7 }
    ∷ []

pcs-saturate : (trace_all almost pcs).map (edge 7 7) ≡ 255
unfolding trace_all trace_pc recorded edge
pcs-saturate = refl
