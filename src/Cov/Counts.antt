-- ===== src/Cov/Counts.antt =====
-- Each slot holds the number of recorded edges that hash to it, up to 255.
use Prim.Native.Nat.{min}
use kstep.Prelude.{
  ℕ, ◌+◌, ◌≤◌, ◌<◌, Bool, List, [], ◌∷◌, ◌≡◌, not, ◌&&◌, ◌||◌, arith, ◌==◌, if◌then◌else◌, ◌∙◌,
}
use kstep.Cov.{Cov, Pc, update, cov_size, edge, recorded, trace_pc, trace_all}

-- The slot written stands in the map.
pub edge_lt : (prev ip : ℕ) → edge prev ip < cov_size
unfolding edge
edge_lt prev ip = omega arith

-- The PCs that count: those of the test CPUs, and those of the controller, pid 1 on CPU 0, while it
-- makes a scheduler call for a task.
abbrev pub counted : Bool → Pc → Bool
counted controller x = not (x.cpu == 0) || controller && x.pid == 1

-- How many edges of a run hash to `slot`: an edge is a counted PC behind the counted PC before it
-- on its CPU, which `prev` holds at the start.
unfoldable pub hits : Bool → ℕ → (ℕ → ℕ) → List Pc → ℕ
hits controller slot prev [] = 0
hits controller slot prev (x ∷ xs) =
    let later = hits controller slot (update prev x.cpu x.ip) xs in
    let skipped = hits controller slot prev xs in
    if counted controller x
    then (if edge (prev x.cpu) x.ip == slot then later + 1 else later)
    else skipped

trace_pc-hits :
    (x : Pc) (xs : List Pc) (c : Cov) (slot : ℕ)
    → c.map slot ≤ 255
    → let d = trace_pc c x in
      ((d.map slot ≤ 255) × (d.controller ≡ c.controller))
      × (min 255 (d.map slot + hits c.controller slot d.prev xs)
          ≡ min 255 (c.map slot + hits c.controller slot c.prev (x ∷ xs)))
unfolding trace_pc recorded hits
trace_pc-hits x xs c slot h = ground arith

-- Over any run in which the controller's flag stays as it is, every slot counts the edges that hash
-- to it and saturates at 255: nothing is lost below that, and nothing wraps.
pub trace_all-hits :
    (xs : List Pc) (c : Cov) (slot : ℕ)
    → c.map slot ≤ 255
    → (trace_all c xs).map slot ≡ min 255 (c.map slot + hits c.controller slot c.prev xs)
unfolding trace_all
trace_all-hits [] c slot h = unfold hits in omega arith
trace_all-hits (x ∷ xs) c slot h =
    let ((le, same), eq) = trace_pc-hits x xs c slot h in
    trace_all-hits xs (trace_pc c x) slot le ∙ rw same eq
