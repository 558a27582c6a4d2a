-- ===== src/Cov.antt =====
-- The edge map of kmod/cov.c. The map and the per-CPU previous PC are functions of their index.
pub mod Counts
mod Tests
use Prim.Native.Nat.{bit_xor}
use kstep.Prelude.{
  ℕ, ◌+◌, ◌*◌, ◌/◌, ◌%◌, ◌^◌, Bool, true, false, not, ◌&&◌, Option, none, some, ◌==◌, if◌then◌else◌,
  List, [], ◌∷◌,
}

-- KSTEP_COV_SIZE of kmod/shm.h
abbrev pub cov_size : ℕ
cov_size = 2 ^ 16

pub record Cov : Type 0 where
  pub map : ℕ → ℕ
  pub prev : ℕ → ℕ
  pub controller : Bool

abbrev pub update : (ℕ → ℕ) → ℕ → ℕ → ℕ → ℕ
update f i v j = if j == i then v else f j

-- One call of `cov_trace_pc`: the CPU that it runs on, `current->pid`, and the PC.
pub record Pc : Type 0 where
  pub cpu : ℕ
  pub pid : ℕ
  pub ip : ℕ

-- `(u32)(((*prev ^ ip) * 0x9E3779B97F4A7C15ULL) >> 48) % KSTEP_COV_SIZE`
unfoldable pub edge : ℕ → ℕ → ℕ
edge prev ip = (bit_xor prev ip * 0x9E3779B97F4A7C15) % 2 ^ 64 / 2 ^ 48 % 2 ^ 32 % cov_size

-- The guard: CPU 0 only while the controller asks for it, from pid 1.
unfoldable pub recorded : Bool → Pc → Bool
recorded controller x = not (x.cpu == 0 && not (controller && x.pid == 1))

pub trace_pc : Cov → Pc → Cov
trace_pc c x =
    if recorded c.controller x
    then (let slot = edge (c.prev x.cpu) x.ip in
        record c {
          map = if c.map slot == 255 then c.map else update c.map slot (c.map slot + 1);
          prev = update c.prev x.cpu x.ip;
        })
    else c

pub cov_controller : Cov → Bool → Cov
cov_controller c on = record c { controller = on }

pub trace_all : Cov → List Pc → Cov
trace_all c [] = c
trace_all c (x ∷ xs) = trace_all (trace_pc c x) xs
