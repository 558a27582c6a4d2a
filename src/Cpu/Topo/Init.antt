-- ===== src/Cpu/Topo/Init.antt =====
-- `topo_init` isolates CPU 0 and the spare CPUs at every level of the kernel's table, and keeps the
-- groups that the test CPUs have among themselves.
use kstep.Prelude.{
  ℕ, ◌<◌, Bool, true, false, ◌||◌, List, [], ◌∷◌, Option, none, some, Fault, ok, panic, ◌≡◌, refl,
  arith, if◌then◌else◌, Bool-cases, Option-cases, inl, inr, >>=-eq-ok,
}
use kstep.Text.{Bytes}
use kstep.Cpu.Mask.{Mask, test_cpu}
use kstep.Cpu.Topo.{
  Level, same_level, get_topo_level, Host, Topo, isolate, init_level, init_levels, topo_init,
}

abbrev pub named : Option Level → Level → Bool
named none l = false
named (some k) l = same_level l k

-- A level that the kernel's table has.
abbrev pub has_level : List Bytes → Level → Bool
has_level [] l = false
has_level (name ∷ names) l = named (get_topo_level name) l || has_level names l

panic-ne-ok : {A : Type 0} {x : Fault} {a : A} → panic x ≡ ok a → ⊥
panic-ne-ok h = cc

step :
    (host : Host) (st : Topo) (name : Bytes) (names : List Bytes) (masks : Level → ℕ → Mask)
    (l : Level) (c : ℕ) {k : Level} {m : Mask}
    → get_topo_level name ≡ some k
    → m ≡ (
        if has_level names l
        then isolate host st l (init_level host st k masks l) c
        else init_level host st k masks l c)
    → m ≡ (if has_level (name ∷ names) l then isolate host st l (masks l) c else masks l c)
step host st name names masks l c {k} x h = elim (Bool-cases (same_level l k)) [
  | inl e ↦ ground arith
  | inr e ↦ ground arith
]

init_levels-eq :
    (host : Host) (st : Topo) (names : List Bytes) (masks : Level → ℕ → Mask)
    {out : Level → ℕ → Mask} (l : Level) (c : ℕ)
    → init_levels host st names masks ≡ ok out
    → out l c ≡ (if has_level names l then isolate host st l (masks l) c else masks l c)
unfolding init_levels
init_levels-eq host st [] masks l c e = ground arith
init_levels-eq host st (name ∷ names) masks {out} l c e =
    elim (Option-cases (get_topo_level name)) [
      | inl x ↦ absurd (panic-ne-ok (rw (x, init_levels) at e))
      | inr (k, x) ↦
          step host st name names masks l c x (
            init_levels-eq host st names (init_level host st k masks) l c
              (rw (x, init_levels) at e))
    ]

-- The groups that CPUs have under a mask function: each CPU in its own, and shared.
pub record Shares (online : ℕ) (m : ℕ → Mask) : Type 0 where
  pub own : (c : ℕ) → c < online → test_cpu c (m c) ≡ true
  pub shared : (c d : ℕ) → c < online → test_cpu d (m c) ≡ true → m d ≡ m c

pub topo_init-masks :
    (host : Host) (st : Topo) {st' : Topo} (l : Level) (c : ℕ)
    → topo_init host st ≡ ok st'
    → has_level host.levels l ≡ true
    → st'.masks l c ≡ isolate host st l (st.masks l) c
unfolding topo_init
topo_init-masks host st l c e h =
    let (out, a, b) = >>=-eq-ok (init_levels host st host.levels st.masks) _ e in
    ground (arith, init_levels-eq host st host.levels st.masks l c a)

pub topo_init-parts :
    (host : Host) (st : Topo) {st' : Topo}
    → topo_init host st ≡ ok st'
    → (st'.test_ncpus ≡ st.test_ncpus) × (st'.ours ≡ true)
unfolding topo_init
topo_init-parts host st e =
    let (out, a, b) = >>=-eq-ok (init_levels host st host.levels st.masks) _ e in ground arith

-- What the kernel holds is as it was until a rebuild.
abbrev pub SameKernel : Topo → Topo → Type 0
SameKernel st st' =
    (st'.capacity ≡ st.capacity)
    × (st'.sibling ≡ st.sibling)
    × (st'.built ≡ st.built)
    × (st'.tunables ≡ st.tunables)

pub topo_init-SameKernel :
    (host : Host) (st : Topo) {st' : Topo} → topo_init host st ≡ ok st' → SameKernel st st'
unfolding topo_init
topo_init-SameKernel host st e =
    let (out, a, b) = >>=-eq-ok (init_levels host st host.levels st.masks) _ e in ground arith

-- The module knows every level of the kernel's table.
abbrev pub Knows : List Bytes → Type 0
Knows [] = Unit
Knows (name ∷ names) = ((l : Level) × (get_topo_level name ≡ some l)) × Knows names

init_levels-returns :
    (host : Host) (st : Topo) (names : List Bytes) (masks : Level → ℕ → Mask)
    → Knows names
    → (out : Level → ℕ → Mask) × (init_levels host st names masks ≡ ok out)
unfolding init_levels
init_levels-returns host st [] masks k = (masks, refl)
init_levels-returns host st (name ∷ names) masks ((l, e), k) =
    let (out, h) = init_levels-returns host st names (init_level host st l masks) k in
    (out, rw (e, init_levels) h)

pub topo_init-returns :
    (host : Host) (st : Topo) → Knows host.levels → (st' : Topo) × (topo_init host st ≡ ok st')
unfolding topo_init
topo_init-returns host st k =
    let (out, h) = init_levels-returns host st host.levels st.masks k in
    (record st { masks = out; ours = true }, rw h)
