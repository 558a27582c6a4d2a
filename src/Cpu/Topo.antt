-- ===== src/Cpu/Topo.antt =====
-- The topology spec of kmod/cpu.c: `get_topo_level`, `topo_init`, `kstep_parse_cpus` and what
-- `kstep_topo_set` parses and applies. A loop that writes one entry per CPU is a function of the
-- CPU here.
pub mod Init
use kstep.Prelude.{
  ℕ, zero, suc, ◌-◌, Bool, true, false, not, ◌&&◌, ◌||◌, List, [], ◌∷◌, ◌++◌, ◌≡◌, refl, ◌⊎◌, inl,
  inr, Option, none, some, Outcome, ok, panic, unknown_level, cap_unsupported, ◌>>=◌, ltb, leb,
  ◌==◌, if◌then◌else◌,
}
use kstep.Prelude.Int.{ℤ, pos, pos_part, ltb_ℤ}
use kstep.Text.{Bytes, lit, equal, strstarts, cut, split_at, tokens, strscpy}
use kstep.Cpu.Slice.{Tunables}
use kstep.Cpu.Mask.{Mask, test_cpu, last_cpu, intersects, and_mask, only}

-- `enum kstep_topo_level`
pub data Level : Type 0 where
  smt cls mc pkg node : Level

unfoldable pub same_level : Level → Level → Bool
same_level smt smt = true
same_level cls cls = true
same_level mc mc = true
same_level pkg pkg = true
same_level node node = true
same_level _ _ = false

-- -1 is `none`.
unfoldable pub get_topo_level : Bytes → Option Level
get_topo_level name =
    if equal name (lit "SMT")
    then some smt
    else if equal name (lit "CLS")
    then some cls
    else if equal name (lit "MC")
    then some mc
    else if equal name (lit "PKG")
    then some pkg
    else if equal name (lit "NODE")
    then some node
    else if equal name (lit "DIE")
    then some pkg
    else none

-- What is wrong with a spec, in the order of the messages in the file.
pub data TopoError : Type 0 where
  bad_cpulist named_twice unknown_key cap_form cap_range cpus_range expected_key : TopoError

pub data Checked (A : Type 0) : Type 0 where
  fine : A → Checked A
  wrong : TopoError → Checked A

pub Checked-cases :
    {A : Type 0} (r : Checked A) → ((e : TopoError) × (r ≡ wrong e)) ⊎ ((a : A) × (r ≡ fine a))
Checked-cases (wrong e) = inl (e, refl)
Checked-cases (fine a) = inr (a, refl)

-- What is read of the kernel: the number of online CPUs, the parsers, the machine's own topology
-- (the names of its levels and their masks), and whether capacities can be set.
pub record Host : Type 0 where
  pub online : ℕ
  pub kstrtoint : Bytes → Option ℤ
  pub cpulist_parse : Bytes → Option Mask
  pub levels : List Bytes
  pub machine_mask : Level → ℕ → Mask
  pub cap_settable : Bool

-- `kstep_test_ncpus`, `kstep_masks`, and whether `tl->mask` reads them; and what the kernel holds:
-- the capacities, the sibling masks, the masks that the last rebuild read, and the tunables of the fair
-- class.
pub record Topo : Type 0 where
  pub test_ncpus : ℕ
  pub masks : Level → ℕ → Mask
  pub ours : Bool
  pub capacity : ℕ → ℕ
  pub sibling : ℕ → Mask
  pub built : Level → ℕ → Mask
  pub tunables : Tunables

-- SCHED_CAPACITY_SCALE
abbrev pub capacity_scale : ℕ
capacity_scale = 1024

-- CPU_SPEC_LEN
abbrev pub cpu_spec_len : ℕ
cpu_spec_len = 512

-- A CPU of `for_each_test_cpu`.
abbrev pub is_test : ℕ → ℕ → Bool
is_test n c = leb 1 c && leb c n

module _ (host : Host) where
  -- `topo_mask`: the level's mask function is the machine's until `topo_init` has replaced it.
  abbrev pub topo_mask : Topo → Level → ℕ → Mask
  topo_mask st l c = if st.ours then st.masks l c else host.machine_mask l c

  -- The loop over the online CPUs, for one level.
  abbrev pub isolate : Topo → Level → (ℕ → Mask) → ℕ → Mask
  isolate st l m c =
      if ltb c host.online
      then (if is_test st.test_ncpus c
          then and_mask (topo_mask st l c) (is_test st.test_ncpus)
          else only c)
      else m c

  -- The body of `topo_init` for one level of the kernel's table.
  abbrev init_level : Topo → Level → (Level → ℕ → Mask) → Level → ℕ → Mask
  init_level st level masks l = if same_level l level then isolate st l (masks l) else masks l

  init_levels : Topo → List Bytes → (Level → ℕ → Mask) → Outcome (Level → ℕ → Mask)
  init_levels st [] masks = ok masks
  init_levels st (name ∷ names) masks = elim (get_topo_level name) [
    | none ↦ panic unknown_level
    | some level ↦ init_levels st names (init_level st level masks)
  ]

  unfoldable pub topo_init : Topo → Outcome Topo
  unfolding init_levels
  topo_init st = do
    masks ← init_levels st host.levels st.masks
    ok (record st { masks = masks; ours = true })

  accepted : ℕ → Option Mask → Option Mask
  accepted n none = none
  accepted n (some []) = none
  accepted n (some (c ∷ m)) =
      if test_cpu 0 (c ∷ m) then none else if leb (last_cpu (c ∷ m)) n then some (c ∷ m) else none

  -- `kstep_parse_cpus`, on a list that is not NULL.
  unfoldable pub parse_cpus : ℕ → Bytes → Option Mask
  unfolding accepted
  parse_cpus n list = accepted n (host.cpulist_parse list)
