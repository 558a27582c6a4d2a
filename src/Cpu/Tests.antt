-- ===== src/Cpu/Tests.antt =====
-- Specs on a machine of four CPUs.
use kstep.Prelude.{
  inr, List, ◌≤◌, ℕ, ◌+◌, ◌-◌, ◌*◌, Bool, true, false, ◌&&◌, [], ◌∷◌, Option, none, some, Outcome,
  ok, panic, ◌≡◌, refl, arith, leb, if◌then◌else◌,
}
use kstep.Prelude.Int.{ℤ, pos}
use kstep.Text.{Bytes, lit, equal, cut, tokens, strstarts, strscpy, split_at}
use kstep.Cpu.Mask.{Mask, and_mask}
use kstep.Cpu.Topo.{
  Level, smt, pkg, same_level, get_topo_level, TopoError, cap_form, Host, Topo, is_test, topo_init,
  parse_cpus,
}
use kstep.Cpu.Topo.Init.{Shares, has_level, SameKernel, Knows}
use kstep.Cpu.Key.{
  set_key, topo_set_key, read_key, level_groups, cap_groups, cap_group, topo_parse_group, set_caps,
  set_masks,
}
use kstep.Cpu.Spec.{topo_cpus, set_entries, set_cap_all, topo_set}
use kstep.Cpu.Spec.Topology.{IsIsolated, boot-IsIsolated, topo_set-IsIsolated, empty_spec-built}
use kstep.Cpu.Spec.Capacity.{InScale, topo_set-capacity, topo_set-SameKernel}
use kstep.Cpu.Slice.Boot.{booted}
use kstep.Cpu.Slice.{scaled, set_slice_scaling}
use kstep.Cpu.Boot.{boot_session, boot_session-IsIsolated}

abbrev is_digit : ℕ → Bool
is_digit c = leb 48 c && leb c 57

-- The CPUs that a text of one-digit CPUs names.
abbrev digits : Bytes → Mask
digits [] = []
digits (x ∷ xs) = if is_digit x then (x - 48) ∷ digits xs else digits xs

abbrev decimal : ℕ → Bytes → Option ℤ
decimal n [] = some (pos n)
decimal n (x ∷ xs) = if is_digit x then decimal (10 * n + (x - 48)) xs else none

-- Four CPUs that share everything.
abbrev quad : Host
quad = record {
  online = 4;
  kstrtoint = decimal 0;
  cpulist_parse = λ s. some (digits s);
  levels = lit "SMT" ∷ lit "PKG" ∷ [];
  machine_mask = λ l c. 0 ∷ 1 ∷ 2 ∷ 3 ∷ [];
  cap_settable = true;
}

-- A kernel with EEVDF.
abbrev norms : List (Option ℕ)
norms = some 700000 ∷ none ∷ none ∷ none ∷ []

abbrev boot : Topo
boot = record {
  test_ncpus = 0;
  masks = λ l c. [];
  ours = false;
  capacity = λ c. 1024;
  sibling = λ c. [];
  built = λ l c. [];
  tunables = record { looked_up = false; named = booted 4 norms };
}

quad-Shares : (l : Level) → Shares 4 (quad.machine_mask l)
quad-Shares l = record { own = λ c h. ground arith; shared = λ c d h t. refl }

abbrev of_ok : {A : Type 0} → A → Outcome A → A
of_ok a (ok b) = b
of_ok a (panic e) = a

abbrev started : Option TopoError × Topo
started = of_ok (none, boot) (topo_set quad [] boot)

start : topo_set quad [] boot ≡ ok started
unfolding topo_set topo_cpus topo_init get_topo_level set_entries set_cap_all set_slice_scaling
    scaled tokens strscpy equal strstarts
start = refl

-- After boot the invariant holds, and a spec with a typing error in its second entry keeps it.
abbrev halves : Bytes
halves = lit "CPUS=2;SMT=1-2;CAP=1:512|2"

abbrev refused : Option TopoError × Topo
refused = of_ok (none, boot) (topo_set quad halves started.1)

refuse : topo_set quad halves started.1 ≡ ok refused
unfolding topo_set topo_cpus topo_init get_topo_level set_entries set_cap_all set_slice_scaling
    scaled tokens strscpy equal strstarts topo_set_key set_key read_key level_groups cap_groups
    cap_group topo_parse_group parse_cpus set_caps set_masks cut split_at
refuse = refl

refused-IsIsolated : IsIsolated quad refused.1
refused-IsIsolated =
    topo_set-IsIsolated quad halves started.1
      (boot-IsIsolated quad boot (omega arith) refl quad-Shares start) refuse

-- The refused spec cut the machine to CPUs 1 and 2, and the empty one does not join CPU 3 to them.
abbrev restarted : Option TopoError × Topo
restarted = of_ok (none, boot) (topo_set quad [] refused.1)

restart : topo_set quad [] refused.1 ≡ ok (none, restarted.1)
unfolding topo_set topo_cpus topo_init get_topo_level set_entries set_cap_all set_slice_scaling
    scaled tokens strscpy equal strstarts topo_set_key set_key read_key level_groups cap_groups
    cap_group topo_parse_group parse_cpus set_caps set_masks cut split_at
restart = refl

has_pkg : has_level quad.levels pkg ≡ true
unfolding get_topo_level equal same_level
has_pkg = refl

empty_spec-built_example : restarted.1.built pkg 3 ≡ and_mask (refused.1.masks pkg 3) (is_test 3)
empty_spec-built_example =
    empty_spec-built quad refused.1 pkg 3 refused-IsIsolated restart has_pkg refl

-- The same spec without the error.
abbrev mended : Bytes
mended = lit "CPUS=2;SMT=1-2;CAP=1:512"

abbrev applied : Option TopoError × Topo
applied = of_ok (none, boot) (topo_set quad mended started.1)

apply : topo_set quad mended started.1 ≡ ok (none, applied.1)
unfolding topo_set topo_cpus topo_init get_topo_level set_entries set_cap_all set_slice_scaling
    scaled tokens strscpy equal strstarts topo_set_key set_key read_key level_groups cap_groups
    cap_group topo_parse_group parse_cpus set_caps set_masks cut split_at
apply = refl

one-applied : (is_test applied.1.test_ncpus 1 ≡ true) × (applied.1.capacity 1 ≡ 512)
unfolding topo_set topo_cpus topo_init get_topo_level set_entries set_cap_all set_slice_scaling
    scaled tokens strscpy equal strstarts topo_set_key set_key read_key level_groups cap_groups
    cap_group topo_parse_group parse_cpus set_caps set_masks cut split_at
one-applied = (refl, refl)

topo_set-capacity_example : InScale (applied.1.capacity 1)
topo_set-capacity_example = topo_set-capacity quad mended started.1 1 refl apply one-applied.0

refuse_cap : topo_set quad halves started.1 ≡ ok (some cap_form, refused.1)
unfolding topo_set topo_cpus topo_init get_topo_level set_entries set_cap_all set_slice_scaling
    scaled tokens strscpy equal strstarts topo_set_key set_key read_key level_groups cap_groups
    cap_group topo_parse_group parse_cpus set_caps set_masks cut split_at
refuse_cap = refl

topo_set-SameKernel_example : SameKernel started.1 refused.1
topo_set-SameKernel_example = topo_set-SameKernel quad halves started.1 cap_form refl refuse_cap

quad-Knows : Knows quad.levels
unfolding get_topo_level equal
quad-Knows = ((smt, refl), ((pkg, refl), tt))

boot_session-IsIsolated_example :
    (st' : Topo) × (boot_session quad (halves ∷ lit "CPUS=3;SMT=1-2|3" ∷ []) boot ≡ ok st')
    × IsIsolated quad st'
    × (st'.test_ncpus ≤ 31)
boot_session-IsIsolated_example =
    boot_session-IsIsolated quad quad-Knows refl (halves ∷ lit "CPUS=3;SMT=1-2|3" ∷ []) boot
      (omega arith) (omega arith) refl (inr (norms, refl)) quad-Shares
