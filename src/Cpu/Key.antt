-- ===== src/Cpu/Key.antt =====
-- One key of a topology spec: `topo_parse_group` and `topo_set_key` of kmod/cpu.c.
pub mod Splits
use kstep.Prelude.{
  ℕ, Bool, true, false, ◌&&◌, ◌||◌, List, [], ◌∷◌, ◌++◌, Option, none, some, ltb, leb, ◌==◌,
  if◌then◌else◌,
}
use kstep.Prelude.Int.{ℤ, pos, pos_part, ltb_ℤ}
use kstep.Text.{Bytes, lit, equal, split_at, tokens}
use kstep.Cpu.Mask.{Mask, test_cpu, intersects, only}
use kstep.Cpu.Topo.{
  Level, same_level, get_topo_level, TopoError, bad_cpulist, named_twice, unknown_key, cap_form,
  cap_range, Checked, fine, wrong, Host, Topo, capacity_scale, is_test, parse_cpus,
}

-- What `cap` and `level` of `topo_set_key` come to.
pub data Key : Type 0 where
  cap cpus unknown : Key
  level : Level → Key

level_key : Option Level → Key
level_key none = unknown
level_key (some l) = level l

-- The capacities of the spec, and the masks, as the groups are read.
pub record Draft : Type 0 where
  pub caps : ℕ → ℕ
  pub masks : Level → ℕ → Mask

unfoldable pub read_key : Bytes → Key
unfolding level_key
read_key key =
    if equal key (lit "CAP")
    then cap
    else if equal key (lit "CPUS")
    then cpus
    else level_key (get_topo_level key)

-- The loops over the CPUs of a group, and over the test CPUs.
abbrev pub over : Mask → (ℕ → Mask) → ℕ → Mask
over group m c = if test_cpu c group then group else m c

abbrev pub single : ℕ → (ℕ → Mask) → ℕ → Mask
single n m c = if is_test n c then only c else m c

module _ (host : Host) (n : ℕ) where
  check_group : Mask → Option Mask → Checked (Mask × Mask)
  check_group seen none = wrong bad_cpulist
  check_group seen (some group) =
      if intersects group seen then wrong named_twice else fine (group, seen ++ group)

  -- The group, and the CPUs seen with it.
  unfoldable pub topo_parse_group : Bytes → Mask → Checked (Mask × Mask)
  unfolding check_group
  topo_parse_group list seen = check_group seen (parse_cpus host n list)

  in_cap_range : Option ℤ → Checked ℕ
  in_cap_range none = wrong cap_range
  in_cap_range (some scale) =
      if ltb_ℤ scale (pos 1) || ltb_ℤ (pos capacity_scale) scale
      then wrong cap_range
      else fine (pos_part scale)

  scale_part : Option (Bytes × Bytes) → Checked (Bytes × ℕ)
  scale_part none = wrong cap_form
  scale_part (some (list, val)) = elim (in_cap_range (host.kstrtoint val)) [
    | wrong e ↦ wrong e
    | fine scale ↦ fine (list, scale)
  ]

  -- The cpulist and the scale of a CAP group.
  unfoldable pub cap_group : Bytes → Checked (Bytes × ℕ)
  unfolding in_cap_range scale_part
  cap_group list = scale_part (split_at b':' list)

  unfoldable pub set_caps : Mask → ℕ → (ℕ → ℕ) → ℕ → ℕ
  set_caps group scale caps c = if test_cpu c group then scale else caps c

  unfoldable pub set_masks : Level → Mask → (Level → ℕ → Mask) → Level → ℕ → Mask
  set_masks at group masks l = if same_level l at then over group (masks l) else masks l

  -- The loop over the groups of CAP. What was set before an error stays set.
  unfoldable pub cap_groups : List Bytes → Mask → Draft → Option TopoError × Draft
  cap_groups [] seen d = (none, d)
  cap_groups (list ∷ lists) seen d = elim (cap_group list) [
    | wrong e ↦ (some e, d)
    | fine (cpulist, scale) ↦ elim (topo_parse_group cpulist seen) [
      | wrong e ↦ (some e, d)
      | fine (group, seen') ↦
          cap_groups lists seen' (record d { caps = set_caps group scale d.caps })
    ]
  ]

  -- The same loop for a level.
  unfoldable pub level_groups : Level → List Bytes → Mask → Draft → Option TopoError × Draft
  level_groups at [] seen d = (none, d)
  level_groups at (list ∷ lists) seen d = elim (topo_parse_group list seen) [
    | wrong e ↦ (some e, d)
    | fine (group, seen') ↦
        level_groups at lists seen' (record d { masks = set_masks at group d.masks })
  ]

  -- Every test CPU alone at the level.
  unfoldable pub alone : Level → (Level → ℕ → Mask) → Level → ℕ → Mask
  alone at masks l = if same_level l at then single n (masks l) else masks l

  unfoldable pub set_key : Key → Bytes → Draft → Option TopoError × Draft
  set_key cap groups d = cap_groups (tokens (λ x. x == b'|') groups) [] d
  set_key cpus groups d = (none, d)
  set_key unknown groups d = (some unknown_key, d)
  set_key (level l) groups d =
      level_groups l (tokens (λ x. x == b'|') groups) [] (record d { masks = alone l d.masks })

  unfoldable pub topo_set_key : Bytes → Bytes → Draft → Option TopoError × Draft
  unfolding set_key
  topo_set_key key groups d = set_key (read_key key) groups d
