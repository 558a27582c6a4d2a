-- ===== src/Shm/Cgroups.antt =====
-- The cgroup table of kmod/shm.c with the group entities: `shm_group_entities` and
-- `shm_collect_cgroups`.
pub mod Tables
use kstep.Prelude.{
  ℕ, zero, suc, ◌+◌, ◌*◌, ◌/◌, ◌%◌, ◌^◌, Bool, true, false, not, List, [], ◌∷◌, ◌++◌, length,
  Option, none, some, ltb, ◌==◌, if◌then◌else◌,
}
use kstep.Text.{Bytes}
use kstep.Shm.{cgroups_max, entities_max, u32, ShmCgroup, ShmEntity}
use kstep.Shm.Entities.{SchedEntity, shm_se}

-- What is read of a `struct task_group`: whether it has a parent, its shares after
-- `scale_load_down`, and its entity on each CPU.
pub record TaskGroup : Type 0 where
  pub has_parent : Bool
  pub shares : ℕ
  pub se : ℕ → Option SchedEntity

-- A cgroup as the walk meets it; `path` is what `cgroup_path` gives for a buffer of 40 bytes,
-- `effective_cpus` the first word of the mask, if it has the controller.
pub record Cgroup : Type 0 where
  pub online : Bool
  pub path : Option Bytes
  pub tg : Option TaskGroup
  pub effective_cpus : Option ℕ

group_entity : ℕ → ℕ → Option SchedEntity → List ShmEntity → List ShmEntity
group_entity cgroup cpu none ents = ents
group_entity cgroup cpu (some se) ents =
    if length ents == entities_max
    then ents
    else ents ++ (record { se = shm_se se; task = 0; cgroup = cgroup; cpu = cpu } ∷ [])

-- The CPUs from `cpu` on, as many as the first argument says.
unfoldable pub group_entities :
    ℕ → ℕ → ℕ → (ℕ → Option SchedEntity) → List ShmEntity → List ShmEntity
unfolding group_entity
group_entities zero cpu cgroup se ents = ents
group_entities (suc n) cpu cgroup se ents =
    group_entities n (cpu + 1) cgroup se (group_entity cgroup cpu (se cpu) ents)

-- `ents` is the table up to `*nents`.
unfoldable pub shm_group_entities : ℕ → ℕ → Option TaskGroup → List ShmEntity → List ShmEntity
shm_group_entities ncpus cgroup none ents = ents
shm_group_entities ncpus cgroup (some tg) ents =
    if not tg.has_parent then ents else group_entities ncpus 1 cgroup tg.se ents

abbrev pub clamp : ℕ → ℕ → ℕ → ℕ
clamp n lo hi = if ltb n lo then lo else if ltb hi n then hi else n

-- cpu.weight: CGROUP_WEIGHT_DFL is 100, the least weight 1 and the greatest 10000.
unfoldable pub weight_of : Option TaskGroup → ℕ
weight_of none = 0
weight_of (some tg) =
    if tg.has_parent then clamp ((tg.shares * 100 + 512) % 2 ^ 64 / 1024) 1 10000 else 0

abbrev pub cpus_of : Option ℕ → ℕ
cpus_of none = 0
cpus_of (some mask) = mask

abbrev pub cgroup_record : Cgroup → Bytes → ShmCgroup
cgroup_record c path = record {
  cpus = cpus_of c.effective_cpus;
  weight = weight_of c.tg;
  path = path;
}

-- A cgroup that is not online, or whose path does not fit, is passed over.
collect_path :
    ℕ → Cgroup → Option Bytes → List ShmCgroup → List ShmEntity → List ShmCgroup × List ShmEntity
collect_path ncpus c none out ents = (out, ents)
collect_path ncpus c (some path) out ents =
    (out ++ (cgroup_record c path ∷ []), shm_group_entities ncpus (length out) c.tg ents)

-- The loop over the cgroups, with both tables up to their counts.
unfoldable pub collect :
    ℕ → List Cgroup → List ShmCgroup → List ShmEntity → List ShmCgroup × List ShmEntity
unfolding collect_path
collect ncpus [] out ents = (out, ents)
collect ncpus (c ∷ cs) out ents =
    let step = collect_path ncpus c (if c.online then c.path else none) out ents in
    let rest = collect ncpus cs step.0 step.1 in
    if length out == cgroups_max then (out, ents) else rest

-- `shm_collect_cgroups`; there is no walk where the root is not found.
unfoldable pub shm_collect_cgroups : ℕ → Option (List Cgroup) → List ShmCgroup × List ShmEntity
shm_collect_cgroups ncpus none = ([], [])
shm_collect_cgroups ncpus (some tree) = collect ncpus tree [] []
