-- ===== src/Shm/Cgroups/Tables.antt =====
-- The two tables that the walk over the cgroups fills.
use kstep.Prelude.{
  ℕ, zero, suc, ◌+◌, ◌*◌, ◌≤◌, ◌<◌, ◌≡◌, List, [], ◌∷◌, ◌++◌, length, length-append, Option, none,
  some, refl, arith, Bool-cases, inl, inr, if◌then◌else◌, ◌==◌,
}
use kstep.Text.{Bytes}
use kstep.Shm.{cpus_max, cgroups_max, entities_max, ShmCgroup, ShmEntity}
use kstep.Shm.Entities.{SchedEntity}
use kstep.Shm.Cgroups.{
  TaskGroup, Cgroup, group_entity, group_entities, shm_group_entities, cgroup_record, collect_path,
  collect, shm_collect_cgroups,
}

-- The entities are cgroups' entities, of the first `k` rows.
abbrev pub RowsBelow : ℕ → List ShmEntity → Type 0
RowsBelow k [] = Unit {0}
RowsBelow k (e ∷ ents) = (e.task ≡ 0) × (e.cgroup < k) × RowsBelow k ents

RowsBelow-append :
    (k : ℕ) (xs : List ShmEntity) (e : ShmEntity)
    → RowsBelow k xs
    → e.task ≡ 0
    → e.cgroup < k
    → RowsBelow k (xs ++ (e ∷ []))
RowsBelow-append k [] e r t c = (t, c, tt)
RowsBelow-append k (x ∷ xs) e r t c = (r.0, r.1, RowsBelow-append k xs e r.2 t c)

RowsBelow-mono : (k l : ℕ) (xs : List ShmEntity) → k ≤ l → RowsBelow k xs → RowsBelow l xs
RowsBelow-mono k l [] h r = tt
RowsBelow-mono k l (x ∷ xs) h r = (r.0, omega arith, RowsBelow-mono k l xs h r.2)

-- Both tables within their sizes, and in step.
pub record Tables (cgroups : List ShmCgroup) (ents : List ShmEntity) : Type 0 where
  pub fit : length cgroups ≤ cgroups_max
  pub per_cpu : length ents ≤ cpus_max * length cgroups
  pub rows : RowsBelow (length cgroups) ents

group_entity-rows :
    (k cgroup cpu : ℕ) (se : Option SchedEntity) (ents : List ShmEntity)
    → cgroup < k
    → RowsBelow k ents
    → RowsBelow k (group_entity cgroup cpu se ents)
      × (length (group_entity cgroup cpu se ents) ≤ length ents + 1)
unfolding group_entity
group_entity-rows k cgroup cpu none ents h r = (r, omega arith)
group_entity-rows k cgroup cpu (some se) ents h r =
    elim (Bool-cases (length ents == entities_max)) [
      | inl full ↦ rw full (r, omega arith)
      | inr room ↦
          rw room (RowsBelow-append k ents _ r refl h, omega (arith, length-append {0} ents))
    ]

group_entities-rows :
    (n cpu k cgroup : ℕ) (se : ℕ → Option SchedEntity) (ents : List ShmEntity)
    → cgroup < k
    → RowsBelow k ents
    → RowsBelow k (group_entities n cpu cgroup se ents)
      × (length (group_entities n cpu cgroup se ents) ≤ length ents + n)
unfolding group_entities
group_entities-rows zero cpu k cgroup se ents h r = (r, omega arith)
group_entities-rows (suc n) cpu k cgroup se ents h r =
    let (r', l) = group_entity-rows k cgroup cpu (se cpu) ents h r in
    let (r'', l') =
      group_entities-rows n (cpu + 1) k cgroup se (group_entity cgroup cpu (se cpu) ents) h r' in
    (r'', omega (arith, l, l'))

shm_group_entities-rows :
    (n k cgroup : ℕ) (tg : Option TaskGroup) (ents : List ShmEntity)
    → cgroup < k
    → RowsBelow k ents
    → RowsBelow k (shm_group_entities n cgroup tg ents)
      × (length (shm_group_entities n cgroup tg ents) ≤ length ents + n)
unfolding shm_group_entities
shm_group_entities-rows n k cgroup none ents h r = (r, omega arith)
shm_group_entities-rows n k cgroup (some tg) ents h r = elim (Bool-cases tg.has_parent) [
  | inl own ↦ rw own (group_entities-rows n 1 k cgroup tg.se ents h r)
  | inr root ↦ rw root (r, omega arith)
]

collect_path-Tables :
    (n : ℕ) (c : Cgroup) (path : Option Bytes) (out : List ShmCgroup) (ents : List ShmEntity)
    → n ≤ cpus_max
    → length out < cgroups_max
    → Tables out ents
    → Tables (collect_path n c path out ents).0 (collect_path n c path out ents).1
unfolding collect_path
collect_path-Tables n c none out ents h room t = t
collect_path-Tables n c (some path) out ents h room t =
    let one_more = length-append {0} out (cgroup_record c path ∷ []) in
    let (r, l) =
      shm_group_entities-rows n (suc (length out)) (length out) c.tg ents (omega arith)
        (RowsBelow-mono (length out) (suc (length out)) ents (omega arith) t.rows) in
    record {
      fit = omega (arith, one_more);
      per_cpu = omega (arith, one_more, l, t.per_cpu);
      rows = RowsBelow-mono (suc (length out)) _ _ (omega (arith, one_more)) r;
    }

collect-Tables :
    (n : ℕ) (tree : List Cgroup) (out : List ShmCgroup) (ents : List ShmEntity)
    → n ≤ cpus_max
    → Tables out ents
    → Tables (collect n tree out ents).0 (collect n tree out ents).1
unfolding collect
collect-Tables n [] out ents h t = t
collect-Tables n (c ∷ tree) out ents h t = elim (Bool-cases (length out == cgroups_max)) [
  | inl full ↦ rw full t
  | inr room ↦
      let step =
        collect_path-Tables n c (if c.online then c.path else none) out ents h
          (ground (arith, room, t.fit)) t in
      rw room (collect-Tables n tree _ _ h step)
]

-- On at most 32 CPUs, the walk over any cgroups fills at most 16 rows, and at most 32 entities for
-- each row that it filled; each of these is a cgroup's, and its cgroup is a row that was filled.
pub collect_cgroups-Tables :
    (n : ℕ) (tree : Option (List Cgroup))
    → n ≤ cpus_max
    → Tables (shm_collect_cgroups n tree).0 (shm_collect_cgroups n tree).1
unfolding shm_collect_cgroups
collect_cgroups-Tables n none h = record { fit = omega arith; per_cpu = omega arith; rows = tt }
collect_cgroups-Tables n (some tree) h =
    collect-Tables n tree [] [] h (record { fit = omega arith; per_cpu = omega arith; rows = tt })
