-- ===== src/Shm/Update/Tables.antt =====
-- The tables of the region keep their sizes, and a reader finds the new records in them.
use kstep.Prelude.{
  ℕ, zero, suc, ◌+◌, ◌≤◌, ◌<◌, ◌≡◌, refl, ap, ◌∙◌, Bool, true, false, ◌&&◌, List, [], ◌∷◌, ◌++◌,
  map, length, length-append, take, take-zero, arith, Bool-cases, inl, inr, ltb, if◌then◌else◌,
}
use kstep.Shm.{
  cpus_max, tasks_max, cgroups_max, entities_max, domains_max, groups_max, Shm, ShmCgroup,
  ShmEntity, ShmTask, ShmRtEntity, overwrite,
}
use kstep.Shm.Cgroups.{shm_collect_cgroups}
use kstep.Shm.Cgroups.Tables.{collect_cgroups-Tables}
use kstep.Shm.Domains.Runs.{collect_domains-le}
use kstep.Shm.Update.{
  Proc, Sched, Filled, cpus_from, shm_cpu, shm_cfs, shm_rt, by_class, add_task, add_tasks, filled,
  shm_update,
}

module _ {ℓ} {A : Type ℓ} where
  pub length-overwrite :
      (xs ys : List A) → length xs ≤ length ys → length (overwrite xs ys) ≡ length ys
  length-overwrite [] ys h = refl
  length-overwrite (x ∷ xs) [] h = absurd (omega arith)
  length-overwrite (x ∷ xs) (y ∷ ys) h = ap suc (length-overwrite xs ys (omega arith))

  pub take-overwrite : (xs ys : List A) → take (length xs) (overwrite xs ys) ≡ xs
  take-overwrite [] ys = take-zero ys
  take-overwrite (x ∷ xs) [] = ap (λ t. x ∷ t) (take-overwrite xs [])
  take-overwrite (x ∷ xs) (y ∷ ys) = ap (λ t. x ∷ t) (take-overwrite xs ys)

length-cpus : {B : Type 0} (f : ℕ → B) (n cpu : ℕ) → length (map f (cpus_from n cpu)) ≡ n
unfolding cpus_from
length-cpus f zero cpu = refl
length-cpus f (suc n) cpu = ap suc (length-cpus f n (cpu + 1))

-- Each table has its slots.
pub record IsSized (shm : Shm) : Type 0 where
  pub cpu : length shm.cpu ≡ cpus_max
  pub cfs : length shm.cfs ≡ cpus_max
  pub rt : length shm.rt ≡ cpus_max
  pub task : length shm.task ≡ tasks_max
  pub rt_entity : length shm.rt_entity ≡ tasks_max
  pub cgroup : length shm.cgroup ≡ cgroups_max
  pub entity : length shm.entity ≡ entities_max
  pub domain : length shm.domain ≡ domains_max
  pub group : length shm.group ≡ groups_max

-- Each count is within its table.
pub record IsCounted (shm : Shm) : Type 0 where
  pub ncpus : shm.hdr.ncpus ≤ cpus_max
  pub ntasks : shm.hdr.ntasks ≤ tasks_max
  pub nrt_entities : shm.hdr.nrt_entities ≤ shm.hdr.ntasks
  pub ncgroups : shm.hdr.ncgroups ≤ cgroups_max
  pub nentities : shm.hdr.nentities ≤ entities_max
  pub ndomains : shm.hdr.ndomains ≤ domains_max
  pub ngroups : shm.hdr.ngroups ≤ groups_max

record Fits (out : Filled) : Type 0 where
  task : length out.task ≤ tasks_max
  rt_entity : length out.rt_entity ≤ length out.task
  entity : length out.entity ≤ entities_max

pub if-Keeps {ℓ κ} :
    {A : Type ℓ} (P : A → Type κ) (b : Bool) (x y : A) → P x → P y → P (if b then x else y)
if-Keeps P true x y p q = p
if-Keeps P false x y p q = q

by_class-Fits :
    (rt fair : Bool) (r : ShmRtEntity) (e : ShmEntity) (t : ShmTask) (out : Filled)
    → (fair ≡ true → length out.entity < entities_max)
    → length out.task < tasks_max
    → Fits out
    → let own = by_class rt fair r e out in Fits (record own { task = own.task ++ (t ∷ []) })
unfolding by_class
by_class-Fits true fair r e t out h room f = record {
  task = omega (arith, length-append out.task (t ∷ []));
  rt_entity =
      omega
        (arith, length-append out.task (t ∷ []), f.rt_entity, length-append out.rt_entity (r ∷ []));
  entity = f.entity;
}
by_class-Fits false true r e t out h room f = record {
  task = omega (arith, length-append out.task (t ∷ []));
  rt_entity = omega (arith, length-append out.task (t ∷ []), f.rt_entity);
  entity = omega (arith, h refl, length-append out.entity (e ∷ []));
}
by_class-Fits false false r e t out h room f = record {
  task = omega (arith, length-append out.task (t ∷ []));
  rt_entity = omega (arith, length-append out.task (t ∷ []), f.rt_entity);
  entity = f.entity;
}

pub and-room : (a : Bool) (n m : ℕ) → (a && ltb n m) ≡ true → n < m
and-room a n m h = ground arith

module _ (s : Sched) (cgroups : List ShmCgroup) where
  add_task-Fits :
      (number : ℕ) (p : Proc) (out : Filled)
      → length out.task < tasks_max
      → Fits out
      → Fits (add_task s cgroups number p out)
  unfolding add_task
  add_task-Fits number p out room f =
      if-Keeps Fits p.exited _ _ f (by_class-Fits _ _ _ _ _ out (and-room _ _ _) room f)

  add_tasks-Fits :
      (i : ℕ) (tasks : List Proc) (out : Filled) → Fits out → Fits (add_tasks s cgroups i tasks out)
  unfolding add_tasks
  add_tasks-Fits i [] out f = f
  add_tasks-Fits i (p ∷ tasks) out f = elim (Bool-cases (ltb (length out.task) tasks_max)) [
    | inl room ↦
        let step = add_task-Fits (suc i) p out (ground (arith, room)) f in
        rw room (add_tasks-Fits (suc i) tasks (add_task s cgroups (suc i) p out) step)
    | inr full ↦ rw full f
  ]

filled-Fits : (s : Sched) (tasks : List Proc) → s.test_ncpus ≤ cpus_max → Fits (filled s tasks)
unfolding filled
filled-Fits s tasks h =
    let t = collect_cgroups-Tables s.test_ncpus s.tree h in
    add_tasks-Fits s (shm_collect_cgroups s.test_ncpus s.tree).0 0 tasks _ (record {
      task = omega arith;
      rt_entity = omega arith;
      entity = omega (arith, t.fit, t.per_cpu);
    })

-- On at most 32 CPUs, an update for any tasks writes no table past its end, and leaves counts that
-- are within the tables, with no more real-time records than tasks.
pub shm_update-IsSized :
    (s : Sched) (tasks : List Proc) (shm : Shm)
    → s.test_ncpus ≤ cpus_max
    → IsSized shm
    → IsSized (shm_update s tasks shm) × IsCounted (shm_update s tasks shm)
unfolding shm_update
shm_update-IsSized s tasks shm h z =
    let out = filled s tasks in
    let f = filled-Fits s tasks h in
    let t = collect_cgroups-Tables s.test_ncpus s.tree h in
    let (d, g) = collect_domains-le s.machine s.test_ncpus in
    (
      record {
        cpu =
            length-overwrite _ shm.cpu
              (omega (arith, length-cpus (shm_cpu s tasks) s.test_ncpus 1, z.cpu))
            ∙ z.cpu;
        cfs =
            length-overwrite _ shm.cfs
              (omega (arith, length-cpus (shm_cfs s) s.test_ncpus 1, z.cfs))
            ∙ z.cfs;
        rt =
            length-overwrite _ shm.rt (omega (arith, length-cpus (shm_rt s) s.test_ncpus 1, z.rt))
            ∙ z.rt;
        task = length-overwrite _ shm.task (omega (arith, f.task, z.task)) ∙ z.task;
        rt_entity =
            length-overwrite _ shm.rt_entity (omega (arith, f.task, f.rt_entity, z.rt_entity))
            ∙ z.rt_entity;
        cgroup = length-overwrite _ shm.cgroup (omega (arith, t.fit, z.cgroup)) ∙ z.cgroup;
        entity = length-overwrite _ shm.entity (omega (arith, f.entity, z.entity)) ∙ z.entity;
        domain = length-overwrite _ shm.domain (omega (arith, d, z.domain)) ∙ z.domain;
        group = length-overwrite _ shm.group (omega (arith, g, z.group)) ∙ z.group;
      },
      record {
        ncpus = h;
        ntasks = f.task;
        nrt_entities = f.rt_entity;
        ncgroups = t.fit;
        nentities = f.entity;
        ndomains = d;
        ngroups = g;
      },
    )
