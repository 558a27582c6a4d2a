-- ===== src/Shm/Update/Classes.antt =====
-- Which tasks have which records after an update.
use kstep.Prelude.{
  ℕ, suc, ◌+◌, ◌≤◌, ◌<◌, ◌≡◌, refl, sym, ap, ◌∙◌, Bool, true, false, not, ◌&&◌, ◌||◌, List, [], ◌∷◌,
  ◌++◌, map, length, length-append, take, arith, ltb, ◌==◌, if◌then◌else◌,
}
use mathlib.Core.List.{map-append, append_assoc, append-nil}
use kstep.Shm.{cpus_max, tasks_max, entities_max, Shm, ShmCgroup, ShmEntity, ShmTask, ShmRtEntity}
use kstep.Shm.Entities.{shm_rt_entity}
use kstep.Shm.Cgroups.{shm_collect_cgroups}
use kstep.Shm.Cgroups.Tables.{RowsBelow, collect_cgroups-Tables}
use kstep.Shm.Update.{
  Proc, Sched, Filled, by_class, shm_task, add_task, add_tasks, filled, shm_update,
}
use kstep.Shm.Update.Tables.{take-overwrite}

-- The numbers of the tasks that have not exited and that `p` holds of.
unfoldable pub numbers : (Proc → Bool) → ℕ → List Proc → List ℕ
numbers p i [] = []
numbers p i (t ∷ tasks) =
    let rest = numbers p (suc i) tasks in if not t.exited && p t then suc i ∷ rest else rest

-- The numbers of the tasks that have an entity; a cgroup's has 0.
unfoldable pub members : List ShmEntity → List ℕ
members [] = []
members (e ∷ ents) = if e.task == 0 then members ents else e.task ∷ members ents

members-append : (xs ys : List ShmEntity) → members (xs ++ ys) ≡ members xs ++ members ys
unfolding members
members-append [] ys = refl
members-append (x ∷ xs) ys = ground (arith, members-append xs ys)

members-rows : (k : ℕ) (ents : List ShmEntity) → RowsBelow k ents → members ents ≡ []
unfolding members
members-rows k [] r = refl
members-rows k (e ∷ ents) r = rw (r.0) (members-rows k ents r.2)

abbrev one_if : Bool → ℕ → List ℕ
one_if b n = if b then n ∷ [] else []

one_if-append :
    (b : Bool) (n : ℕ) (rest : List ℕ) → (if b then n ∷ rest else rest) ≡ one_if b n ++ rest
one_if-append true n rest = refl
one_if-append false n rest = refl

abbrev task_numbers : List ShmTask → List ℕ
task_numbers = map (λ t. t.task)

abbrev rt_numbers : List ShmRtEntity → List ℕ
rt_numbers = map (λ r. r.task)

-- The records that one task brings.
record Added (number : ℕ) (live rt fair : Bool) (out out' : Filled) : Type 0 where
  task : task_numbers out'.task ≡ task_numbers out.task ++ one_if (live && true) number
  rt_entity : rt_numbers out'.rt_entity ≡ rt_numbers out.rt_entity ++ one_if (live && rt) number
  entity : members out'.entity ≡ members out.entity ++ one_if (live && (not rt && fair)) number
  one_more : length out'.task ≤ length out.task + 1
  at_most : length out'.entity ≤ length out.entity + 1

by_class-Added :
    (n : ℕ) (rt fair : Bool) (r : ShmRtEntity) (e : ShmEntity) (t : ShmTask) (out : Filled)
    → r.task ≡ suc n
    → e.task ≡ suc n
    → t.task ≡ suc n
    → let own = by_class rt fair r e out in
      Added (suc n) true rt fair out (record own { task = own.task ++ (t ∷ []) })
unfolding by_class members
by_class-Added n true fair r e t out hr he ht = record {
  task = map-append _ out.task (t ∷ []) ∙ rw ht;
  rt_entity = map-append _ out.rt_entity (r ∷ []) ∙ rw hr;
  entity = sym (append-nil (members out.entity));
  one_more = omega (arith, length-append out.task (t ∷ []));
  at_most = omega arith;
}
by_class-Added n false true r e t out hr he ht = record {
  task = map-append _ out.task (t ∷ []) ∙ rw ht;
  rt_entity = sym (append-nil (rt_numbers out.rt_entity));
  entity =
      let z : (suc n == 0) ≡ false = ground arith in
      members-append out.entity (e ∷ []) ∙ rw (he, z);
  one_more = omega (arith, length-append out.task (t ∷ []));
  at_most = omega (arith, length-append out.entity (e ∷ []));
}
by_class-Added n false false r e t out hr he ht = record {
  task = map-append _ out.task (t ∷ []) ∙ rw ht;
  rt_entity = sym (append-nil (rt_numbers out.rt_entity));
  entity = sym (append-nil (members out.entity));
  one_more = omega (arith, length-append out.task (t ∷ []));
  at_most = omega arith;
}

exited-Added :
    (n : ℕ) (exited rt fair : Bool) (out own : Filled)
    → Added n true rt fair out own
    → Added n (not exited) rt fair out (if exited then out else own)
exited-Added n false rt fair out own a = a
exited-Added n true rt fair out own a = record {
  task = sym (append-nil (task_numbers out.task));
  rt_entity = sym (append-nil (rt_numbers out.rt_entity));
  entity = sym (append-nil (members out.entity));
  one_more = omega arith;
  at_most = omega arith;
}

joined :
    (old now : List ℕ) (n : ℕ) (b : Bool) (rest : List ℕ)
    → now ≡ old ++ one_if b n
    → now ++ rest ≡ old ++ (if b then n ∷ rest else rest)
joined old now n b rest h = rw (h, one_if-append b n rest) (append_assoc old (one_if b n) rest)

and-true : (a b : Bool) → b ≡ true → (a && b) ≡ a
and-true true b h = h
and-true false b h = refl

module _ (s : Sched) where
  abbrev any_task : Proc → Bool
  any_task p = true

  abbrev pub is_rt : Proc → Bool
  is_rt p = s.rt_policy p.policy

  abbrev pub is_fair : Proc → Bool
  is_fair p = not (s.rt_policy p.policy) && (s.fair_policy p.policy || s.idle_policy p.policy)

  module _ (cgroups : List ShmCgroup) where
    add_task-Added :
        (n : ℕ) (p : Proc) (out : Filled)
        → length out.entity < entities_max
        → Added
            (suc n)
            (not p.exited)
            (s.rt_policy p.policy)
            (s.fair_policy p.policy || s.idle_policy p.policy)
            out
            (add_task s cgroups (suc n) p out)
    unfolding add_task shm_task shm_rt_entity
    add_task-Added n p out room =
        let fits : ltb (length out.entity) entities_max ≡ true = ground arith in
        let same = and-true (s.fair_policy p.policy || s.idle_policy p.policy) _ fits in
        rw same (
          exited-Added (suc n) p.exited (s.rt_policy p.policy) _ out _
            (by_class-Added n (s.rt_policy p.policy) _ _ _ _ out refl refl refl))

    -- What the tasks from index `i` on bring, where there is room for them all.
    record Listed (i : ℕ) (tasks : List Proc) (out out' : Filled) : Type 0 where
      task : task_numbers out'.task ≡ task_numbers out.task ++ numbers any_task i tasks
      rt_entity : rt_numbers out'.rt_entity ≡ rt_numbers out.rt_entity ++ numbers is_rt i tasks
      entity : members out'.entity ≡ members out.entity ++ numbers is_fair i tasks

    add_tasks-Listed :
        (i : ℕ) (tasks : List Proc) (out : Filled)
        → length out.task + length tasks ≤ tasks_max
        → length out.entity + length tasks ≤ entities_max
        → Listed i tasks out (add_tasks s cgroups i tasks out)
    unfolding add_tasks numbers
    add_tasks-Listed i [] out h k = record {
      task = sym (append-nil (task_numbers out.task));
      rt_entity = sym (append-nil (rt_numbers out.rt_entity));
      entity = sym (append-nil (members out.entity));
    }
    add_tasks-Listed i (p ∷ tasks) out h k =
        let a = add_task-Added i p out (omega arith) in
        let out' = add_task s cgroups (suc i) p out in
        let l =
          add_tasks-Listed (suc i) tasks out' (omega (arith, a.one_more))
            (omega (arith, a.at_most)) in
        let room : ltb (length out.task) tasks_max ≡ true = ground arith in
        rw room (record {
          task = l.task ∙ joined (task_numbers out.task) _ _ (not p.exited && true) _ a.task;
          rt_entity =
              l.rt_entity
              ∙ joined (rt_numbers out.rt_entity) _ _ (not p.exited && is_rt p) _ a.rt_entity;
          entity =
              l.entity ∙ joined (members out.entity) _ _ (not p.exited && is_fair p) _ a.entity;
        })

  -- For at most 64 tasks on at most 32 CPUs, what a reader finds up to the counts after an update:
  -- the tasks that have not exited, by their numbers and in order; in the real-time table those of
  -- them under a real-time policy; and among the entities, besides the cgroups' own, each of the
  -- others that is under a fair or the idle policy. No record is left out for want of room.
  pub shm_update-classes :
      (tasks : List Proc) (shm : Shm)
      → length tasks ≤ tasks_max
      → s.test_ncpus ≤ cpus_max
      → let shm' = shm_update s tasks shm in
        (task_numbers (take shm'.hdr.ntasks shm'.task) ≡ numbers (λ p. true) 0 tasks)
        × (rt_numbers (take shm'.hdr.nrt_entities shm'.rt_entity) ≡ numbers is_rt 0 tasks)
        × (members (take shm'.hdr.nentities shm'.entity) ≡ numbers is_fair 0 tasks)
  unfolding shm_update filled
  shm_update-classes tasks shm h k =
      let tables = shm_collect_cgroups s.test_ncpus s.tree in
      let t = collect_cgroups-Tables s.test_ncpus s.tree k in
      let start : Filled = record { task = []; rt_entity = []; entity = tables.1 } in
      let out = add_tasks s tables.0 0 tasks start in
      let l =
        add_tasks-Listed tables.0 0 tasks start (omega arith) (omega (arith, t.fit, t.per_cpu)) in
      let no_members = members-rows (length tables.0) tables.1 t.rows in
      (
        ap task_numbers (take-overwrite out.task shm.task) ∙ l.task,
        ap rt_numbers (take-overwrite out.rt_entity shm.rt_entity) ∙ l.rt_entity,
        ap members (take-overwrite out.entity shm.entity)
            ∙ (l.entity ∙ ap (λ e. e ++ numbers is_fair 0 tasks) no_members),
      )
