-- ===== src/Shm/Domains/Runs.antt =====
-- What the domain and the group table come to.
use Prim.Native.Nat.{min}
use kstep.Prelude.{
  ℕ, zero, suc, ◌+◌, ◌-◌, ◌≤◌, ◌≡◌, refl, sym, ap, ◌∙◌, true, false, List, [], ◌∷◌, ◌++◌, length,
  length-append, take, take-of_fits, length-take-le, take-append_self, take-take_append, map, arith,
  Bool-cases, inl, inr, ◌==◌, ltb, if◌then◌else◌,
}
use mathlib.Core.List.{append_assoc, append-nil}
use kstep.Shm.{domains_max, groups_max, ShmDomain, ShmGroup}
use kstep.Shm.Domains.{
  SchedGroup, SchedDomain, Machine, shm_group, shm_domain, add_groups, add_domains, collect_domains,
  shm_collect_domains,
}

module _ (m : Machine) where
  abbrev ring_of : SchedDomain → List SchedGroup
  ring_of sd = sd.first ∷ sd.others

  -- The domains that the CPUs from `cpu` on have, in the order of the walk.
  abbrev on_cpu : ℕ → List SchedDomain → List (ℕ × SchedDomain)
  on_cpu cpu [] = []
  on_cpu cpu (sd ∷ sds) = (cpu, sd) ∷ on_cpu cpu sds

  unfoldable pub walk : ℕ → ℕ → List (ℕ × SchedDomain)
  walk zero cpu = []
  walk (suc n) cpu = on_cpu cpu (m.domains cpu) ++ walk n (cpu + 1)

  -- The first `slots` domains, each with the run that begins where the one before it ends, of as
  -- many groups as there is room for.
  unfoldable pub placed : ℕ → ℕ → List (ℕ × SchedDomain) → List ShmDomain
  placed slots at [] = []
  placed zero at (d ∷ w) = []
  placed (suc slots) at ((cpu, sd) ∷ w) =
      let n = min (length (ring_of sd)) (groups_max - at) in
      shm_domain m cpu sd at n ∷ placed slots (at + n) w

  -- The rings of the first `slots` domains.
  unfoldable pub rings : ℕ → List (ℕ × SchedDomain) → List ShmGroup
  rings slots [] = []
  rings zero (d ∷ w) = []
  rings (suc slots) ((cpu, sd) ∷ w) = map (shm_group m) (ring_of sd) ++ rings slots w

  add_groups-take :
      (ring : List SchedGroup) (gs : List ShmGroup)
      → length gs ≤ groups_max
      → ((add_groups m ring gs).0 ≡ min (length ring) (groups_max - length gs))
        × ((add_groups m ring gs).1 ≡ take groups_max (gs ++ map (shm_group m) ring))
  unfolding add_groups
  add_groups-take [] gs h =
      (omega arith, sym (ap (take groups_max) (append-nil gs) ∙ take-of_fits groups_max gs h))
  add_groups-take (g ∷ ring) gs h = elim (Bool-cases (length gs == groups_max)) [
    | inl full ↦
        let eq : length gs ≡ groups_max = ground (arith, full) in
        rw full (omega arith, sym (take-append_self groups_max gs _ eq))
    | inr room ↦
        let more = length-append gs (shm_group m g ∷ []) in
        let (n, t) =
          add_groups-take ring (gs ++ (shm_group m g ∷ [])) (ground (arith, room, more)) in
        rw room (
          ground (arith, room, n, more),
          t ∙ ap (take groups_max) (append_assoc gs (shm_group m g ∷ []) (map (shm_group m) ring)),
        )
  ]

  add_groups-length :
      (ring : List SchedGroup) (gs : List ShmGroup)
      → length (add_groups m ring gs).1 ≡ length gs + (add_groups m ring gs).0
  unfolding add_groups
  add_groups-length [] gs = omega arith
  add_groups-length (g ∷ ring) gs = elim (Bool-cases (length gs == groups_max)) [
    | inl full ↦ rw full (omega arith)
    | inr room ↦
        let more = length-append gs (shm_group m g ∷ []) in
        rw room (omega (arith, more, add_groups-length ring (gs ++ (shm_group m g ∷ []))))
  ]

  -- The two loops as one over the walk.
  flat : List (ℕ × SchedDomain) → List ShmDomain → List ShmGroup → List ShmDomain × List ShmGroup
  flat [] out groups = (out, groups)
  flat ((cpu, sd) ∷ w) out groups =
      let added = add_groups m (ring_of sd) groups in
      let rest = flat w (out ++ (shm_domain m cpu sd (length groups) added.0 ∷ [])) added.1 in
      if length out == domains_max then (out, groups) else rest

  flat-full :
      (w : List (ℕ × SchedDomain)) (out : List ShmDomain) (gs : List ShmGroup)
      → (length out == domains_max) ≡ true
      → flat w out gs ≡ (out, gs)
  unfolding flat
  flat-full [] out gs h = refl
  flat-full ((cpu, sd) ∷ w) out gs h = rw h

  flat-append :
      (v w : List (ℕ × SchedDomain)) (out : List ShmDomain) (gs : List ShmGroup)
      → flat (v ++ w) out gs ≡ flat w (flat v out gs).0 (flat v out gs).1
  unfolding flat
  flat-append [] w out gs = refl
  flat-append ((cpu, sd) ∷ v) w out gs = elim (Bool-cases (length out == domains_max)) [
    | inl full ↦ rw full (sym (flat-full w out gs full))
    | inr room ↦ rw room (flat-append v w _ _)
  ]

  add_domains-flat :
      (cpu : ℕ) (sds : List SchedDomain) (out : List ShmDomain) (gs : List ShmGroup)
      → add_domains m cpu sds out gs ≡ flat (on_cpu cpu sds) out gs
  unfolding flat add_domains
  add_domains-flat cpu [] out gs = refl
  add_domains-flat cpu (sd ∷ sds) out gs = elim (Bool-cases (length out == domains_max)) [
    | inl full ↦ rw full
    | inr room ↦ rw room (add_domains-flat cpu sds _ _)
  ]

  flat-placed :
      (slots : ℕ) (w : List (ℕ × SchedDomain)) (out : List ShmDomain) (gs : List ShmGroup)
      → slots + length out ≡ domains_max
      → length gs ≤ groups_max
      → ((flat w out gs).0 ≡ out ++ placed slots (length gs) w)
        × ((flat w out gs).1 ≡ take groups_max (gs ++ rings slots w))
  unfolding flat placed rings
  flat-placed slots [] out gs h k = (
    sym (append-nil out),
    sym (ap (take groups_max) (append-nil gs) ∙ take-of_fits groups_max gs k),
  )
  flat-placed zero ((cpu, sd) ∷ w) out gs h k =
      let full : (length out == domains_max) ≡ true = ground arith in
      rw full (
        sym (append-nil out),
        sym (ap (take groups_max) (append-nil gs) ∙ take-of_fits groups_max gs k),
      )
  flat-placed (suc slots) ((cpu, sd) ∷ w) out gs h k =
      let room : (length out == domains_max) ≡ false = ground arith in
      let (n, t) = add_groups-take (ring_of sd) gs k in
      let l = add_groups-length (ring_of sd) gs in
      let d = shm_domain m cpu sd (length gs) (add_groups m (ring_of sd) gs).0 in
      let l' = length-append out (d ∷ []) in
      let short : length (add_groups m (ring_of sd) gs).1 ≤ groups_max =
        rw t (length-take-le groups_max (gs ++ map (shm_group m) (ring_of sd))) in
      let (p, q) =
        flat-placed slots w (out ++ (d ∷ [])) (add_groups m (ring_of sd) gs).1 (omega arith)
          short in
      rw room (
        p
            ∙ append_assoc out (d ∷ []) (placed slots (length (add_groups m (ring_of sd) gs).1) w)
            ∙ rw (l, n),
        q
            ∙ rw t
                (take-take_append groups_max (gs ++ map (shm_group m) (ring_of sd)) (rings slots w))
            ∙ ap (take groups_max)
                (append_assoc gs (map (shm_group m) (ring_of sd)) (rings slots w)),
      )

  placed-le : (slots at : ℕ) (w : List (ℕ × SchedDomain)) → length (placed slots at w) ≤ slots
  unfolding placed
  placed-le slots at [] = omega arith
  placed-le zero at (d ∷ w) = omega arith
  placed-le (suc slots) at ((cpu, sd) ∷ w) =
      omega (arith, placed-le slots (at + min (length (ring_of sd)) (groups_max - at)) w)

  flat-le :
      (w : List (ℕ × SchedDomain)) (out : List ShmDomain) (gs : List ShmGroup)
      → length out ≤ domains_max
      → length (flat w out gs).0 ≤ domains_max
  unfolding flat
  flat-le [] out gs h = h
  flat-le ((cpu, sd) ∷ w) out gs h = elim (Bool-cases (length out == domains_max)) [
    | inl full ↦ rw full h
    | inr room ↦
        let d = shm_domain m cpu sd (length gs) (add_groups m (ring_of sd) gs).0 in
        rw room (flat-le w (out ++ (d ∷ [])) _ (ground (arith, room, length-append out (d ∷ []))))
  ]

  collect-flat :
      (n cpu : ℕ) (out : List ShmDomain) (gs : List ShmGroup)
      → length out ≤ domains_max
      → collect_domains m n cpu out gs ≡ flat (walk n cpu) out gs
  unfolding collect_domains walk
  collect-flat zero cpu out gs h = unfold flat in refl
  collect-flat (suc n) cpu out gs h = elim (Bool-cases (ltb (length out) domains_max)) [
    | inl room ↦
        let own = on_cpu cpu (m.domains cpu) in
        rw (room, add_domains-flat cpu (m.domains cpu) out gs)
          (collect-flat n (cpu + 1) (flat own out gs).0 (flat own out gs).1 (flat-le own out gs h)
            ∙ sym (flat-append own (walk n (cpu + 1)) out gs))
    | inr full ↦ rw full (
        sym (
          flat-full (on_cpu cpu (m.domains cpu) ++ walk n (cpu + 1)) out gs
            (ground (arith, full, h))))
  ]

  -- Both tables in full: the domains are the first 160 of the walk over the CPUs, each with the run
  -- of groups that begins where the one before it ends, of as many as there is room for; the groups
  -- are the first 1024 of the rings of these domains, one ring after the other.
  pub collect_domains-placed :
      (n : ℕ)
      → ((shm_collect_domains m n).0 ≡ placed domains_max 0 (walk n 1))
        × ((shm_collect_domains m n).1 ≡ take groups_max (rings domains_max (walk n 1)))
  unfolding shm_collect_domains
  collect_domains-placed n =
      rw (collect-flat n 1 [] [] (omega arith))
        (flat-placed domains_max (walk n 1) [] [] refl (omega arith))

  -- Neither table is ever more than full.
  pub collect_domains-le :
      (n : ℕ)
      → (length (shm_collect_domains m n).0 ≤ domains_max)
        × (length (shm_collect_domains m n).1 ≤ groups_max)
  collect_domains-le n =
      let (d, g) = collect_domains-placed n in
      rw (d, g)
        (
          placed-le domains_max 0 (walk n 1),
          length-take-le groups_max (rings domains_max (walk n 1)),
        )
