-- ===== src/Cpu/Spec/Returns.antt =====
-- A spec always comes to an answer.
use kstep.Prelude.{
  ℕ, true, Option, none, some, ok, ◌≡◌, refl, ap, ◌∙◌, Option-cases, inl, inr, ok-inj,
  if◌then◌else◌,
}
use kstep.Text.{Bytes}
use kstep.Cpu.Slice.Boot.{Scales, scaling-Scales, scaling-looked_up}
use kstep.Cpu.Topo.{TopoError, Host, Topo, is_test, capacity_scale}
use kstep.Cpu.Topo.Init.{Knows, topo_init-returns, topo_init-SameKernel}
use kstep.Cpu.Key.{Draft}
use kstep.Cpu.Spec.{
  entries, topo_cpus, set_entries, set_cap_all, rebuild, set_slices, apply_draft, set_for, topo_set,
}
use kstep.Cpu.Spec.Applied.{apply_draft-IsApplied}
use kstep.Cpu.Spec.Topology.{topo_set-parts, topo_set-refused}

module _ (host : Host) where
  slices-returns :
      (st : Topo) → Scales host.online st.tunables → (st' : Topo) × (set_slices host st ≡ ok st')
  unfolding set_slices
  slices-returns st s =
      let (t, e) = scaling-Scales host.online st.test_ncpus st.tunables s in
      (record st { tunables = t }, rw e refl)

  apply_draft-returns :
      (n : ℕ) (st : Topo) (p : Option TopoError × Draft)
      → host.cap_settable ≡ true
      → Scales host.online st.tunables
      → (st' : Topo) × (apply_draft host n st p ≡ ok (p.0, st'))
  unfolding apply_draft set_cap_all rebuild set_slices slices-returns
  apply_draft-returns n st (some e, d) s t = (record st { masks = d.masks }, refl)
  apply_draft-returns n st (none, d) s t =
      let capped : Topo = record st {
        masks = d.masks;
        capacity = λ c. if is_test n c then d.caps c else st.capacity c;
      } in
      let (st', e) = slices-returns (rebuild host capped) t in (st', rw (s, e) refl)

  -- Where the kernel lets capacities be set and scales its tunables by the formula, and the module
  -- knows every level of its table, every spec is answered, with a state and at most one error; no
  -- text of a spec stops the machine.
  pub topo_set-returns :
      (spec : Bytes) (st : Topo)
      → Knows host.levels
      → host.cap_settable ≡ true
      → Scales host.online st.tunables
      → (r : Option TopoError) × (st' : Topo) × (topo_set host spec st ≡ ok (r, st'))
  unfolding topo_set set_for
  topo_set-returns spec st k s t = elim (Option-cases (topo_cpus host spec)) [
    | inl bad ↦ rw (bad, set_for) (_, _, refl)
    | inr (n, good) ↦
        let begun : Topo = record st { test_ncpus = n } in
        let (ready, e) = topo_init-returns host begun k in
        let kept = (topo_init-SameKernel host begun e).3 in
        let d : Draft = record { caps = λ _. capacity_scale; masks = ready.masks } in
        let p = set_entries host n (entries spec) d in
        let (st', h) = apply_draft-returns n ready p s (rw kept t) in
        (p.0, st', rw (good, set_for, e) h)
  ]

  applied-Scales :
      (n : ℕ) (st : Topo) (p : Option TopoError × Draft) {r : Option TopoError} {st' : Topo}
      → Scales host.online st.tunables
      → apply_draft host n st p ≡ ok (r, st')
      → Scales host.online st'.tunables
  unfolding apply_draft
  applied-Scales n st (some x, d) {r} {st'} t e =
      let same : st.tunables ≡ st'.tunables =
        ap (λ (y : Option TopoError × Topo). y.1.tunables) (ok-inj e) in
      rw (← same) t
  applied-Scales n st (none, d) t e =
      let q = apply_draft-IsApplied host n st d e in
      let looked = scaling-looked_up host.online q.a.test_ncpus q.a.tunables q.scaled in
      inl (ap (λ (x : Topo). x.tunables.looked_up) q.state ∙ looked)

  -- That stays so behind every spec.
  pub topo_set-Scales :
      (spec : Bytes) (st : Topo) {r : Option TopoError} {st' : Topo}
      → Scales host.online st.tunables
      → topo_set host spec st ≡ ok (r, st')
      → Scales host.online st'.tunables
  topo_set-Scales spec st t e = elim (Option-cases (topo_cpus host spec)) [
    | inl bad ↦ rw ((topo_set-refused host spec st bad e).0) t
    | inr (n, good) ↦
        let (a, ia, ea) = topo_set-parts host spec st n good e in
        let kept = (topo_init-SameKernel host (record st { test_ncpus = n }) ia).3 in
        applied-Scales n a _ (rw kept t) ea
  ]
