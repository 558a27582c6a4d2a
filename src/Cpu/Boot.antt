-- ===== src/Cpu/Boot.antt =====
-- From the boot on: `kstep_cpu_init` of kmod/cpu.c, and the specs of a session.
use kstep.Prelude.{
  >>=-eq-ok, panic-not_ok, ok-inj, Bool-cases, inl, inr, ℕ, ◌-◌, ◌≤◌, ◌<◌, ◌≡◌, refl, ap, ◌∙◌, true,
  false, List, [], ◌∷◌, arith, ltb, if◌then◌else◌, Outcome, ok, panic, too_many_cpus, ◌>>=◌,
}
use kstep.Text.{Bytes}
use kstep.Cpu.Topo.{Level, Host, Topo}
use kstep.Cpu.Topo.Init.{Knows, Shares}
use kstep.Cpu.Spec.{topo_set}
use kstep.Cpu.Spec.Topology.{IsIsolated, boot-IsIsolated, topo_set-IsIsolated, empty_spec-all}
use kstep.Cpu.Slice.Boot.{Scales}
use kstep.Cpu.Spec.Returns.{topo_set-returns, topo_set-Scales}

-- KSTEP_NR_CPUS
abbrev pub nr_cpus : ℕ
nr_cpus = 32

-- What the empty spec answers is not read.
unfoldable pub cpu_init : Host → Topo → Outcome Topo
cpu_init host st =
    if ltb nr_cpus host.online
    then panic too_many_cpus
    else (topo_set host [] (record st { test_ncpus = host.online - 1 }) >>= λ r. ok r.1)

-- One spec after another, each accepted or refused.
unfoldable pub specs_set : Host → List Bytes → Topo → Outcome Topo
specs_set host [] st = ok st
specs_set host (spec ∷ specs) st = topo_set host spec st >>= λ r. specs_set host specs r.1

unfoldable pub boot_session : Host → List Bytes → Topo → Outcome Topo
unfolding specs_set cpu_init
boot_session host specs st = cpu_init host st >>= λ st'. specs_set host specs st'

module _ (host : Host) (knows : Knows host.levels) (settable : host.cap_settable ≡ true) where
  specs_set-IsIsolated :
      (specs : List Bytes) (st : Topo)
      → IsIsolated host st
      → Scales host.online st.tunables
      → (st' : Topo) × (specs_set host specs st ≡ ok st') × IsIsolated host st'
  unfolding specs_set
  specs_set-IsIsolated [] st i t = (st, refl, i)
  specs_set-IsIsolated (spec ∷ specs) st i t =
      let (r, a, e) = topo_set-returns host spec st knows settable t in
      let (st', e', i') =
        specs_set-IsIsolated specs a (topo_set-IsIsolated host spec st i e)
          (topo_set-Scales host spec st t e) in
      (st', ap (λ o. o >>= λ x. specs_set host specs x.1) e ∙ e', i')

  -- On a machine of 2 to 32 CPUs whose own masks split the CPUs at every level, whose levels the
  -- module knows, whose capacities can be set and whose kernel scales the tunables of the fair
  -- class by the formula: the boot and any specs after it, accepted or refused, come to an answer,
  -- CPU 0 and the CPUs that are not test CPUs then stand alone at every level, and there are 1 to
  -- 31 test CPUs, fewer than the machine's CPUs.
  pub boot_session-IsIsolated :
      (specs : List Bytes) (st : Topo)
      → 1 < host.online
      → host.online ≤ nr_cpus
      → st.ours ≡ false
      → Scales host.online st.tunables
      → ((l : Level) → Shares host.online (host.machine_mask l))
      → (st' : Topo) × (boot_session host specs st ≡ ok st')
        × IsIsolated host st'
        × (st'.test_ncpus ≤ 31)
  unfolding boot_session
  boot_session-IsIsolated specs st some_test fits fresh t shares =
      let begun : Topo = record st { test_ncpus = host.online - 1 } in
      let (r, a, e) = topo_set-returns host [] begun knows settable t in
      let start = boot-IsIsolated host begun some_test fresh shares e in
      let (st', e', i) = specs_set-IsIsolated specs a start (topo_set-Scales host [] begun t e) in
      let room : ltb nr_cpus host.online ≡ false = ground (arith, fits) in
      (
        st',
        ap
              (λ b.
                (if b then panic too_many_cpus else (topo_set host [] begun >>= λ x. ok x.1))
                >>= λ x. specs_set host specs x)
              room
            ∙ ap (λ o. (o >>= λ x. ok x.1) >>= λ x. specs_set host specs x) e
            ∙ e',
        i,
        omega (arith, i.in_range, fits),
      )

module _ (host : Host) where
  -- Behind the boot every CPU but the controller's is a test CPU.
  pub cpu_init-IsIsolated :
      (st : Topo) {a : Topo}
      → 1 < host.online
      → st.ours ≡ false
      → ((l : Level) → Shares host.online (host.machine_mask l))
      → cpu_init host st ≡ ok a
      → IsIsolated host a × (a.test_ncpus ≡ host.online - 1)
  unfolding cpu_init
  cpu_init-IsIsolated st {a} some_test fresh shares e =
      elim (Bool-cases (ltb nr_cpus host.online)) [
        | inl over ↦ absurd (panic-not_ok (rw over at e))
        | inr fits ↦
            let begun : Topo = record st { test_ncpus = host.online - 1 } in
            let (r, er, last) = >>=-eq-ok (topo_set host [] begun) (λ x. ok x.1) (rw fits at e) in
            let is_a : r.1 ≡ a = ok-inj last in
            (
              rw (← is_a) (boot-IsIsolated host begun some_test fresh shares er),
              rw (← is_a) (empty_spec-all host begun er),
            )
      ]
