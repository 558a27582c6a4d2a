-- ===== src/Cpu/Spec/Applied.antt =====
-- What a spec without an error goes through once it is parsed.
use kstep.Prelude.{ℕ, none, Option, ok, ◌≡◌, sym, ap, ◌∙◌, >>=-eq-ok, ok-inj}
use kstep.Cpu.Slice.{Tunables, set_slice_scaling}
use kstep.Cpu.Topo.{TopoError, Host, Topo}
use kstep.Cpu.Key.{Draft}
use kstep.Cpu.Spec.{set_cap_all, rebuild, set_slices, apply_draft}

module _ (host : Host) (n : ℕ) (st : Topo) (d : Draft) where
  -- The capacities `a` that were set, and the tunables behind the rebuild.
  pub record IsApplied (r : Option TopoError) (st' : Topo) : Type 0 where
    pub a : Topo
    pub t : Tunables
    pub capped : set_cap_all host n d.caps (record st { masks = d.masks }) ≡ ok a
    pub scaled : set_slice_scaling host.online a.test_ncpus a.tunables ≡ ok t
    pub state : st' ≡ record (rebuild host a) { tunables = t }
    pub no_error : r ≡ none

  pub apply_draft-IsApplied :
      {r : Option TopoError} {st' : Topo}
      → apply_draft host n st (none, d) ≡ ok (r, st')
      → IsApplied r st'
  unfolding apply_draft set_slices rebuild
  apply_draft-IsApplied {r} {st'} e =
      let (a, ea, eb) = >>=-eq-ok (set_cap_all host n d.caps (record st { masks = d.masks })) _ e in
      let (b, ec, last) = >>=-eq-ok (set_slices host (rebuild host a)) _ eb in
      let (t, et, built) = >>=-eq-ok (set_slice_scaling host.online a.test_ncpus a.tunables) _ ec in
      record {
        a = a;
        t = t;
        capped = ea;
        scaled = et;
        state = ap (λ (x : Option TopoError × Topo). x.1) (sym (ok-inj last)) ∙ sym (ok-inj built);
        no_error = ap (λ (x : Option TopoError × Topo). x.0) (sym (ok-inj last));
      }
