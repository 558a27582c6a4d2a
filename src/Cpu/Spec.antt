-- ===== src/Cpu/Spec.antt =====
-- A whole spec: `topo_cpus`, `set_cap` and `kstep_topo_set` of kmod/cpu.c, with the scaling of
-- the slices that stands in Cpu/Slice.antt.
pub mod Applied
pub mod Topology
pub mod Returns
pub mod Capacity
use kstep.Prelude.{
  ℕ, zero, suc, ◌-◌, Bool, true, false, not, ◌&&◌, ◌||◌, List, [], ◌∷◌, Option, none, some, Outcome,
  ok, panic, cap_unsupported, ◌>>=◌, ltb, ◌==◌, if◌then◌else◌,
}
use kstep.Prelude.Int.{ℤ, pos, pos_part, ltb_ℤ}
use kstep.Text.{Bytes, lit, equal, strstarts, cut, tokens, strscpy}
use kstep.Cpu.Slice.{set_slice_scaling}
use kstep.Cpu.Mask.{Mask}
use kstep.Cpu.Topo.{
  Level, TopoError, cpus_range, expected_key, Host, Topo, capacity_scale, cpu_spec_len, is_test,
  topo_init, Level.smt,
}
use kstep.Cpu.Key.{Draft, topo_set_key}

drop_bytes : ℕ → Bytes → Bytes
drop_bytes zero s = s
drop_bytes (suc k) [] = []
drop_bytes (suc k) (x ∷ xs) = drop_bytes k xs

-- `strscpy` into the buffer of CPU_SPEC_LEN bytes, and the entries that `strsep` cuts it into.
abbrev entries : Bytes → List Bytes
entries spec = tokens (λ x. x == b';') (strscpy cpu_spec_len spec)

module _ (host : Host) where
  in_cpus_range : Option ℤ → Option ℕ
  in_cpus_range none = none
  in_cpus_range (some n) =
      if ltb_ℤ n (pos 1) || ltb_ℤ (pos (host.online - 1)) n then none else some (pos_part n)

  cpus_of : List Bytes → ℕ → Option ℕ
  cpus_of [] n = some n
  cpus_of (entry ∷ es) n =
      if not (strstarts entry (lit "CPUS="))
      then cpus_of es n
      else elim (in_cpus_range (host.kstrtoint (drop_bytes 5 entry))) [
        | none ↦ none
        | some n' ↦ cpus_of es n'
      ]

  -- -1 is `none`.
  unfoldable pub topo_cpus : Bytes → Option ℕ
  unfolding cpus_of in_cpus_range drop_bytes
  topo_cpus spec = cpus_of (entries spec) (host.online - 1)

  key_entry : ℕ → Bytes × Option Bytes → Draft → Option TopoError × Draft
  key_entry n (key, none) d = (some expected_key, d)
  key_entry n (key, some []) d = (some expected_key, d)
  key_entry n (key, some (x ∷ xs)) d = topo_set_key host n key (x ∷ xs) d

  set_entry : ℕ → Bytes → Draft → Option TopoError × Draft
  set_entry n [] d = (none, d)
  set_entry n (x ∷ xs) d = key_entry n (cut (λ c. c == b'=') (x ∷ xs)) d

  -- The loop over the entries, up to the first error.
  unfoldable pub set_entries : ℕ → List Bytes → Draft → Option TopoError × Draft
  unfolding key_entry set_entry
  set_entries n [] d = (none, d)
  set_entries n (entry ∷ es) d =
      let (e, d') = set_entry n entry d in
      elim e [ some e ↦ (some e, d') | none ↦ set_entries n es d' ]

  -- `set_cap` for the CPUs 1..n; where the kernel has no way to set a capacity it panics unless
  -- every one is the full scale.
  all_full : ℕ → (ℕ → ℕ) → Bool
  all_full zero caps = true
  all_full (suc c) caps = caps (suc c) == capacity_scale && all_full c caps

  unfoldable pub set_cap_all : ℕ → (ℕ → ℕ) → Topo → Outcome Topo
  unfolding all_full
  set_cap_all n caps st =
      if host.cap_settable
      then ok (record st { capacity = λ c. if is_test n c then caps c else st.capacity c })
      else if all_full n caps
      then ok st
      else panic cap_unsupported

  -- The sibling masks of the online CPUs, and the rebuild, which reads the masks.
  unfoldable pub rebuild : Topo → Topo
  rebuild st = record st {
    sibling = λ c. if ltb c host.online then st.masks smt c else st.sibling c;
    built = st.masks;
  }

  -- `set_slice_scaling`, on the machine's CPUs and those that are now test CPUs.
  unfoldable pub set_slices : Topo → Outcome Topo
  set_slices st = do
    t ← set_slice_scaling host.online st.test_ncpus st.tunables
    ok (record st { tunables = t })

  pub apply_draft : ℕ → Topo → Option TopoError × Draft → Outcome (Option TopoError × Topo)
  apply_draft n st (some e, d) = ok (some e, record st { masks = d.masks })
  apply_draft n st (none, d) = do
    st' ← set_cap_all n d.caps (record st { masks = d.masks })
    st'' ← set_slices (rebuild st')
    ok (none, st'')

  set_for : Bytes → Topo → Option ℕ → Outcome (Option TopoError × Topo)
  set_for spec st none = ok (some cpus_range, st)
  set_for spec st (some n) = do
    st' ← topo_init host (record st { test_ncpus = n })
    let draft =
        set_entries n (entries spec) (record { caps = λ _. capacity_scale; masks = st'.masks })
    apply_draft n st' draft

  -- NULL, or what is wrong with the spec, and what the call leaves.
  unfoldable pub topo_set : Bytes → Topo → Outcome (Option TopoError × Topo)
  unfolding rebuild set_slices apply_draft set_for
  topo_set spec st = set_for spec st (topo_cpus spec)
