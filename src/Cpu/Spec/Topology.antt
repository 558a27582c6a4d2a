-- ===== src/Cpu/Spec/Topology.antt =====
-- The topology that a spec leaves, on every outcome.
use kstep.Prelude.{
  ℕ, ◌-◌, ◌<◌, true, false, List, [], ◌∷◌, Option, none, some, ◌≡◌, refl, ◌∙◌, arith, ◌==◌,
  Bool-cases, Option-cases, inl, inr, Outcome, ok, >>=-eq-ok,
}
use mathlib.Core.Path.{fun_ext}
use kstep.Prelude.Int.{ℤ}
use kstep.Text.{Bytes, strstarts, lit, cut, tokens, strscpy}
use kstep.Cpu.Mask.{Mask, and_mask, test-and}
use kstep.Cpu.Topo.{
  Level, cpus_range, TopoError, Host, Topo, is_test, topo_mask, isolate, topo_init, capacity_scale,
}
use kstep.Cpu.Topo.Init.{has_level, Shares, topo_init-masks, topo_init-parts}
use kstep.Cpu.Key.{Draft}
use kstep.Cpu.Key.Splits.{Splits, set_key-Splits}
use kstep.Cpu.Spec.Applied.{apply_draft-IsApplied}
use kstep.Cpu.Spec.{
  drop_bytes, entries, topo_cpus, cpus_of, in_cpus_range, key_entry, set_entry, set_entries,
  set_cap_all, rebuild, apply_draft, set_for, topo_set,
}

-- The invariant of the topology: the test CPUs are 1..K with K < N, and at every level of the
-- kernel's table the masks split the CPUs, with CPU 0 and every spare CPU alone.
pub record IsIsolated (host : Host) (st : Topo) : Type 0 where
  pub some_test : 0 < st.test_ncpus
  pub in_range : st.test_ncpus < host.online
  pub ours : st.ours ≡ true
  pub splits :
      (l : Level) → has_level host.levels l ≡ true → Splits host.online st.test_ncpus (st.masks l)

none-ne-some : {A : Type 0} {a : A} → none ≡ some a → ⊥
none-ne-some h = cc

module _ (host : Host) where
  in_cpus_range-bounds :
      (o : Option ℤ) {k : ℕ}
      → 1 < host.online
      → in_cpus_range host o ≡ some k
      → (0 < k) × (k < host.online)
  unfolding in_cpus_range
  in_cpus_range-bounds o h e = ground arith

  cpus_of-bounds :
      (es : List Bytes) (m : ℕ) {n : ℕ}
      → 0 < m
      → m < host.online
      → cpus_of host es m ≡ some n
      → (0 < n) × (n < host.online)
  unfolding cpus_of
  cpus_of-bounds [] m a b e = ground arith
  cpus_of-bounds (x ∷ es) m a b e = elim (Bool-cases (strstarts x (lit "CPUS="))) [
    | inr other ↦ cpus_of-bounds es m a b (rw (other, cpus_of) at e)
    | inl named ↦ elim (Option-cases (in_cpus_range host (host.kstrtoint (drop_bytes 5 x)))) [
      | inl bad ↦ absurd (none-ne-some (rw (named, bad, cpus_of) at e))
      | inr (k, good) ↦
          let (lo, hi) = in_cpus_range-bounds _ (omega arith) good in
          cpus_of-bounds es k lo hi (rw (named, good, cpus_of) at e)
    ]
  ]

  -- CPUS=K is within 1..N-1, and so is what holds where a spec says nothing.
  topo_cpus_bounds :
      (spec : Bytes) {n : ℕ}
      → 1 < host.online
      → topo_cpus host spec ≡ some n
      → (0 < n) × (n < host.online)
  unfolding topo_cpus
  topo_cpus_bounds spec h e =
      cpus_of-bounds (entries spec) (host.online - 1) (omega arith) (omega arith) e

  isolate-Splits :
      (st : Topo) (l : Level) (m : ℕ → Mask)
      → st.test_ncpus < host.online
      → Shares host.online (topo_mask host st l)
      → Splits host.online st.test_ncpus (isolate host st l m)
  isolate-Splits st l m lt s =
      let test = is_test st.test_ncpus in
      record {
        own = λ c h. ground (arith, s.own c h, test-and c (topo_mask host st l c) test);
        shared = λ c d h t. ground (arith, s.shared c d h, test-and d (topo_mask host st l c) test);
        inside = λ c d h t. ground (arith, test-and d (topo_mask host st l c) test);
        spare = λ c h t. ground arith;
      }

  key_entry-Splits :
      (n : ℕ) (p : Bytes × Option Bytes) (d : Draft) (l : Level)
      → Splits host.online n (d.masks l)
      → Splits host.online n ((key_entry host n p d).1.masks l)
  unfolding key_entry
  key_entry-Splits n (key, none) d l s = s
  key_entry-Splits n (key, some []) d l s = s
  key_entry-Splits n (key, some (x ∷ xs)) d l s =
      set_key-Splits host host.online n l key (x ∷ xs) d s

  set_entry-Splits :
      (n : ℕ) (entry : Bytes) (d : Draft) (l : Level)
      → Splits host.online n (d.masks l)
      → Splits host.online n ((set_entry host n entry d).1.masks l)
  unfolding set_entry
  set_entry-Splits n [] d l s = s
  set_entry-Splits n (x ∷ xs) d l s = key_entry-Splits n (cut (λ c. c == b'=') (x ∷ xs)) d l s

  set_entries-Splits :
      (n : ℕ) (es : List Bytes) (d : Draft) (l : Level)
      → Splits host.online n (d.masks l)
      → Splits host.online n ((set_entries host n es d).1.masks l)
  unfolding set_entries
  set_entries-Splits n [] d l p = p
  set_entries-Splits n (entry ∷ es) d l p = elim (Option-cases (set_entry host n entry d).0) [
    | inl e ↦
        rw (e, set_entries)
          (set_entries-Splits n es (set_entry host n entry d).1 l (set_entry-Splits n entry d l p))
    | inr (x, e) ↦ rw (e, set_entries) (set_entry-Splits n entry d l p)
  ]

  init-Splits :
      (st : Topo) {st' : Topo} (l : Level)
      → st.test_ncpus < host.online
      → Shares host.online (topo_mask host st l)
      → topo_init host st ≡ ok st'
      → has_level host.levels l ≡ true
      → Splits host.online st.test_ncpus (st'.masks l)
  init-Splits st l lt s e h =
      rw (fun_ext λ c. topo_init-masks host st l c e h) (isolate-Splits st l (st.masks l) lt s)

  -- What `apply_draft` leaves of the masks.
  pub apply_draft-parts :
      (n : ℕ) (st : Topo) (p : Option TopoError × Draft) {r : Option TopoError} {st' : Topo}
      → apply_draft host n st p ≡ ok (r, st')
      → (st'.masks ≡ p.1.masks)
        × (st'.test_ncpus ≡ st.test_ncpus)
        × (st'.ours ≡ st.ours)
        × (r ≡ p.0)
        × (r ≡ none → st'.built ≡ p.1.masks)
  unfolding apply_draft set_cap_all rebuild
  apply_draft-parts n st (some x, d) e = ground arith
  apply_draft-parts n st (none, d) e =
      let q = apply_draft-IsApplied host n st d e in
      let capped = q.capped in
      let state = q.state in let no_error = q.no_error in rw state (ground arith)

  -- What a spec with a good CPU count goes through.
  pub topo_set-parts :
      (spec : Bytes) (st : Topo) (n : ℕ) {r : Option TopoError} {st' : Topo}
      → topo_cpus host spec ≡ some n
      → topo_set host spec st ≡ ok (r, st')
      → (a : Topo) × (topo_init host (record st { test_ncpus = n }) ≡ ok a)
        × (apply_draft host n a (
              set_entries host n
                (entries spec)
                (record { caps = λ _. capacity_scale; masks = a.masks }))
            ≡ ok (r, st'))
  unfolding topo_set set_for
  topo_set-parts spec st n c e =
      >>=-eq-ok (topo_init host (record st { test_ncpus = n })) _ (rw (c, set_for) at e)

  applied-IsIsolated :
      (spec : Bytes) (st : Topo) (n : ℕ) {r : Option TopoError} {st' : Topo}
      → 1 < host.online
      → ((l : Level) → has_level host.levels l ≡ true → Shares host.online (topo_mask host st l))
      → topo_cpus host spec ≡ some n
      → topo_set host spec st ≡ ok (r, st')
      → IsIsolated host st'
  applied-IsIsolated spec st n h s c e =
      let (a, ia, ea) = topo_set-parts spec st n c e in
      let d : Draft = record { caps = λ _. capacity_scale; masks = a.masks } in
      let q = apply_draft-parts n a (set_entries host n (entries spec) d) ea in
      let (lo, hi) = topo_cpus_bounds spec h c in
      let (same_n, is_ours) = topo_init-parts host (record st { test_ncpus = n }) ia in
      record {
        some_test = omega (arith, q.1, same_n);
        in_range = omega (arith, q.1, same_n);
        ours = q.2 ∙ is_ours;
        splits = λ l hl.
            rw (q.0, q.1, same_n)
              (set_entries-Splits n (entries spec) d l
                (init-Splits (record st { test_ncpus = n }) l hi (s l hl) ia hl));
      }

  empty_cpus : topo_cpus host [] ≡ some (host.online - 1)
  unfolding topo_cpus cpus_of tokens strscpy strstarts
  empty_cpus = refl

  empty_entries : (n : ℕ) (d : Draft) → (set_entries host n (entries []) d).1 ≡ d
  unfolding set_entries set_entry tokens strscpy
  empty_entries n d = refl

  Splits-Shares : {n : ℕ} {m : ℕ → Mask} → Splits host.online n m → Shares host.online m
  Splits-Shares s = record { own = s.own; shared = s.shared }

  -- A bad CPU count is refused before anything is changed.
  pub topo_set-refused :
      (spec : Bytes) (st : Topo) {r : Option TopoError} {st' : Topo}
      → topo_cpus host spec ≡ none
      → topo_set host spec st ≡ ok (r, st')
      → (st' ≡ st) × (r ≡ some cpus_range)
  unfolding topo_set set_for
  topo_set-refused spec st {r} {st'} bad e = later (rw (bad, set_for) at e)
    where
      later :
          {x r : Option TopoError} {a b : Topo}
          → ◌≡◌ {A = Outcome (Option TopoError × Topo)} (ok (x, a)) (ok (r, b))
          → (b ≡ a) × (r ≡ x)
      later h = ground arith

  -- The empty spec makes every CPU but the controller's a test CPU.
  pub empty_spec-all :
      (st : Topo) {r : Option TopoError} {st' : Topo}
      → topo_set host [] st ≡ ok (r, st')
      → st'.test_ncpus ≡ host.online - 1
  empty_spec-all st e =
      let n = host.online - 1 in
      let (a, ia, ea) = topo_set-parts [] st n empty_cpus e in
      let d : Draft = record { caps = λ _. capacity_scale; masks = a.masks } in
      (apply_draft-parts n a (set_entries host n (entries []) d) ea).1
      ∙ (topo_init-parts host (record st { test_ncpus = n }) ia).0

  -- At boot, before the masks are the module's own, the empty spec isolates CPU 0, if the machine's
  -- masks split the CPUs.
  pub boot-IsIsolated :
      (st : Topo) {r : Option TopoError} {st' : Topo}
      → 1 < host.online
      → st.ours ≡ false
      → ((l : Level) → Shares host.online (host.machine_mask l))
      → topo_set host [] st ≡ ok (r, st')
      → IsIsolated host st'
  boot-IsIsolated st h o s e =
      applied-IsIsolated [] st (host.online - 1) h (λ l hl. rw o (s l)) empty_cpus e

  -- Every later spec keeps the invariant, whatever its text is and whether it is applied or refused.
  pub topo_set-IsIsolated :
      (spec : Bytes) (st : Topo) {r : Option TopoError} {st' : Topo}
      → IsIsolated host st
      → topo_set host spec st ≡ ok (r, st')
      → IsIsolated host st'
  topo_set-IsIsolated spec st v e = elim (Option-cases (topo_cpus host spec)) [
    | inl bad ↦ rw (topo_set-refused spec st bad e).0 v
    | inr (n, good) ↦
        applied-IsIsolated spec st n (omega (arith, v.some_test, v.in_range))
          (λ l hl. rw v.ours (Splits-Shares (v.splits l hl))) good e
  ]

  -- The empty spec after another one does not bring the machine's own topology back: what the
  -- domains are then built from is what the last spec left, applied or refused, cut to the test CPUs.
  pub empty_spec-built :
      (st : Topo) {st' : Topo} (l : Level) (c : ℕ)
      → IsIsolated host st
      → topo_set host [] st ≡ ok (none, st')
      → has_level host.levels l ≡ true
      → is_test (host.online - 1) c ≡ true
      → st'.built l c ≡ and_mask (st.masks l c) (is_test (host.online - 1))
  empty_spec-built st l c v e h t =
      let n = host.online - 1 in
      let (a, ia, ea) = topo_set-parts [] st n empty_cpus e in
      let d : Draft = record { caps = λ _. capacity_scale; masks = a.masks } in
      let q = apply_draft-parts n a (set_entries host n (entries []) d) ea in
      let from = topo_init-masks host (record st { test_ncpus = n }) l c ia h in
      rw (q.4 refl, empty_entries n d, from) (ground (arith, v.ours, v.in_range))
