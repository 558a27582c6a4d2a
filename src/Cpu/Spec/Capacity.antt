-- ===== src/Cpu/Spec/Capacity.antt =====
-- The capacities that a spec leaves.
use kstep.Prelude.{
  ℕ, ◌≤◌, ◌<◌, true, List, [], ◌∷◌, Option, none, some, ◌≡◌, refl, sym, ◌∙◌, arith, ◌==◌,
  Option-cases, inl, inr, ok, ok-inj,
}
use kstep.Text.{Bytes, tokens, cut}
use kstep.Cpu.Mask.{Mask}
use kstep.Cpu.Topo.{Level, TopoError, Checked-cases, fine, Host, Topo, is_test, capacity_scale}
use kstep.Cpu.Topo.Init.{SameKernel, topo_init-parts, topo_init-SameKernel}
use kstep.Cpu.Key.{
  Key, cap, cpus, unknown, level, read_key, Draft, set_caps, cap_group, cap_groups,
  topo_parse_group, level_groups, set_key, topo_set_key, alone,
}
use kstep.Cpu.Spec.{
  entries, topo_cpus, key_entry, set_entry, set_entries, set_cap_all, rebuild, apply_draft,
  topo_set,
}
use kstep.Cpu.Spec.Applied.{apply_draft-IsApplied}
use kstep.Cpu.Spec.Topology.{topo_set-parts, topo_set-refused, apply_draft-parts}

-- A capacity as the kernel knows it.
abbrev pub InScale : ℕ → Type 0
InScale v = (0 < v) × (v ≤ capacity_scale)

record AllInScale (d : Draft) : Type 0 where
  at : (c : ℕ) → InScale (d.caps c)

some-ne-none : {x : TopoError} → ◌≡◌ {A = Option TopoError} (some x) none → ⊥
some-ne-none h = cc

module _ (host : Host) (n : ℕ) where
  cap_group-InScale :
      (list : Bytes) {l : Bytes} {v : ℕ} → cap_group host n list ≡ fine (l, v) → InScale v
  unfolding cap_group
  cap_group-InScale list e = ground arith

  set_caps-AllInScale :
      (g : Mask) (v : ℕ) (d : Draft)
      → InScale v
      → AllInScale d
      → AllInScale (record d { caps = set_caps host n g v d.caps })
  unfolding set_caps
  set_caps-AllInScale g v d s h = record { at = λ c. ground (arith, h.at c) }

  cap_groups-AllInScale :
      (lists : List Bytes) (seen : Mask) (d : Draft)
      → AllInScale d
      → AllInScale (cap_groups host n lists seen d).1
  unfolding cap_groups
  cap_groups-AllInScale [] seen d h = h
  cap_groups-AllInScale (list ∷ lists) seen d h = elim (Checked-cases (cap_group host n list)) [
    | inl (x, e) ↦ rw (e, cap_groups) h
    | inr ((cpulist, v), e) ↦ elim (Checked-cases (topo_parse_group host n cpulist seen)) [
      | inl (x, e') ↦ rw (e, e', cap_groups) h
      | inr ((g, s), e') ↦
          rw (e, e', cap_groups)
            (cap_groups-AllInScale lists s (record d { caps = set_caps host n g v d.caps })
              (set_caps-AllInScale g v d (cap_group-InScale list e) h))
    ]
  ]

  level_groups-caps :
      (at : Level) (lists : List Bytes) (seen : Mask) (d : Draft)
      → (level_groups host n at lists seen d).1.caps ≡ d.caps
  unfolding level_groups
  level_groups-caps at [] seen d = refl
  level_groups-caps at (list ∷ lists) seen d =
      elim (Checked-cases (topo_parse_group host n list seen)) [
        | inl (x, e) ↦ rw (e, level_groups)
        | inr ((g, s), e) ↦ rw (e, level_groups) (level_groups-caps at lists s _)
      ]

  set_key-AllInScale :
      (k : Key) (groups : Bytes) (d : Draft)
      → AllInScale d
      → AllInScale (set_key host n k groups d).1
  unfolding set_key
  set_key-AllInScale cap groups d h = cap_groups-AllInScale (tokens (λ x. x == b'|') groups) [] d h
  set_key-AllInScale cpus groups d h = h
  set_key-AllInScale unknown groups d h = h
  set_key-AllInScale (level at) groups d h = record {
    at = λ c.
        rw
          (level_groups-caps at (tokens (λ x. x == b'|') groups) []
            (record d { masks = alone host n at d.masks }))
          (h.at c);
  }

  key_entry-AllInScale :
      (p : Bytes × Option Bytes) (d : Draft) → AllInScale d → AllInScale (key_entry host n p d).1
  unfolding key_entry topo_set_key
  key_entry-AllInScale (key, none) d h = h
  key_entry-AllInScale (key, some []) d h = h
  key_entry-AllInScale (key, some (x ∷ xs)) d h = set_key-AllInScale (read_key key) (x ∷ xs) d h

  set_entry-AllInScale :
      (entry : Bytes) (d : Draft) → AllInScale d → AllInScale (set_entry host n entry d).1
  unfolding set_entry
  set_entry-AllInScale [] d h = h
  set_entry-AllInScale (x ∷ xs) d h = key_entry-AllInScale (cut (λ c. c == b'=') (x ∷ xs)) d h

  set_entries-AllInScale :
      (es : List Bytes) (d : Draft) → AllInScale d → AllInScale (set_entries host n es d).1
  unfolding set_entries
  set_entries-AllInScale [] d h = h
  set_entries-AllInScale (entry ∷ es) d h = elim (Option-cases (set_entry host n entry d).0) [
    | inl e ↦ rw (e, set_entries) (set_entries-AllInScale es _ (set_entry-AllInScale entry d h))
    | inr (x, e) ↦ rw (e, set_entries) (set_entry-AllInScale entry d h)
  ]

  apply_draft-applied :
      (st : Topo) (p : Option TopoError × Draft) {st' : Topo} (c : ℕ)
      → host.cap_settable ≡ true
      → AllInScale p.1
      → apply_draft host n st p ≡ ok (none, st')
      → is_test n c ≡ true
      → InScale (st'.capacity c)
  unfolding apply_draft set_cap_all rebuild
  apply_draft-applied st (some x, d) c s h e t = absurd (ground arith)
  apply_draft-applied st (none, d) c s h e t =
      let q = apply_draft-IsApplied host n st d e in
      let capped = rw s at q.capped in
      let same = ok-inj capped in rw (q.state, ← same) (ground (arith, h.at c))

  apply_draft-refused :
      (st : Topo) (p : Option TopoError × Draft) {st' : Topo} (x : TopoError)
      → apply_draft host n st p ≡ ok (some x, st')
      → SameKernel st st'
  unfolding apply_draft set_cap_all rebuild
  apply_draft-refused st (some y, d) x e = ground arith
  apply_draft-refused st (none, d) x e =
      absurd (some-ne-none ((apply_draft-IsApplied host n st d e).no_error))

SameKernel-trans : (a b c : Topo) → SameKernel a b → SameKernel b c → SameKernel a c
SameKernel-trans a b c h k = (k.0 ∙ h.0, k.1 ∙ h.1, k.2 ∙ h.2, k.3 ∙ h.3)

module _ (host : Host) (spec : Bytes) (st : Topo) {st' : Topo} where
  answered :
      {r : Option TopoError}
      → host.cap_settable ≡ true
      → topo_set host spec st ≡ ok (r, st')
      → (r ≡ none → (c : ℕ) → is_test st'.test_ncpus c ≡ true → InScale (st'.capacity c))
        × ((x : TopoError) → r ≡ some x → SameKernel st st')
  answered s e = elim (Option-cases (topo_cpus host spec)) [
    | inl bad ↦
        let (same, why) = topo_set-refused host spec st bad e in
        (λ z c t. absurd (some-ne-none (sym why ∙ z)), λ x z. rw same (refl, refl, refl, refl))
    | inr (n, good) ↦
        let (a, ia, ea) = topo_set-parts host spec st n good e in
        let d : Draft = record { caps = λ _. capacity_scale; masks = a.masks } in
        let es = set_entries host n (entries spec) d in
        let full : AllInScale d = record { at = λ c. omega arith } in
        let kept = topo_init-SameKernel host (record st { test_ncpus = n }) ia in
        let counted = (apply_draft-parts host n a es ea).1 ∙ (topo_init-parts host _ ia).0 in
        (
          λ z c t.
              apply_draft-applied host n a es c s
                (set_entries-AllInScale host n (entries spec) d full) (rw z at ea)
                (rw counted at t),
          λ x z. SameKernel-trans st a st' kept (apply_draft-refused host n a es x (rw z at ea)),
        )
  ]

  -- After an applied spec every test CPU has a capacity in 1..1024, where the kernel lets capacities
  -- be set.
  pub topo_set-capacity :
      (c : ℕ)
      → host.cap_settable ≡ true
      → topo_set host spec st ≡ ok (none, st')
      → is_test st'.test_ncpus c ≡ true
      → InScale (st'.capacity c)
  topo_set-capacity c s e t = (answered s e).0 refl c t

  -- A refused spec leaves the capacities, the sibling masks, the masks of the last rebuild and the
  -- tunables of the fair class as they were, where the kernel lets capacities be set.
  pub topo_set-SameKernel :
      (x : TopoError)
      → host.cap_settable ≡ true
      → topo_set host spec st ≡ ok (some x, st')
      → SameKernel st st'
  topo_set-SameKernel x s e = (answered s e).1 x refl
