-- ===== src/Cpu/Key/Splits.antt =====
-- The masks of a level split the online CPUs into groups, whatever groups a spec names.
use kstep.Prelude.{
  ℕ, ◌<◌, true, false, List, [], ◌∷◌, ◌++◌, some, ◌≡◌, refl, sym, ◌∙◌, arith, ◌==◌, Bool-cases, inl,
  inr,
}
use kstep.Text.{Bytes, tokens}
use kstep.Cpu.Mask.{Mask, test_cpu, intersects, only, test-append, test-intersects, le-last}
use kstep.Cpu.Topo.{Level, same_level, Checked-cases, fine, Host, is_test, parse_cpus}
use kstep.Cpu.Key.{
  Draft, over, topo_parse_group, set_masks, alone, level_groups, topo_set_key, cap_groups,
  cap_group, set_caps, set_key, Key, cap, cpus, unknown, level, read_key,
}

-- Every online CPU is in its own mask, the CPUs of a mask share it, a test CPU's mask holds test
-- CPUs only, and every other CPU is alone.
pub record Splits (online n : ℕ) (m : ℕ → Mask) : Type 0 where
  pub own : (c : ℕ) → c < online → test_cpu c (m c) ≡ true
  pub shared : (c d : ℕ) → c < online → test_cpu d (m c) ≡ true → m d ≡ m c
  pub inside : (c d : ℕ) → is_test n c ≡ true → test_cpu d (m c) ≡ true → is_test n d ≡ true
  pub spare : (c : ℕ) → c < online → is_test n c ≡ false → m c ≡ only c

-- What the groups not yet read may still take.
pub record IsFresh (n : ℕ) (seen : Mask) (m : ℕ → Mask) : Type 0 where
  pub single : (c : ℕ) → is_test n c ≡ true → test_cpu c seen ≡ false → m c ≡ only c

module _ (online n : ℕ) (group seen : Mask) (m : ℕ → Mask) (s : Splits online n m)
    (f : IsFresh n seen m) (tests : (c : ℕ) → test_cpu c group ≡ true → is_test n c ≡ true)
    (apart : intersects group seen ≡ false) where
  outside :
      (c d : ℕ)
      → c < online
      → test_cpu c group ≡ false
      → test_cpu d (m c) ≡ true
      → test_cpu d group ≡ false
  outside c d hc g t = elim (Bool-cases (test_cpu d group)) [
    | inr e ↦ e
    | inl e ↦
        let alone_d : m d ≡ only d =
          f.single d (tests d e) (test-intersects d group seen apart e) in
        let same : m c ≡ only d = sym (s.shared c d hc t) ∙ alone_d in
        let at : test_cpu c (only d) ≡ true = rw same at (s.own c hc) in ground arith
  ]

  over-Splits : Splits online n (over group m)
  over-Splits = record {
    own = λ c h. ground (arith, s.own c h);
    shared = λ c d h t. ground (arith, s.shared c d h, outside c d h);
    inside = λ c d h t. ground (arith, s.inside c d h, tests d);
    spare = λ c h t. ground (arith, s.spare c h t, tests c);
  }

  over-IsFresh : IsFresh n (seen ++ group) (over group m)
  over-IsFresh = record { single = λ c h t. ground (arith, f.single c h, test-append c seen group) }

alone-Splits :
    (host : Host) (online n : ℕ) (at : Level) (masks : Level → ℕ → Mask) (l : Level)
    → Splits online n (masks l)
    → Splits online n (alone host n at masks l)
unfolding alone
alone-Splits host online n at masks l s = elim (Bool-cases (same_level l at)) [
  | inr e ↦ rw e s
  | inl e ↦ rw e (record {
    own = λ c h. ground (arith, s.own c h);
    shared = λ c d h t. ground (arith, s.shared c d h, s.spare c h);
    inside = λ c d h t. ground arith;
    spare = λ c h t. ground (arith, s.spare c h);
  })
]

alone-IsFresh :
    (host : Host) (n : ℕ) (at : Level) (masks : Level → ℕ → Mask) (l : Level)
    → same_level l at ≡ true
    → IsFresh n [] (alone host n at masks l)
unfolding alone
alone-IsFresh host n at masks l e = rw e (record { single = λ c h t. ground arith })

-- An accepted cpulist names test CPUs only.
pub parse_cpus-is_test :
    (host : Host) (n : ℕ) (list : Bytes) {m : Mask} (c : ℕ)
    → parse_cpus host n list ≡ some m
    → test_cpu c m ≡ true
    → is_test n c ≡ true
unfolding parse_cpus
parse_cpus-is_test host n list {m} c e t = ground (arith, le-last c m)

parse_group-parts :
    (host : Host) (n : ℕ) (list : Bytes) (seen : Mask) {g s : Mask}
    → topo_parse_group host n list seen ≡ fine (g, s)
    → (parse_cpus host n list ≡ some g) × (intersects g seen ≡ false) × (s ≡ seen ++ g)
unfolding topo_parse_group
parse_group-parts host n list seen e = ground arith

module _ (host : Host) (online n : ℕ) (at l : Level) where
  group-step :
      (list : Bytes) (seen : Mask) (d : Draft) {g s : Mask}
      → topo_parse_group host n list seen ≡ fine (g, s)
      → Splits online n (d.masks l)
      → (same_level l at ≡ true → IsFresh n seen (d.masks l))
      → let m = set_masks host n at g d.masks l in
        Splits online n m × (same_level l at ≡ true → IsFresh n s m)
  unfolding set_masks
  group-step list seen d {g} {s} e p f =
      let (read, apart, grown) = parse_group-parts host n list seen e in
      let tests = λ (c : ℕ). parse_cpus-is_test host n list c read in
      elim (Bool-cases (same_level l at)) [
        | inr no_level ↦ rw no_level (p, λ h. cc)
        | inl yes_level ↦
            rw (yes_level, grown)
              (
                over-Splits online n g seen (d.masks l) p (f yes_level) tests apart,
                λ h. over-IsFresh online n g seen (d.masks l) p (f yes_level) tests apart,
              )
      ]

  level_groups-Splits :
      (lists : List Bytes) (seen : Mask) (d : Draft)
      → Splits online n (d.masks l)
      → (same_level l at ≡ true → IsFresh n seen (d.masks l))
      → Splits online n ((level_groups host n at lists seen d).1.masks l)
  unfolding level_groups
  level_groups-Splits [] seen d p f = p
  level_groups-Splits (list ∷ lists) seen d p f =
      elim (Checked-cases (topo_parse_group host n list seen)) [
        | inl (x, e) ↦ rw (e, level_groups) p
        | inr ((g, s), e) ↦
            let (p', f') = group-step list seen d e p f in
            rw (e, level_groups)
              (level_groups-Splits lists s (record d { masks = set_masks host n at g d.masks }) p'
                f')
      ]

module _ (host : Host) (online n : ℕ) (l : Level) where
  cap_groups-masks :
      (lists : List Bytes) (seen : Mask) (d : Draft)
      → (cap_groups host n lists seen d).1.masks ≡ d.masks
  unfolding cap_groups
  cap_groups-masks [] seen d = refl
  cap_groups-masks (list ∷ lists) seen d = elim (Checked-cases (cap_group host n list)) [
    | inl (x, e) ↦ rw (e, cap_groups)
    | inr ((cpulist, scale), e) ↦ elim (Checked-cases (topo_parse_group host n cpulist seen)) [
      | inl (x, e') ↦ rw (e, e', cap_groups)
      | inr ((g, s), e') ↦
          rw (e, e', cap_groups)
            (cap_groups-masks lists s (record d { caps = set_caps host n g scale d.caps }))
    ]
  ]

  set_of-Splits :
      (k : Key) (groups : Bytes) (d : Draft)
      → Splits online n (d.masks l)
      → Splits online n ((set_key host n k groups d).1.masks l)
  unfolding set_key
  set_of-Splits cap groups d p = rw (cap_groups-masks (tokens (λ x. x == b'|') groups) [] d) p
  set_of-Splits cpus groups d p = p
  set_of-Splits unknown groups d p = p
  set_of-Splits (level at) groups d p =
      level_groups-Splits host online n at l (tokens (λ x. x == b'|') groups) []
        (record d { masks = alone host n at d.masks }) (alone-Splits host online n at d.masks l p)
        (alone-IsFresh host n at d.masks l)

  -- One key of a spec keeps the split, whether it ends in an error or not.
  pub set_key-Splits :
      (key groups : Bytes) (d : Draft)
      → Splits online n (d.masks l)
      → Splits online n ((topo_set_key host n key groups d).1.masks l)
  unfolding topo_set_key
  set_key-Splits key groups d p = set_of-Splits (read_key key) groups d p
