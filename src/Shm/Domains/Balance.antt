-- ===== src/Shm/Domains/Balance.antt =====
-- When a domain is balanced next, and by which CPU.
use kstep.Prelude.{
  ℕ, ◌+◌, ◌-◌, ◌/◌, ◌%◌, ◌^◌, ◌≤◌, ◌<◌, ◌≡◌, refl, ap₂, ◌∙◌, Bool, true, false, not, ◌&&◌, [], ◌∷◌,
  Option, none, some, arith, Bool-cases, inl, inr, ◌==◌, if◌then◌else◌,
}
use Prim.Native.Nat.{bit_and}
use kstep.Cpu.Mask.{Mask}
use kstep.Shm.Domains.{
  SchedDomain, Machine, hz, time_after, interval_of, wait_until, shm_domain, idle_cpu, all_idle,
  or_first, find_idle, pick_of, first_of, or_else, balancer_of,
}

interval-bounds :
    (f : ℕ → ℕ) (busy : Bool) (sd : SchedDomain)
    → (1 ≤ interval_of f busy sd) × (interval_of f busy sd ≤ hz / 10)
unfolding interval_of
interval-bounds f true sd = ground arith
interval-bounds f false sd = ground arith

wait-le :
    (last interval now : ℕ)
    → last < 2 ^ 64
    → now < 2 ^ 64
    → interval ≤ 100
    → (now + 2 ^ 64 - last) % 2 ^ 64 < 2 ^ 63
    → wait_until ((last + interval) % 2 ^ 64) now ≤ interval
unfolding wait_until
wait-le last interval now a b c d =
    elim (Bool-cases (time_after ((last + interval) % 2 ^ 64) now)) [
      | inl after ↦ rw after (ground (arith, after))
      | inr past ↦ rw past (omega arith)
    ]

module _ (m : Machine) where
  -- A domain that was last balanced at a time that is not after now waits at most a tenth of a
  -- second, whatever its interval and its busy factor are.
  pub next_balance-le :
      (cpu : ℕ) (sd : SchedDomain) (at n : ℕ)
      → sd.last_balance < 2 ^ 64
      → m.jiffies < 2 ^ 64
      → (m.jiffies + 2 ^ 64 - sd.last_balance) % 2 ^ 64 < 2 ^ 63
      → (shm_domain m cpu sd at n).next_balance_in ≤ hz / 10
  unfolding shm_domain
  next_balance-le cpu sd at n a b c =
      let busy = not ((m.rq cpu).curr == (m.rq cpu).idle) in
      let (lo, hi) = interval-bounds m.msecs_to_jiffies busy sd in
      let l = wait-le sd.last_balance (interval_of m.msecs_to_jiffies busy sd) m.jiffies a b hi c in
      omega (arith, l, hi)

  first_with : (ℕ → Bool) → Mask → Option ℕ
  first_with p [] = none
  first_with p (c ∷ bal) = if p c then some c else first_with p bal

  abbrev or_other : Option ℕ → Option ℕ → Option ℕ
  or_other none o = o
  or_other (some c) o = some c

  -- The choice as `should_we_balance` words it: within a core the first idle CPU; above that the
  -- first on a core that is wholly idle, and the first idle CPU where there is none.
  unfoldable pub should_balance : SchedDomain → Option ℕ
  unfolding first_with
  should_balance sd =
      let idle = first_with (λ c. idle_cpu m c) sd.first.balance_mask in
      let on_idle_core =
        first_with (λ c. idle_cpu m c && all_idle m (m.smt_mask c)) sd.first.balance_mask in
      if not (bit_and sd.flags m.share_cpucapacity == 0) then idle else or_other on_idle_core idle

  or_first-some : (f : Option ℕ) (c : ℕ) → or_first m f c ≡ or_other f (some c)
  or_first-some none c = refl
  or_first-some (some d) c = refl

  or_first-other :
      (f : Option ℕ) (c : ℕ) (o : Option ℕ) → or_other (or_first m f c) o ≡ or_other f (some c)
  or_first-other none c o = refl
  or_first-other (some d) c o = refl

  find_idle-first :
      (bal : Mask) (first : Option ℕ)
      → ((find_idle m bal first).0 ≡ or_other first (first_with (λ c. idle_cpu m c) bal))
        × ((find_idle m bal first).1
            ≡ first_with (λ c. idle_cpu m c && all_idle m (m.smt_mask c)) bal)
  unfolding find_idle first_with
  find_idle-first [] none = (refl, refl)
  find_idle-first [] (some d) = (refl, refl)
  find_idle-first (c ∷ bal) first = elim (Bool-cases (idle_cpu m c)) [
    | inr busy ↦ rw busy (find_idle-first bal first)
    | inl idle ↦ elim (Bool-cases (all_idle m (m.smt_mask c))) [
      | inl core ↦ rw (idle, core) (or_first-some first c, refl)
      | inr part ↦
          rw (idle, part)
            (
              (find_idle-first bal (or_first m first c)).0 ∙ or_first-other first c _,
              (find_idle-first bal (or_first m first c)).1,
            )
    ]
  ]

  pick-should :
      (smt : Bool) (idle on_idle_core : Option ℕ)
      → pick_of m smt (idle, on_idle_core) ≡ (if smt then idle else or_other on_idle_core idle)
  pick-should true idle core = refl
  pick-should false idle none = refl
  pick-should false idle (some c) = refl

  -- The CPU that is reported to balance is the one that `should_balance` chooses, and where no CPU
  -- of the group is idle the group's first.
  pub balancer-should :
      (sd : SchedDomain)
      → balancer_of m sd ≡ or_else m (should_balance sd) (first_of m sd.first.balance_mask)
  unfolding balancer_of should_balance
  balancer-should sd =
      let bal = sd.first.balance_mask in
      let (a, b) = find_idle-first bal none in
      let pair : find_idle m bal none ≡ (
        first_with (λ c. idle_cpu m c) bal,
        first_with (λ c. idle_cpu m c && all_idle m (m.smt_mask c)) bal,
      ) =
        ap₂ (λ (x y : Option ℕ). (x, y)) a b in
      rw (pair, pick-should) refl
