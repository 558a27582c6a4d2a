-- ===== src/Tick/Settle.antt =====
-- What `kstep_settle` has seen when it returns.
use kstep.Prelude.{
  ℕ, zero, suc, ◌+◌, ◌≤◌, ◌<◌, true, ◌≡◌, ap, sym, ◌∙◌, arith, ok, ok-inj, >>=-eq-ok, Bool-cases,
  inl, inr,
}
use native.Mathlib.Decide.{ℕ_discrete}
use kstep.Tick.{Machine, World, view_settled, settle_cpu, settle_cpus, settle}
use kstep.Tick.Clocks.{relaxed}

module _ {K : Type 0} (m : Machine K) where
  abbrev pub IsSettled : ℕ → K → Type 0
  IsSettled cpu k = view_settled (m.cpu_view cpu k) ≡ true

  relaxed-add : (r s : ℕ) (k : K) → relaxed m s (relaxed m r k) ≡ relaxed m (r + s) k
  relaxed-add zero s k = let same : s ≡ 0 + s = omega arith in ap (λ n. relaxed m n k) same
  relaxed-add (suc r) s k =
      let next : suc (r + s) ≡ suc r + s = omega arith in
      relaxed-add r s (m.cpu_relax k) ∙ ap (λ n. relaxed m n k) next

  settle_cpu-seen :
      (fuel cpu : ℕ) (k : K) {k' : K}
      → settle_cpu m fuel cpu k ≡ ok k'
      → (r : ℕ) × (k' ≡ relaxed m r k) × IsSettled cpu k'
  unfolding settle_cpu
  settle_cpu-seen zero cpu k e = cc
  settle_cpu-seen (suc fuel) cpu k {k'} e = elim (Bool-cases (view_settled (m.cpu_view cpu k))) [
    | inl done ↦ let same = ok-inj (rw done at e) in (0, sym same, (rw same at done))
    | inr more ↦
        let (r, at, seen) = settle_cpu-seen fuel cpu (m.cpu_relax k) (rw more at e) in
        (suc r, at, seen)
  ]

  settle_cpus-waits :
      (fuel cpu n : ℕ) (k : K) {k' : K}
      → settle_cpus m fuel cpu n k ≡ ok k'
      → (r : ℕ) × (k' ≡ relaxed m r k)
  unfolding settle_cpus
  settle_cpus-waits fuel cpu zero k e = (0, sym (ok-inj e))
  settle_cpus-waits fuel cpu (suc n) k e =
      let (a, ea, eb) = >>=-eq-ok (settle_cpu m fuel cpu k) (settle_cpus m fuel (cpu + 1) n) e in
      let (r, at, seen) = settle_cpu-seen fuel cpu k ea in
      let (s, last) = settle_cpus-waits fuel (cpu + 1) n a eb in
      (r + s, last ∙ ap (λ x. relaxed m s x) at ∙ relaxed-add r s k)

  settle_cpus-seen :
      (fuel cpu n other : ℕ) (k : K) {k' : K}
      → settle_cpus m fuel cpu n k ≡ ok k'
      → cpu ≤ other
      → other < cpu + n
      → (r later : ℕ) × IsSettled other (relaxed m r k) × (k' ≡ relaxed m later (relaxed m r k))
  unfolding settle_cpus
  settle_cpus-seen fuel cpu zero other k e lo hi = absurd (omega arith)
  settle_cpus-seen fuel cpu (suc n) other k e lo hi =
      let (a, ea, eb) = >>=-eq-ok (settle_cpu m fuel cpu k) (settle_cpus m fuel (cpu + 1) n) e in
      let (r, at, seen) = settle_cpu-seen fuel cpu k ea in
      elim (ℕ_discrete cpu other) [
        | yes same ↦
            let (later, last) = settle_cpus-waits fuel (cpu + 1) n a eb in
            (r, later, (rw (← same, ← at) seen), last ∙ ap (λ x. relaxed m later x) at)
        | no ne ↦
            let (s, later, there, last) =
              settle_cpus-seen fuel (cpu + 1) n other a eb (omega arith) (omega arith) in
            let joined : relaxed m s a ≡ relaxed m (r + s) k =
              ap (λ x. relaxed m s x) at ∙ relaxed-add r s k in
            (r + s, later, (rw joined at there), last ∙ ap (λ x. relaxed m later x) joined)
      ]

  -- When a settle returns, it has done nothing to the kernel but wait, and each of the CPUs
  -- 1..kstep_test_ncpus had settled at some moment of the wait. That they have settled all at once is
  -- not stated: a CPU that is waited for later may wake a task on one that has settled.
  pub settle-seen :
      (fuel : ℕ) (w : World K) {w' : World K} (cpu : ℕ)
      → settle m fuel w ≡ ok w'
      → 0 < cpu
      → cpu ≤ w.test_ncpus
      → (r later : ℕ) × IsSettled cpu (relaxed m r w.kernel)
        × (w'.kernel ≡ relaxed m later (relaxed m r w.kernel))
  unfolding settle
  settle-seen fuel w cpu e lo hi =
      let (k, ea, eb) = >>=-eq-ok (settle_cpus m fuel 1 w.test_ncpus w.kernel) _ e in
      let (r, later, seen, last) =
        settle_cpus-seen fuel 1 w.test_ncpus cpu w.kernel ea lo (omega arith) in
      (r, later, seen, sym (ap (λ (x : World K). x.kernel) (ok-inj eb)) ∙ last)
