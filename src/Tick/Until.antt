-- ===== src/Tick/Until.antt =====
-- Ticking until a callback answers comes to an end.
use kstep.Prelude.{
  ℕ, zero, suc, ◌+◌, ◌^◌, ◌≤◌, ◌<◌, ◌≡◌, refl, ◌∙◌, ◌⊎◌, inl, inr, Option, none, some, arith, ok,
}
use kstep.Tick.{Machine, World, tick, tick_until}
use kstep.Tick.Clocks.{KeepsJiffies, Settles, IsSynced, tick-ok}

Option-cases {ℓ} : {A : Type ℓ} (o : Option A) → (o ≡ none) ⊎ ((r : A) × (o ≡ some r))
Option-cases none = inl refl
Option-cases (some r) = inr (r, refl)

module _ {K : Type 0} (m : Machine K) {A : Type 0} (fn : World K → Option A) where
  answered :
      (fuel n : ℕ) (w : World K) {r : A}
      → fn w ≡ some r
      → tick_until m (suc n) fuel fn w ≡ ok (r, w)
  unfolding tick_until
  answered fuel n w e = rw e

  silent-tick :
      (fuel n : ℕ) (w : World K) {a : World K}
      → fn w ≡ none
      → tick m fuel w ≡ ok a
      → tick_until m (suc n) fuel fn w ≡ tick_until m n fuel fn a
  unfolding tick_until
  silent-tick fuel n w e ea = rw (e, ea)

  -- Where every CPU settles within `fuel` rounds and the jiffies do not wrap: if the callback answers
  -- at time t at the latest, then ticking until it answers returns, after at most n ticks for a t
  -- that is n ticks off, with the callback's answer at the time at which it returns, which is not
  -- after t.
  pub tick_until-answers :
      (fuel n t : ℕ) (w : World K)
      → KeepsJiffies m
      → Settles m fuel
      → IsSynced m w
      → t < 2 ^ 64
      → w.kstep_jiffies + n ≡ t
      → ((v : World K) → v.kstep_jiffies ≡ t → (r : A) × (fn v ≡ some r))
      → (r : A) × (w' : World K) × (tick_until m (suc n) fuel fn w ≡ ok (r, w'))
        × (fn w' ≡ some r)
        × (w'.kstep_jiffies ≤ t)
  tick_until-answers fuel zero t w q s y wrap h answers =
      let (r, e) = answers w (omega arith) in (r, w, answered fuel _ w e, e, omega arith)
  tick_until-answers fuel (suc n) t w q s y wrap h answers = elim (Option-cases (fn w)) [
    | inr (r, e) ↦ (r, w, answered fuel _ w e, e, omega arith)
    | inl silent ↦
        let (a, ea, ma, ya) = tick-ok m fuel w q s y in
        let at : a.kstep_jiffies + n ≡ t = omega (arith, ma.jiffies_are) in
        let (r, w', ew, er, le) = tick_until-answers fuel n t a q s ya wrap at answers in
        (r, w', silent-tick fuel (suc n) w silent ea ∙ ew, er, le)
  ]
