-- ===== src/Cpu/Slice/Boot.antt =====
-- A layout has the slices of a boot of its size.
use kstep.Prelude.{
  sym, ap, ◌⊎◌, inl, inr, >>=-eq-ok, ok-inj, ℕ, ◌+◌, ◌≡◌, refl, true, false, List, [], ◌∷◌, Option,
  none, some, ◌==◌, arith, Outcome, ok, ◌>>=◌,
}
use kstep.Cpu.Slice.{Tunable, Tunables, scaled, scale_one, scale_each, set_slice_scaling}

-- What the kernel's own scaling leaves of a normalized value on a boot with that many CPUs; a
-- tunable that the kernel lacks is `none`.
abbrev booted_one : ℕ → Option ℕ → Option Tunable
booted_one cpus none = none
booted_one cpus (some n) = some (record { sysctl = scaled n cpus; normalized = n })

abbrev pub booted : ℕ → List (Option ℕ) → List (Option Tunable)
booted cpus [] = []
booted cpus (n ∷ norms) = booted_one cpus n ∷ booted cpus norms

same : (n : ℕ) → (n == n) ≡ true
same n = ground arith

scale_one-booted :
    (online test_ncpus : ℕ) (n : Option ℕ)
    → scale_one online test_ncpus false (booted_one online n) ≡ ok (booted_one (test_ncpus + 1) n)
unfolding scale_one
scale_one-booted online k none = refl
scale_one-booted online k (some n) = rw (same (scaled n online))

scale_one-again :
    (online before test_ncpus : ℕ) (n : Option ℕ)
    → scale_one online test_ncpus true (booted_one before n) ≡ ok (booted_one (test_ncpus + 1) n)
unfolding scale_one
scale_one-again online before k none = refl
scale_one-again online before k (some n) = refl

scale_each-booted :
    (online test_ncpus : ℕ) (norms : List (Option ℕ))
    → scale_each online test_ncpus false (booted online norms) ≡ ok (booted (test_ncpus + 1) norms)
unfolding scale_each
scale_each-booted online k [] = refl
scale_each-booted online k (n ∷ norms) =
    rw (scale_one-booted online k n, scale_each-booted online k norms)

scale_each-again :
    (online before test_ncpus : ℕ) (norms : List (Option ℕ))
    → scale_each online test_ncpus true (booted before norms) ≡ ok (booted (test_ncpus + 1) norms)
unfolding scale_each
scale_each-again online before k [] = refl
scale_each-again online before k (n ∷ norms) =
    rw (scale_one-again online before k n, scale_each-again online before k norms)

-- One layout after another, each a number of test CPUs.
unfoldable pub layouts : ℕ → List ℕ → Tunables → Outcome Tunables
layouts online [] s = ok s
layouts online (k ∷ ks) s = set_slice_scaling online k s >>= λ s'. layouts online ks s'

abbrev pub last_of : ℕ → List ℕ → ℕ
last_of k [] = k
last_of k (j ∷ ks) = last_of j ks

layouts-again :
    (online k : ℕ) (ks : List ℕ) (norms : List (Option ℕ))
    → layouts online ks (record { looked_up = true; named = booted (k + 1) norms })
      ≡ ok (record { looked_up = true; named = booted (last_of k ks + 1) norms })
unfolding layouts set_slice_scaling
layouts-again online k [] norms = refl
layouts-again online k (j ∷ ks) norms =
    rw (scale_each-again online (k + 1) j norms) (layouts-again online j ks norms)

-- On a kernel that scales its tunables by the formula, no layout is refused, and whatever layouts
-- came before, the slices are those that a boot with the last one's test CPUs and the controller
-- has.
pub layouts-booted :
    (online k : ℕ) (ks : List ℕ) (norms : List (Option ℕ))
    → layouts online (k ∷ ks) (record { looked_up = false; named = booted online norms })
      ≡ ok (record { looked_up = true; named = booted (last_of k ks + 1) norms })
unfolding layouts set_slice_scaling
layouts-booted online k ks norms =
    rw (scale_each-booted online k norms) (layouts-again online k ks norms)

-- The kernel scales its tunables by the formula, as far as the module has yet to look.
abbrev pub Scales : ℕ → Tunables → Type 0
Scales online s =
    (s.looked_up ≡ true)
    ⊎ ((norms : List (Option ℕ)) × (s ≡ record { looked_up = false; named = booted online norms }))

scale_one-known :
    (online k : ℕ) (t : Option Tunable)
    → (t' : Option Tunable) × (scale_one online k true t ≡ ok t')
unfolding scale_one
scale_one-known online k none = (none, refl)
scale_one-known online k (some t) = (_, refl)

scale_each-known :
    (online k : ℕ) (named : List (Option Tunable))
    → (named' : List (Option Tunable)) × (scale_each online k true named ≡ ok named')
unfolding scale_each
scale_each-known online k [] = ([], refl)
scale_each-known online k (t ∷ named) =
    let (t', e) = scale_one-known online k t in
    let (named', es) = scale_each-known online k named in (t' ∷ named', rw (e, es))

-- The scaling is not refused.
pub scaling-Scales :
    (online k : ℕ) (s : Tunables)
    → Scales online s
    → (s' : Tunables) × (set_slice_scaling online k s ≡ ok s')
unfolding set_slice_scaling
scaling-Scales online k s (inl known) =
    let (named, e) = scale_each-known online k s.named in
    (record { looked_up = true; named = named }, rw (known, e) refl)
scaling-Scales online k s (inr (norms, same)) = (
  record { looked_up = true; named = booted (k + 1) norms },
  rw (same, scale_each-booted online k norms) refl,
)

-- Behind it the module has looked.
pub scaling-looked_up :
    (online k : ℕ) (s : Tunables) {s' : Tunables}
    → set_slice_scaling online k s ≡ ok s'
    → s'.looked_up ≡ true
unfolding set_slice_scaling
scaling-looked_up online k s e =
    let (named, en, last) = >>=-eq-ok (scale_each online k s.looked_up s.named) _ e in
    ap (λ (x : Tunables). x.looked_up) (sym (ok-inj last))
