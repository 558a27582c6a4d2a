-- ===== src/Event/Registry.antt =====
-- A registry calls each registered callback once, in the order of registration.
use kstep.Prelude.{
  ℕ, zero, suc, ◌||◌, ◌≤◌, ◌<◌, Bool, true, false, List, [], ◌∷◌, ◌++◌, ◌≡◌, refl, ap, arith,
  length, length-set, set, ◌==◌, if◌then◌else◌,
}
use native.Mathlib.Numerals.{add-one}
use kstep.Event.{Event, event_subs, known, event_add, called, emit}

pub record IsValid (ev : Event) : Type 0 where
  pub slots : length ev.fn ≡ event_subs
  pub fits : ev.n ≤ event_subs

abbrev pub contains : List ℕ → ℕ → Bool
contains [] f = false
contains (g ∷ gs) f = if g == f then true else contains gs f

-- No callback is called twice.
abbrev pub AllDifferent : List ℕ → Type 0
AllDifferent [] = Unit
AllDifferent (g ∷ gs) = (contains gs g ≡ false) × AllDifferent gs

known-contains : (gs : List ℕ) (n f : ℕ) → known gs n f ≡ contains (called gs n) f
unfolding known called
known-contains [] n f = refl
known-contains (g ∷ gs) zero f = refl
known-contains (g ∷ gs) (suc n) f = ap (λ b. if g == f then true else b) (known-contains gs n f)

called-set :
    (gs : List ℕ) (n f : ℕ) → n < length gs → called (set gs n f) (suc n) ≡ called gs n ++ (f ∷ [])
unfolding called
called-set [] n f h = absurd (omega arith)
called-set (g ∷ gs) zero f h = called_none gs f
  where
    called_none : (gs : List ℕ) (f : ℕ) → f ∷ called gs 0 ≡ f ∷ []
    called_none [] f = refl
    called_none (x ∷ xs) f = refl
called-set (g ∷ gs) (suc n) f h = ap (◌∷◌ g) (called-set gs n f (omega arith))

length-called : (gs : List ℕ) (n : ℕ) → n ≤ length gs → length (called gs n) ≡ n
unfolding called
length-called [] n h = omega arith
length-called (g ∷ gs) zero h = refl
length-called (g ∷ gs) (suc n) h = ap suc (length-called gs n (omega arith))

pub add-IsValid : {ev : Event} (f : ℕ) → IsValid ev → IsValid (event_add ev f).2
unfolding event_add
add-IsValid {ev} f v = ground (arith, length-set ev.fn ev.n f)

-- Registering adds the callback behind the others; a registered one changes nothing, and neither
-- does one that finds the eight places taken.
pub emit-add :
    {ev : Event} (f : ℕ)
    → IsValid ev
    → emit (event_add ev f).2 ≡ (
        if contains (emit ev) f
        then emit ev
        else if length (emit ev) == event_subs
        then emit ev
        else emit ev ++ (f ∷ []))
unfolding event_add
emit-add {ev} f v = ground (
  arith,
  known-contains ev.fn ev.n f,
  called-set ev.fn ev.n f,
  length-called ev.fn ev.n,
  add-one ev.n,
)

contains-append : (gs : List ℕ) (g f : ℕ) → contains (gs ++ (g ∷ [])) f ≡ (contains gs f || g == f)
contains-append [] g f = ground arith
contains-append (x ∷ xs) g f = ground (arith, contains-append xs g f)

AllDifferent-append :
    (gs : List ℕ) (f : ℕ) → AllDifferent gs → contains gs f ≡ false → AllDifferent (gs ++ (f ∷ []))
AllDifferent-append [] f d h = (refl, tt)
AllDifferent-append (x ∷ xs) f d h =
    (ground (arith, contains-append xs f x), AllDifferent-append xs f d.1 (ground arith))

-- The callbacks registered one after another.
pub register : Event → List ℕ → Event
register ev [] = ev
register ev (f ∷ fs) = register (event_add ev f).2 fs

add-AllDifferent :
    {ev : Event} (f : ℕ)
    → IsValid ev
    → AllDifferent (emit ev)
    → AllDifferent (emit (event_add ev f).2)
add-AllDifferent {ev} f v d = rw (emit-add f v) (ground (arith, AllDifferent-append (emit ev) f d))

-- Whatever is registered, in whatever order and how often, an emit calls nobody twice and at most
-- eight callbacks.
pub register-AllDifferent :
    (fs : List ℕ) {ev : Event}
    → IsValid ev
    → AllDifferent (emit ev)
    → AllDifferent (emit (register ev fs)) × (length (emit (register ev fs)) ≤ event_subs)
unfolding register
register-AllDifferent [] {ev} v d = (d, omega (arith, length-called ev.fn ev.n))
register-AllDifferent (f ∷ fs) v d =
    register-AllDifferent fs (add-IsValid f v) (add-AllDifferent f v d)
