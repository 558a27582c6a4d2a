-- ===== src/Event/Again.antt =====
-- Registering a callback twice is registering it once.
use kstep.Prelude.{ℕ, zero, suc, ◌<◌, true, false, List, [], ◌∷◌, ◌≡◌, arith, length, set}
use native.Mathlib.Numerals.{add-one}
use kstep.Event.{Event, known, event_add}
use kstep.Event.Registry.{IsValid}

known-set : (gs : List ℕ) (n f : ℕ) → n < length gs → known (set gs n f) (suc n) f ≡ true
unfolding known
known-set [] n f h = absurd (omega arith)
known-set (g ∷ gs) zero f h = ground arith
known-set (g ∷ gs) (suc n) f h = ground (arith, known-set gs n f)

pub event_add-again :
    {ev : Event} (f : ℕ)
    → IsValid ev
    → ((event_add (event_add ev f).2 f).0 ≡ false)
      × ((event_add (event_add ev f).2 f).2 ≡ (event_add ev f).2)
unfolding event_add
event_add-again {ev} f v = ground (arith, known-set ev.fn ev.n f, add-one ev.n)
