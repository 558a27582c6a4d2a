-- ===== src/Event.antt =====
-- The registry of kmod/event.h and kmod/event.c: who is called on an event.
pub mod Registry
pub mod Again
mod Tests
use kstep.Prelude.{
  ℕ, zero, suc, ◌+◌, Bool, true, false, List, [], ◌∷◌, set, replicate, ◌==◌, if◌then◌else◌,
}

-- KSTEP_EVENT_SUBS
abbrev pub event_subs : ℕ
event_subs = 8

-- `struct kstep_event`; a callback is its address.
pub record Event : Type 0 where
  pub fn : List ℕ
  pub n : ℕ

abbrev pub no_event : Event
no_event = record { fn = replicate event_subs 0; n = 0 }

-- The loop that looks for `f` among the first `n` slots.
unfoldable pub known : List ℕ → ℕ → ℕ → Bool
known [] n f = false
known (g ∷ gs) zero f = false
known (g ∷ gs) (suc n) f = if g == f then true else known gs n f

-- The two results are what is returned, and whether `WARN_ON` fired.
unfoldable pub event_add : Event → ℕ → Bool × Bool × Event
event_add ev f =
    if known ev.fn ev.n f
    then (false, false, ev)
    else if ev.n == event_subs
    then (false, true, ev)
    else (true, false, record { fn = set ev.fn ev.n f; n = ev.n + 1 })

-- `kstep_emit`: the callbacks that an emit calls, in the order of the calls.
unfoldable pub called : List ℕ → ℕ → List ℕ
called [] n = []
called (g ∷ gs) zero = []
called (g ∷ gs) (suc n) = g ∷ called gs n

abbrev pub emit : Event → List ℕ
emit ev = called ev.fn ev.n
