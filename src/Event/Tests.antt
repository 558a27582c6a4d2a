-- ===== src/Event/Tests.antt =====
-- Registrations in the registry of kmod/event.h.
use kstep.Prelude.{ℕ, List, [], ◌∷◌, ◌≡◌, refl, arith, ◌≤◌, length}
use kstep.Event.{Event, event_subs, no_event, known, event_add, called, emit}
use kstep.Event.Registry.{IsValid, AllDifferent, register, register-AllDifferent}

abbrev two : Event
two = record { fn = 11 ∷ 12 ∷ 0 ∷ 0 ∷ 0 ∷ 0 ∷ 0 ∷ 0 ∷ []; n = 2 }

two-IsValid : IsValid two
two-IsValid = omega arith

no_event-IsValid : IsValid no_event
no_event-IsValid = omega arith

emit-no_event : AllDifferent (emit no_event)
unfolding called
emit-no_event = tt

add-two : emit (event_add two 13).2 ≡ 11 ∷ 12 ∷ 13 ∷ []
unfolding event_add known called
add-two = refl

abbrev many : List ℕ
many = 3 ∷ 1 ∷ 3 ∷ 2 ∷ 1 ∷ []

register-AllDifferent_example :
    AllDifferent (emit (register no_event many))
    × (length (emit (register no_event many)) ≤ event_subs)
register-AllDifferent_example = register-AllDifferent many no_event-IsValid emit-no_event
