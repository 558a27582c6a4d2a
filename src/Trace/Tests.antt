-- ===== src/Trace/Tests.antt =====
-- Hooks on a kernel that traces every function at the length of its name.
use kstep.Prelude.{true, List, [], ◌∷◌, length, some, ok, ◌≡◌, refl}
use kstep.Text.{lit, equal}
use kstep.Event.{no_event, known, event_add}
use kstep.Trace.{Hook, Ftrace, Handlers, Traced, is_hooked, dispatch, hook, on_task_migrate}

abbrev lengths : Ftrace
lengths = record {
  has_symbol = λ s. true;
  location = λ s. some (length s);
  set_filter = λ ip. true;
}

abbrev handlers : Handlers
handlers = record {
  on_select_task_rq = 1;
  on_sched_balance_enter = 2;
  on_sched_balance_selected = 3;
  on_set_task_cpu = 4;
}

abbrev begun : Traced
begun = record {
  hooks = record { name = lit "init_tg_cfs_entry"; func = 5; ip = 17 } ∷ [];
  filters = 17 ∷ [];
  select_task_rq = no_event;
  balance_selected = no_event;
  task_migrate = no_event;
}

abbrev both : List Hook
both =
    record { name = lit "init_tg_cfs_entry"; func = 5; ip = 17 }
    ∷ record { name = lit "set_task_cpu"; func = 4; ip = 12 }
    ∷ []

abbrev hooked : Traced
hooked = record begun { hooks = both; filters = 17 ∷ 12 ∷ [] }

hook-begun : hook lengths (lit "set_task_cpu") 4 begun ≡ ok hooked
unfolding hook is_hooked equal
hook-begun = refl

dispatch-begun : dispatch begun.hooks 17 ≡ some 5
unfolding dispatch
dispatch-begun = refl

abbrev watched : Traced
watched = record hooked {
  task_migrate = record { fn = 77 ∷ 0 ∷ 0 ∷ 0 ∷ 0 ∷ 0 ∷ 0 ∷ 0 ∷ []; n = 1 };
}

migrate-begun : on_task_migrate lengths handlers 77 begun ≡ ok watched
unfolding on_task_migrate hook is_hooked equal event_add known
migrate-begun = refl
