-- ===== src/Check/Table/Tests.antt =====
-- Enabling a rule that hooks a function of the kernel.
use kstep.Prelude.{true, [], ◌∷◌, length, some, ok, ◌≡◌, refl, arith}
use kstep.Prelude.Int.{pos}
use kstep.Text.{lit, equal}
use kstep.Event.{no_event, known, event_add}
use kstep.Event.Registry.{IsValid}
use kstep.Trace.{Ftrace, Handlers, is_hooked, hook, on_select}
use kstep.Check.Table.{Callbacks, Watched, enable, check_enable}
use kstep.Check.Table.Again.{AreValid}

abbrev lengths : Ftrace
lengths = record {
  has_symbol = λ s. true;
  location = λ s. some (length s);
  set_filter = λ ip. true;
}

abbrev handlers : Handlers
handlers = record {
  on_select_task_rq = 1;
  on_sched_balance_enter = 2;
  on_sched_balance_selected = 3;
  on_set_task_cpu = 4;
}

abbrev callbacks : Callbacks
callbacks = record {
  sync_wakeup_select = 21;
  sync_wakeup_settle = 22;
  vruntime_settle = 23;
  pelt_tick = 24;
  frozen_freeze = 25;
  balance_selected = 26;
  work_conserve_tick = 27;
  util_decay_tick = 28;
}

abbrev begun : Watched
begun = record {
  traced = record {
    hooks = [];
    filters = [];
    select_task_rq = no_event;
    balance_selected = no_event;
    task_migrate = no_event;
  };
  settle = no_event;
  tick_end = no_event;
  freeze = no_event;
}

empty-IsValid : IsValid no_event
empty-IsValid = record { slots = refl; fits = omega arith }

begun-AreValid : AreValid begun
begun-AreValid = record {
  select = empty-IsValid;
  balance = empty-IsValid;
  settle = empty-IsValid;
  tick_end = empty-IsValid;
  freeze = empty-IsValid;
}

abbrev watching : Watched
watching = record begun {
  traced = record begun.traced {
    hooks = record { name = lit "select_task_rq_fair"; func = 1; ip = 19 } ∷ [];
    filters = 19 ∷ [];
    select_task_rq = (event_add no_event 21).2;
  };
  settle = (event_add no_event 22).2;
}

enabled : check_enable lengths handlers callbacks (lit "sync_wakeup") begun ≡ ok (pos 0, watching)
unfolding check_enable enable on_select hook is_hooked event_add known equal
enabled = refl
