-- ===== src/Trace.antt =====
-- The hooks of kmod/trace.c: the table, the dispatcher, and how registering on a traced event arms
-- the hook behind it. A function is its address.
pub mod Hooks
pub mod Again
pub mod Hits
mod Tests
use kstep.Prelude.{
  ℕ, ◌+◌, Bool, true, false, List, [], ◌∷◌, ◌++◌, length, Option, none, some, leb, ◌==◌, ◌||◌,
  if◌then◌else◌, Outcome, ok, panic, cannot_trace, ◌>>=◌,
}
use kstep.Text.{Bytes, lit, equal}
use kstep.Event.{Event, event_add, emit}

-- `struct kstep_hook`
pub record Hook : Type 0 where
  pub name : Bytes
  pub func : ℕ
  pub ip : ℕ

-- ARRAY_SIZE(kstep_hooks)
abbrev pub max_hooks : ℕ
max_hooks = 8

-- What is asked of the kernel: whether it has a symbol, the traced location of a function (0 is
-- `none`), and whether a filter can be set.
pub record Ftrace : Type 0 where
  pub has_symbol : Bytes → Bool
  pub location : Bytes → Option ℕ
  pub set_filter : ℕ → Bool

-- The handlers of the file.
pub record Handlers : Type 0 where
  pub on_select_task_rq : ℕ
  pub on_sched_balance_enter : ℕ
  pub on_sched_balance_selected : ℕ
  pub on_set_task_cpu : ℕ

-- The published entries, the filters set, and the lists of the three events.
pub record Traced : Type 0 where
  pub hooks : List Hook
  pub filters : List ℕ
  pub select_task_rq : Event
  pub balance_selected : Event
  pub task_migrate : Event

unfoldable pub is_hooked : Bytes → List Hook → Bool
is_hooked name [] = false
is_hooked name (h ∷ hooks) = equal h.name name || is_hooked name hooks

-- `kstep_dispatch`: the function that it calls.
unfoldable pub dispatch : List Hook → ℕ → Option ℕ
dispatch [] ip = none
dispatch (h ∷ hooks) ip = if h.ip == ip then some h.func else dispatch hooks ip

module _ (f : Ftrace) where
  new_hook : Bytes → ℕ → Option ℕ → Traced → Outcome Traced
  new_hook name func none t = panic cannot_trace
  new_hook name func (some ip) t =
      if f.set_filter ip
      then ok (record t {
        hooks = t.hooks ++ (record { name = name; func = func; ip = ip } ∷ []);
        filters = t.filters ++ (ip ∷ []);
      })
      else panic cannot_trace

  -- `kstep_hook`; a full table is a `WARN_ON`.
  unfoldable pub hook : Bytes → ℕ → Traced → Outcome Traced
  unfolding new_hook
  hook name func t =
      if is_hooked name t.hooks
      then ok t
      else if length t.hooks == max_hooks
      then ok t
      else new_hook name func (f.location name) t

  abbrev pub sym_or : Bytes → Bytes → Bytes
  sym_or name old = if f.has_symbol name then name else old

  module _ (on : Handlers) where
    unfoldable pub on_select : ℕ → Traced → Outcome Traced
    on_select fn t =
        let (fresh, warned, ev) = event_add t.select_task_rq fn in
        let t' : Traced = record t { select_task_rq = ev } in
        if fresh then hook (lit "select_task_rq_fair") on.on_select_task_rq t' else ok t'

    unfoldable pub on_balance_selected : ℕ → Traced → Outcome Traced
    on_balance_selected fn t =
        let (fresh, warned, ev) = event_add t.balance_selected fn in
        let t' : Traced = record t { balance_selected = ev } in
        let armed =
          hook (sym_or (lit "sched_balance_rq") (lit "load_balance")) on.on_sched_balance_enter t'
          >>= λ a.
              hook (sym_or (lit "sched_balance_find_src_group") (lit "find_busiest_group"))
                on.on_sched_balance_selected a in
        if fresh then armed else ok t'

    unfoldable pub on_task_migrate : ℕ → Traced → Outcome Traced
    on_task_migrate fn t =
        let (fresh, warned, ev) = event_add t.task_migrate fn in
        let t' : Traced = record t { task_migrate = ev } in
        if fresh then hook (lit "set_task_cpu") on.on_set_task_cpu t' else ok t'
