-- ===== src/Trace/Again.antt =====
-- Registering a callback on a traced event twice is registering it once.
use kstep.Prelude.{
  ℕ, ◌≡◌, refl, sym, ap, ◌∙◌, false, length, ◌==◌, arith, Bool-cases, inl, inr, Option, none, some,
  ok, >>=-eq-ok, panic-not_ok, ok-inj,
}
use kstep.Text.{Bytes}
use kstep.Event.{event_add}
use kstep.Event.Registry.{IsValid}
use kstep.Event.Again.{event_add-again}
use kstep.Trace.{
  Ftrace, Handlers, Traced, is_hooked, max_hooks, new_hook, hook, on_select, on_balance_selected,
}

module _ (f : Ftrace) where
  record SameEvents (t t' : Traced) : Type 0 where
    select : t'.select_task_rq ≡ t.select_task_rq
    balance : t'.balance_selected ≡ t.balance_selected

  new_hook-SameEvents :
      (name : Bytes) (func : ℕ) (o : Option ℕ) (t : Traced) {t' : Traced}
      → new_hook f name func o t ≡ ok t'
      → SameEvents t t'
  unfolding new_hook
  new_hook-SameEvents name func none t e = absurd (panic-not_ok e)
  new_hook-SameEvents name func (some ip) t {t'} e = elim (Bool-cases (f.set_filter ip)) [
    | inl s ↦ record { select = ground (arith, s, e); balance = ground (arith, s, e) }
    | inr s ↦ absurd (panic-not_ok (rw s at e))
  ]

  hook-SameEvents :
      (name : Bytes) (func : ℕ) (t : Traced) {t' : Traced}
      → hook f name func t ≡ ok t'
      → SameEvents t t'
  unfolding hook
  hook-SameEvents name func t {t'} e = elim (Bool-cases (is_hooked name t.hooks)) [
    | inl h ↦
        let same : t ≡ t' = ok-inj (rw h at e) in
        rw (← same) (record { select = refl; balance = refl })
    | inr h ↦ elim (Bool-cases (length t.hooks == max_hooks)) [
      | inl l ↦
          let same : t ≡ t' = ok-inj (rw (h, l) at e) in
          rw (← same) (record { select = refl; balance = refl })
      | inr l ↦ new_hook-SameEvents name func (f.location name) t (rw (h, l) at e)
    ]
  ]

  module _ (on : Handlers) (fn : ℕ) (t : Traced) where
    -- A callback that is on the list changes nothing.
    on_select-stale :
        (event_add t.select_task_rq fn).0 ≡ false
        → (event_add t.select_task_rq fn).2 ≡ t.select_task_rq
        → on_select f on fn t ≡ ok t
    unfolding on_select
    on_select-stale a b = rw (a, b)

    on_balance-stale :
        (event_add t.balance_selected fn).0 ≡ false
        → (event_add t.balance_selected fn).2 ≡ t.balance_selected
        → on_balance_selected f on fn t ≡ ok t
    unfolding on_balance_selected
    on_balance-stale a b = rw (a, b)

    on_select-added :
        {t' : Traced}
        → on_select f on fn t ≡ ok t'
        → t'.select_task_rq ≡ (event_add t.select_task_rq fn).2
    unfolding on_select
    on_select-added {t'} e = elim (Bool-cases (event_add t.select_task_rq fn).0) [
      | inl fresh ↦ (hook-SameEvents _ _ _ (rw fresh at e)).select
      | inr old ↦ ap (λ (x : Traced). x.select_task_rq) (sym (ok-inj (rw old at e)))
    ]

    on_balance-added :
        {t' : Traced}
        → on_balance_selected f on fn t ≡ ok t'
        → t'.balance_selected ≡ (event_add t.balance_selected fn).2
    unfolding on_balance_selected
    on_balance-added {t'} e = elim (Bool-cases (event_add t.balance_selected fn).0) [
      | inl fresh ↦
          let (u, ea, eb) = >>=-eq-ok _ _ (rw fresh at e) in
          (hook-SameEvents _ _ _ eb).balance ∙ (hook-SameEvents _ _ _ ea).balance
      | inr old ↦ ap (λ (x : Traced). x.balance_selected) (sym (ok-inj (rw old at e)))
    ]

  module _ (on : Handlers) (fn : ℕ) (t : Traced) where
    pub on_select-again :
        {t' : Traced}
        → IsValid t.select_task_rq
        → on_select f on fn t ≡ ok t'
        → on_select f on fn t' ≡ ok t'
    on_select-again {t'} v e =
        let (a, b) = event_add-again fn v in
        let added = on_select-added on fn t e in on_select-stale on fn t' (rw added a) (rw added b)

    pub on_balance-again :
        {t' : Traced}
        → IsValid t.balance_selected
        → on_balance_selected f on fn t ≡ ok t'
        → on_balance_selected f on fn t' ≡ ok t'
    on_balance-again {t'} v e =
        let (a, b) = event_add-again fn v in
        let added = on_balance-added on fn t e in
        on_balance-stale on fn t' (rw added a) (rw added b)
