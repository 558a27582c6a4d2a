-- ===== src/Check/Table/Again.antt =====
-- Enabling a rule twice is enabling it once.
use kstep.Prelude.{◌≡◌, ap, List, [], ◌∷◌, Bool-cases, inl, inr, ok, >>=-eq-ok, ok-inj}
use kstep.Prelude.Int.{ℤ, pos, negsuc}
use kstep.Text.{Bytes, equal}
use kstep.Event.{event_add}
use kstep.Event.Registry.{IsValid}
use kstep.Event.Again.{event_add-again}
use kstep.Trace.{Ftrace, Handlers, Traced, on_select, on_balance_selected}
use kstep.Trace.Again.{on_select-again, on_balance-again}
use kstep.Check.Table.{
  Rule, sync_wakeup, vruntime, pelt, frozen, balance, work_conserve, util_decay, Callbacks, Watched,
  checks, enable, enable_in, check_enable,
}

-- The lists of the events are valid.
pub record AreValid (w : Watched) : Type 0 where
  pub select : IsValid w.traced.select_task_rq
  pub balance : IsValid w.traced.balance_selected
  pub settle : IsValid w.settle
  pub tick_end : IsValid w.tick_end
  pub freeze : IsValid w.freeze

module _ (f : Ftrace) (on : Handlers) (c : Callbacks) where
  enable-again :
      (r : Rule) (w : Watched) {w' : Watched}
      → AreValid w
      → enable f on c r w ≡ ok w'
      → enable f on c r w' ≡ ok w'
  unfolding enable
  enable-again sync_wakeup w {w'} v e =
      let (u, ea, eb) = >>=-eq-ok _ _ e in
      let (t, ec, ed) = >>=-eq-ok (on_select f on c.sync_wakeup_select w.traced) _ ea in
      let is_u : record w { traced = t } ≡ u = ok-inj ed in
      let is_w : record u { settle = (event_add u.settle c.sync_wakeup_settle).2 } ≡ w' =
        ok-inj eb in
      rw (← is_w, ← is_u) (again t (on_select-again f on c.sync_wakeup_select w.traced v.select ec))
    where
      again :
          (t : Traced)
          → on_select f on c.sync_wakeup_select t ≡ ok t
          → enable f on c sync_wakeup
              (record w { traced = t; settle = (event_add w.settle c.sync_wakeup_settle).2 })
            ≡ ok (record w { traced = t; settle = (event_add w.settle c.sync_wakeup_settle).2 })
      again t h = rw (h, (event_add-again c.sync_wakeup_settle v.settle).1)
  enable-again vruntime w v e = rw (← ok-inj e) (rw (event_add-again c.vruntime_settle v.settle).1)
  enable-again pelt w v e = rw (← ok-inj e) (rw (event_add-again c.pelt_tick v.tick_end).1)
  enable-again frozen w v e = rw (← ok-inj e) (rw (event_add-again c.frozen_freeze v.freeze).1)
  enable-again balance w {w'} v e =
      let (t, ec, ed) = >>=-eq-ok (on_balance_selected f on c.balance_selected w.traced) _ e in
      let is_w : record w { traced = t } ≡ w' = ok-inj ed in
      rw (← is_w) (rw (on_balance-again f on c.balance_selected w.traced v.balance ec))
  enable-again work_conserve w v e =
      rw (← ok-inj e) (rw (event_add-again c.work_conserve_tick v.tick_end).1)
  enable-again util_decay w v e =
      rw (← ok-inj e) (rw (event_add-again c.util_decay_tick v.tick_end).1)

  enable_in-again :
      (name : Bytes) (table : List (Bytes × Rule)) (w : Watched) {err : ℤ} {w' : Watched}
      → AreValid w
      → enable_in f on c name table w ≡ ok (err, w')
      → enable_in f on c name table w' ≡ ok (err, w')
  unfolding enable_in
  enable_in-again name [] w {err} {w'} v e =
      let same = ok-inj e in
      let is_err : negsuc 1 ≡ err = ap (λ (p : ℤ × Watched). p.0) same in rw (← is_err)
  enable_in-again name ((n, r) ∷ table) w {err} {w'} v e = elim (Bool-cases (equal name n)) [
    | inl x ↦
        let (u, ea, eb) = >>=-eq-ok (enable f on c r w) _ (rw x at e) in
        let same = ok-inj eb in
        let is_err : pos 0 ≡ err = ap (λ (p : ℤ × Watched). p.0) same in
        let is_u : u ≡ w' = ap (λ (p : ℤ × Watched). p.1) same in
        rw (x, ← is_err, ← is_u, enable-again r w v ea)
    | inr x ↦ rw x (enable_in-again name table w v (rw x at e))
  ]

  -- Where the events' lists are valid and enabling a rule by its name does not panic, enabling it
  -- again answers the same and changes nothing; so too for a name that is no rule's.
  pub check_enable-again :
      (name : Bytes) (w : Watched) {err : ℤ} {w' : Watched}
      → AreValid w
      → check_enable f on c name w ≡ ok (err, w')
      → check_enable f on c name w' ≡ ok (err, w')
  unfolding check_enable
  check_enable-again name w v e = enable_in-again name checks w v e
