-- ===== src/Check/Table.antt =====
-- The table of the rules, kmod/checkers/checker.c, with each rule's `enable`.
pub mod Again
mod Tests
use kstep.Prelude.{
  ℕ, zero, suc, ◌+◌, ◌≤◌, ◌<◌, ◌≡◌, refl, sym, ap, ◌∙◌, Bool, true, false, List, [], ◌∷◌, length,
  ◌==◌, ◌||◌, if◌then◌else◌, arith, Bool-cases, inl, inr, Outcome, ok, panic, ◌>>=◌,
}
use kstep.Prelude.Int.{ℤ, pos, negsuc}
use kstep.Text.{Bytes, lit, equal}
use kstep.Event.{Event, known, event_add, event_subs, emit}
use kstep.Event.Registry.{IsValid, contains, emit-add}
use kstep.Trace.{Ftrace, Handlers, Traced, on_select, on_balance_selected}

pub data Rule : Type 0 where
  sync_wakeup vruntime pelt frozen balance work_conserve util_decay : Rule

-- The callbacks that the rules register.
pub record Callbacks : Type 0 where
  pub sync_wakeup_select : ℕ
  pub sync_wakeup_settle : ℕ
  pub vruntime_settle : ℕ
  pub pelt_tick : ℕ
  pub frozen_freeze : ℕ
  pub balance_selected : ℕ
  pub work_conserve_tick : ℕ
  pub util_decay_tick : ℕ

-- The events that they watch.
pub record Watched : Type 0 where
  pub traced : Traced
  pub settle : Event
  pub tick_end : Event
  pub freeze : Event

abbrev pub checks : List (Bytes × Rule)
checks =
    (lit "sync_wakeup", sync_wakeup)
    ∷ (lit "vruntime", vruntime)
    ∷ (lit "pelt", pelt)
    ∷ (lit "frozen", frozen)
    ∷ (lit "balance", balance)
    ∷ (lit "work_conserve", work_conserve)
    ∷ (lit "util_decay", util_decay)
    ∷ []

module _ (f : Ftrace) (on : Handlers) (c : Callbacks) where
  abbrev with_traced : Watched → Outcome Traced → Outcome Watched
  with_traced w t = t >>= λ t'. ok (record w { traced = t' })

  abbrev add_settle : ℕ → Watched → Watched
  add_settle fn w = record w { settle = (event_add w.settle fn).2 }

  abbrev add_tick_end : ℕ → Watched → Watched
  add_tick_end fn w = record w { tick_end = (event_add w.tick_end fn).2 }

  abbrev add_freeze : ℕ → Watched → Watched
  add_freeze fn w = record w { freeze = (event_add w.freeze fn).2 }

  -- The `enable` of a rule.
  unfoldable pub enable : Rule → Watched → Outcome Watched
  enable sync_wakeup w = with_traced w (on_select f on c.sync_wakeup_select w.traced) >>= λ w'.
      ok (add_settle c.sync_wakeup_settle w')
  enable vruntime w = ok (add_settle c.vruntime_settle w)
  enable pelt w = ok (add_tick_end c.pelt_tick w)
  enable frozen w = ok (add_freeze c.frozen_freeze w)
  enable balance w = with_traced w (on_balance_selected f on c.balance_selected w.traced)
  enable work_conserve w = ok (add_tick_end c.work_conserve_tick w)
  enable util_decay w = ok (add_tick_end c.util_decay_tick w)

  enable_in : Bytes → List (Bytes × Rule) → Watched → Outcome (ℤ × Watched)
  enable_in name [] w = ok (negsuc 1, w)
  enable_in name ((n, r) ∷ table) w =
      if equal name n then (enable r w >>= λ w'. ok (pos 0, w')) else enable_in name table w

  -- `kstep_check_enable`; the error is -ENOENT, -2.
  unfoldable pub check_enable : Bytes → Watched → Outcome (ℤ × Watched)
  unfolding enable_in
  check_enable name w = enable_in name checks w
