-- ===== src/Kernel/Freezer.antt =====
-- The freezer of kmod/kernel.c on a kernel from 6.1 on.
use kstep.Prelude.{
  ℕ, ◌+◌, ◌-◌, ◌≡◌, refl, sym, Bool, true, false, List, [], ◌∷◌, ◌++◌, if◌then◌else◌, arith,
  Bool-cases, inl, inr,
}
use mathlib.Core.List.{append-nil}

-- What is called of the kernel on a task: whether it is frozen, its `__state`, `freeze_task`, which
-- reads `pm_freezing`, and `__thaw_task`.
pub record Tasks (K : Type 0) : Type 0 where
  pub is_frozen : ℕ → K → Bool
  pub state : ℕ → K → ℕ
  pub freeze_task : Bool → ℕ → K → K
  pub thaw_task : ℕ → K → K

-- The freezer's two switches, the tasks, and the freeze events, the oldest first.
pub record Freezer (K : Type 0) : Type 0 where
  pub pm_freezing : Bool
  pub freezer_active : ℕ
  pub kernel : K
  pub events : List (ℕ × ℕ)

module _ {K : Type 0} where
  unfoldable pub freezer_start : Freezer K → Freezer K
  freezer_start z = record z { freezer_active = z.freezer_active + 1; pm_freezing = true }

  unfoldable pub freezer_stop : Freezer K → Freezer K
  freezer_stop z = record z { pm_freezing = false; freezer_active = z.freezer_active - 1 }

  module _ (t : Tasks K) where
    unfoldable pub freeze_task : ℕ → Freezer K → Freezer K
    unfolding freezer_start freezer_stop
    freeze_task p z =
        let active = z.pm_freezing in
        let started = if active then z else freezer_start z in
        let frozen : Freezer K = record started {
          kernel = t.freeze_task started.pm_freezing p started.kernel;
          events = started.events ++ ((p, t.state p started.kernel) ∷ []);
        } in
        if t.is_frozen p z.kernel then z else if active then frozen else freezer_stop frozen

    unfoldable pub thaw_task : ℕ → Freezer K → Freezer K
    thaw_task p z = record z { kernel = t.thaw_task p z.kernel }

    -- Whether or not the whole system is freezing: a task that is frozen is left alone; any other is
    -- given to `freeze_task` while the freezer is on, and one event has its state before that; and
    -- the freezer's switches are afterwards as they were.
    pub freeze_task-restored :
        (p : ℕ) (z : Freezer K)
        → ((freeze_task p z).pm_freezing ≡ z.pm_freezing)
          × ((freeze_task p z).freezer_active ≡ z.freezer_active)
          × ((freeze_task p z).kernel
              ≡ (if t.is_frozen p z.kernel then z.kernel else t.freeze_task true p z.kernel))
          × ((freeze_task p z).events
              ≡ z.events ++ (if t.is_frozen p z.kernel then [] else (p, t.state p z.kernel) ∷ []))
    unfolding freeze_task
    freeze_task-restored p z = elim (Bool-cases (t.is_frozen p z.kernel)) [
      | inl frozen ↦ rw frozen (refl, refl, refl, sym (append-nil z.events))
      | inr thawed ↦ elim (Bool-cases z.pm_freezing) [
        | inl active ↦ rw (thawed, active) (refl, refl, refl, refl)
        | inr off ↦ rw (thawed, off) (refl, omega arith, refl, refl)
      ]
    ]
