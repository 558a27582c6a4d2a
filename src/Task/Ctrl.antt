-- ===== src/Task/Ctrl.antt =====
-- `enum kstep_ctrl` of kmod/user.h: what the controller asks of a task.
use kstep.Prelude.{ℕ}

pub data Ctrl : Type 0 where
  none exit pause block chan_read chan_write yield park : Ctrl

-- The byte that stands for an action: the enumerators count from 0.
unfoldable pub code : Ctrl → ℕ
code none = 0
code exit = 1
code pause = 2
code block = 3
code chan_read = 4
code chan_write = 5
code yield = 6
code park = 7
