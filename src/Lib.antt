-- ===== src/Lib.antt =====
-- The kernel module of kSTEP (kmod/, with the task program user/user.c): it drives the Linux
-- scheduler one tick at a time, on CPUs that it keeps from everything else.
--
-- A controller on CPU 0 reads commands from a channel (Io.antt: kmod/io.c) and executes them
-- (Cli.antt: kmod/cli.c). It asks tasks to act through a file that each of them reads (Task.antt:
-- kmod/task.c, kmod/user.h; User.antt: user/user.c), advances a mocked clock (Tick.antt:
-- kmod/tick.c, kmod/tick_clock.c, kmod/tick_jiffies.c) and shapes the machine by a topology spec
-- (Cpu.antt: kmod/cpu.c). What happens is reported to the callbacks of a registry (Event.antt:
-- kmod/event.c, kmod/event.h), and a coverage map counts the edges of the scheduler that were taken
-- (Cov.antt: kmod/cov.c). Kernel functions are hooked for the events that stand behind them
-- (Trace.antt: kmod/trace.c), and rules judge what the scheduler does (Check.antt: kmod/checkers).
-- After every command the scheduler's state is written to a region that the host reads (Shm.antt:
-- kmod/shm.c, kmod/shm.h), and before a session it is put back to a start (Reset.antt:
-- kmod/reset.c). The driver of a session, and the kernel's symbols, are found by name (Sym.antt:
-- kmod/sym.c). What is kept off the test CPUs stands in Isolation.antt (kmod/isolation.c), and the
-- order of start-up in Start.antt (kmod/main.c). Kernel.antt has the writes to kernel files,
-- cgroups, scheduler features and the freezer (kmod/kernel.c), and Text.antt the string functions
-- that the parsers use.
--
-- Task/Ctrl.antt has the actions, Task/Queue.antt `struct kstep_task` with `kstep_ctrl_take` and
-- `kstep_ctrl_put`, Task/Table.antt the records by pid, Task/Read.antt `kstep_ctrl_read` and
-- `kstep_task_ctrl` up to its settle, which is that of Tick.antt, and Task/Create.antt
-- `kstep_task_create` with affinity, policy and wakeup. Cpu/Mask.antt has the cpumasks,
-- Cpu/Topo.antt the levels and `topo_init`, Cpu/Key.antt one key of a spec, Cpu/Spec.antt the whole
-- spec, `kstep_topo_set`, and Cpu/Slice.antt `set_slice_scaling`, which it calls behind the
-- rebuild. Cpu/Boot.antt has `kstep_cpu_init` and the specs of a session. Trace/Hits.antt has the
-- handlers of the hooks. Io/Json.antt has the records, Io/Receive.antt `rx_done` and
-- `kstep_io_readline`, Io/Pool.antt `tx_reclaim` and `kstep_io_write`. Cli/Args.antt has the
-- arguments of commands, Cli/Commands.antt and Cli/Create.antt the commands, Cli/Execute.antt
-- `execute` and `run`, Cli/Reports.antt the reports of moves and the ready record, and
-- Io/Reports.antt those of every CPU. Check.antt has the rules that keep nothing or one
-- observation, Check/Tick.antt work_conserve.c, Check/Wakeup.antt sync_wakeup.c, Check/Decay.antt
-- util_decay.c and Check/Table.antt checker.c. Shm/Entities.antt has `shm_se`, `shm_rt_pick` and
-- `shm_rt_entity`, Shm/Cgroups.antt `shm_collect_cgroups`, Shm/Domains.antt `shm_collect_domains`,
-- and Shm/Update.antt `kstep_shm_update`. Kernel/Features.antt, Kernel/Freezer.antt and
-- Kernel/Groups.antt have those parts of kernel.c. The modules below these are named for what they
-- prove.
--
-- A file with version branches is modelled on the newest kernel that it knows, with the options of
-- linux/config.kstep. The rule of kmod/checkers/vruntime.c is compiled for kernels from 6.6 on and
-- before 6.19, and is modelled on these.
--
-- A fault that stops the machine, a `panic` or a write outside an array, is a value of `Outcome`.
-- `u32` and `u64` counters wrap at 2 ^ 32 and 2 ^ 64, and an `int` sum that is checked wraps at 2 ^
-- 31. The kernel is a parameter: `Tick.Machine` is what a tick calls of it, on a state of any type,
-- `Cpu.Topo.Host` is what a spec reads of it, with the kernel's parsers of numbers and CPU lists,
-- `Io.Pool.Virtqueue` is the queue to the host, `Trace.Ftrace` is what a hook asks for,
-- `Kernel.Files` is the file system, `Sym.Kallsyms` the lookup of a symbol, `Task.Create.Umh` is
-- what making a task calls, `Isolation.Affinity` says whose affinity cannot be changed,
-- `Start.Startup` has these together with the driver's setup, `Shm.Update.Sched` is what the region
-- is filled from, and `Cli.Kernel` is what the commands call. `Kernel.Groups.Groups` and
-- `Kernel.Freezer.Tasks` are what else kernel.c calls.
--
-- The wait for a CPU to settle has fuel, the number of rounds; `Tick.Clocks.Settles` says that each
-- CPU settles in fewer, and a tick then returns. The loop of `tx_reclaim` has fuel for one round
-- more than there are buffers, which is enough for a pool that is valid. `kstep_tick_until` has
-- fuel for the callback's turns; `Tick.Until` shows how many are enough for one that answers at
-- some time. Every other loop is structural.
--
-- Concurrency: the two ends of a task's queue never run at once, as the code says, so an
-- interleaving is a sequence of operations; so are the arrivals and the reader's turns, which the
-- ring's lock orders. The callbacks of an event are numbers, the addresses.
--
-- Not modelled: printing, allocation, locks and barriers, installing the hooks and clocks, the
-- reproduction drivers (kmod/drivers), and what stands outside the module (crates, scripts, linux,
-- docs).
pub mod Prelude
pub mod Task
pub mod User
pub mod Event
pub mod Cov
pub mod Tick
pub mod Text
pub mod Cpu
pub mod Io
pub mod Cli
pub mod Check
pub mod Trace
pub mod Kernel
pub mod Shm
pub mod Reset
pub mod Sym
pub mod Start
pub mod Isolation
