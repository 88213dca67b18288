-- ===== src/Sleep.antt =====
-- Waiting and waking: sys_pause, sleep_on, interruptible_sleep_on and wake_up of kernel/sched.c
-- (Lab 3), on the kernel of Sched. A function that calls schedule is cut there: its rest runs when
-- the task that called it is `current` again.
pub mod Log
pub mod Switch
pub mod Steps
mod Tests
use hack_linux.Base.{◌==◌, if◌then◌else◌, ℕ, Bool, true, false, not, Option, none, some}
use hack_linux.Sched.{
  State, task_running, task_interruptible, task_uninterruptible, Task, Kernel, change, fprintk,
}

abbrev pub set_state : State → ℕ → Kernel → Kernel
set_state state i k = change (λ t. record t { state = state }) i k

-- `(**p).state=0` and its line in the log, for a queue that is not empty.
abbrev pub wake_task : ℕ → Kernel → Kernel
wake_task i k = fprintk b'J' i (set_state task_running i k)

-- wake_up: the queue and the kernel.
unfoldable pub wake_up : Option ℕ → Kernel → Option ℕ × Kernel
wake_up none k = (none, k)
wake_up (some i) k = (none, wake_task i k)

-- `if ((current->pid) != 0)` before the line in the log.
abbrev pub has_pid_zero : Option Task → Bool
has_pid_zero none = false
has_pid_zero (some t) = t.pid == 0

-- sys_pause up to schedule.
unfoldable pub sys_pause : Kernel → Kernel
sys_pause k =
    let waiting = set_state task_interruptible k.current k in
    if has_pid_zero (waiting.task waiting.current)
    then waiting
    else fprintk b'W' waiting.current waiting

-- sleep_on up to schedule: `tmp`, the queue and the kernel.
unfoldable pub sleep_on : Option ℕ → Kernel → Option ℕ × (Option ℕ × Kernel)
sleep_on queue k =
    (queue, (some k.current, fprintk b'W' k.current (set_state task_uninterruptible k.current k)))

abbrev pub wake_tmp : Option ℕ → Kernel → Kernel
wake_tmp none k = k
wake_tmp (some i) k = wake_task i k

-- interruptible_sleep_on: the part from `repeat` up to schedule.
abbrev pub wait_again : Kernel → Kernel
wait_again k = fprintk b'W' k.current (set_state task_interruptible k.current k)

-- interruptible_sleep_on up to schedule; none is the panic "task[0] trying to sleep".
unfoldable pub interruptible_sleep_on : Option ℕ → Kernel → Option (Option ℕ × (Option ℕ × Kernel))
interruptible_sleep_on queue k =
    if k.current == 0 then none else some (queue, (some k.current, wait_again k))

-- `*p && *p != current`
abbrev pub another_first : Option ℕ → ℕ → Bool
another_first none current = false
another_first (some i) current = not (i == current)

-- Its rest: true if it sleeps again, with the queue and the kernel.
unfoldable pub interruptible_rest : Option ℕ → Option ℕ → Kernel → Bool × (Option ℕ × Kernel)
interruptible_rest tmp queue k =
    if another_first queue k.current
    then (true, (queue, wait_again (wake_tmp queue k)))
    else (false, (none, wake_tmp tmp k))
