-- ===== src/Exit/Leave.antt =====
-- The end of a process in the task table: do_exit and tell_father of kernel/exit.c (Lab 3). What
-- do_exit does to memory, files and the terminal comes before it and is not modelled here.
use hack_linux.Base.{
  ◌==◌, if◌then◌else◌, update, ℕ, zero, suc, ◌+◌, ◌*◌, ◌%◌, Bool, true, false, not, Option, none,
  some,
}
use hack_linux.Sched.{
  nr_tasks, last_task, State, task_running, task_interruptible, task_uninterruptible, task_zombie,
  task_stopped, Task, Tasks, Kernel, map_task, change, fprintk, raise,
}
use hack_linux.Exit.{kill_session}
use hack_linux.Wait.{release}

abbrev pub sigchld : ℕ
sigchld = 17

abbrev pub child : Task → Task
child t = record t { signal = raise sigchld t.signal }

abbrev pub is_zombie : State → Bool
is_zombie task_running = false
is_zombie task_interruptible = false
is_zombie task_uninterruptible = false
is_zombie task_zombie = true
is_zombie task_stopped = false

-- The body of the loop that gives the children of `pid` to the task in slot 1.
abbrev pub adopt_slot : ℕ → ℕ → Option Task → Tasks → Tasks
adopt_slot pid i none task = task
adopt_slot pid i (some t) task =
    let given = update task i (some (record t { father = 1 })) in
    if not (t.father == pid)
    then task
    else if is_zombie t.state
    then update given 1 (map_task child (given 1))
    else given

-- The loop, for n rounds from slot i on.
unfoldable pub adopt : ℕ → ℕ → ℕ → Tasks → Tasks
adopt zero i pid task = task
adopt (suc n) i pid task = adopt n (i + 1) pid (adopt_slot pid i (task i) task)

abbrev pub slot_has_pid : ℕ → Option Task → Bool
slot_has_pid pid none = false
slot_has_pid pid (some t) = t.pid == pid

-- The loop of tell_father: the first slot with the pid.
unfoldable pub find_father : ℕ → ℕ → ℕ → Tasks → Option ℕ
find_father zero i pid task = none
find_father (suc n) i pid task =
    let rest = find_father n (i + 1) pid task in if slot_has_pid pid (task i) then some i else rest

-- The end of tell_father: the father gets SIGCHLD, or the running task is released; none is the
-- panic of release for task 0.
abbrev pub told : Option ℕ → Kernel → Option Kernel
told none k = if k.current == 0 then none else some (release k.current k)
told (some i) k = some (change child i k)

unfoldable pub tell_father : ℕ → Kernel → Option Kernel
unfolding find_father
tell_father pid k = told (if pid == 0 then none else find_father nr_tasks 0 pid k.task) k

abbrev pub father_of : Option Task → ℕ
father_of none = 0
father_of (some t) = t.father

abbrev pub hang_up : Task → Kernel → Kernel
hang_up me k = if me.leader then record k { task = kill_session last_task me.session k.task } else k

abbrev pub bury : ℕ → Task → Task
bury code t = record t { state = task_zombie; exit_code = code }

-- do_exit by the task `me` from the loop over its children on, up to schedule.
unfoldable pub do_exit : ℕ → Task → Kernel → Option Kernel
unfolding adopt kill_session tell_father
do_exit code me k =
    let adopted = record k { task = adopt nr_tasks 0 me.pid k.task } in
    let hung_up = hang_up me adopted in
    let buried = fprintk b'E' k.current (change (bury code) k.current hung_up) in
    tell_father (father_of (buried.task k.current)) buried

-- `(error_code&0xff)<<8`
abbrev pub sys_exit : ℕ → Task → Kernel → Option Kernel
sys_exit error_code = do_exit (error_code % 256 * 256)
