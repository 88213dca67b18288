-- ===== src/Sched/Samples.antt =====
-- Small task tables for the tests: the idle task, a task that sleeps with an alarm, and a runnable one
-- whose time slice is used up.
use hack_linux.Base.{
  ◌==◌, if◌then◌else◌, ne→==_false, ℕ, ◌<◌, ◌≡◌, sym, ap, ◌∙◌, subst, false, none, some, [], arith,
  ℕ_discrete,
}
use hack_linux.Sched.{State, task_running, task_interruptible, Task, Tasks, Kernel}
use hack_linux.Sched.Slots.{Every}
use hack_linux.Sched.Choice.{HasPriority}

abbrev pub task_with : State → ℕ → ℕ → ℕ → Task
task_with state counter pid alarm = record {
  state = state;
  counter = counter;
  priority = 15;
  signal = λ n. false;
  blocked = λ n. false;
  exit_code = 0;
  pid = pid;
  father = 0;
  pgrp = 0;
  session = 0;
  leader = false;
  uid = 0;
  euid = 0;
  alarm = alarm;
  utime = 0;
  stime = 0;
  cutime = 0;
  cstime = 0;
}

abbrev pub idle_task : Task
idle_task = task_with task_running 0 0 0

abbrev pub sleeper : Task
sleeper = task_with task_interruptible 4 1 50

abbrev pub worker : Task
worker = task_with task_running 0 2 0

abbrev pub three_tasks : Tasks
three_tasks i =
    if i == 0
    then some idle_task
    else if i == 1
    then some sleeper
    else if i == 2
    then some worker
    else none

abbrev pub small_kernel : ℕ → Kernel
small_kernel now = record { task = three_tasks; current = 2; jiffies = now; log = [] }

some_injective : {a b : Task} → some a ≡ some b → a ≡ b
some_injective e = cc

pub three_tasks-Every :
    (P : Task → Type 0) → P idle_task → P sleeper → P worker → Every P three_tasks
three_tasks-Every P a b c i t p q e = elim (ℕ_discrete i 1) [
  | yes at ↦ subst P (some_injective (ap three_tasks (sym at) ∙ e)) b
  | no ne ↦ elim (ℕ_discrete i 2) [
    | yes at ↦ subst P (some_injective (ap three_tasks (sym at) ∙ e)) c
    | no ne' ↦
        absurd (
          no_task
            (rw (ne→==_false i 0 (omega arith), ne→==_false i 1 ne, ne→==_false i 2 ne') at e))
  ]
]
  where
    no_task : none ≡ some t → ⊥
    no_task x = cc

pub three_tasks-HasPriority : HasPriority three_tasks
three_tasks-HasPriority =
    three_tasks-Every (λ t. 0 < t.priority) (omega arith) (omega arith) (omega arith)
