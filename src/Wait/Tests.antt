-- ===== src/Wait/Tests.antt =====
-- A father in slot 1 with a zombie in slot 2, and with a stopped child.
use hack_linux.Base.{◌==◌, if◌then◌else◌, ◌≡◌, refl, false, Option, none, some, List, [], ◌∷◌}
use hack_linux.Base.Int.{ℤ, pos, negsuc}
use hack_linux.Sched.{State, task_running, task_zombie, task_stopped, Task, Kernel, some_bit}
use hack_linux.Sched.Samples.{task_with}
use hack_linux.Wait.{scan, Round, returns, releases, sleeps, echild, waitpid_round, sys_waitpid}
use hack_linux.Wait.Called.{Called, sys_waitpid-Called}

abbrev father : Task
father = task_with task_running 4 1 0

abbrev child_in : State → Task
child_in s = record (task_with s 0 2 0) { father = 1; utime = 3 }

abbrev family : State → Kernel
family s = record {
  task = λ i. if i == 1 then some father else if i == 2 then some (child_in s) else none;
  current = 1;
  jiffies = 9;
  log = [];
}

abbrev result : Round → Option ℤ
result (returns r status k) = some r
result (releases r status k) = none
result (sleeps k) = none

-- schedule() comes back once, with the same kernel but for the zombie.
abbrev later : List (Task × Kernel)
later = (father, family task_running) ∷ []

takes_zombie :
    result (sys_waitpid (negsuc 0) false false later father (family task_zombie)) ≡ some (pos 2)
unfolding sys_waitpid waitpid_round scan
takes_zombie = refl

-- A stopped child alone is no child for a call without WUNTRACED.
ignores_stopped :
    result (sys_waitpid (negsuc 0) false false [] father (family task_stopped)) ≡ some echild
unfolding sys_waitpid waitpid_round scan
ignores_stopped = refl

-- The child lives when the father first looks, and is a zombie after the first sleep, when SIGCHLD is
-- there.
abbrev two_times : List (Task × Kernel)
two_times =
    (record father { signal = λ n. n == 17 }, family task_zombie)
    ∷ (father, family task_running)
    ∷ []

waits_for_zombie :
    result (sys_waitpid (negsuc 0) false false two_times father (family task_running))
    ≡ some (pos 2)
unfolding sys_waitpid waitpid_round scan some_bit
waits_for_zombie = refl

sys_waitpid-Called_example :
    Called
      (negsuc 0)
      false
      false
      two_times
      father
      (family task_running)
      (sys_waitpid (negsuc 0) false false two_times father (family task_running))
sys_waitpid-Called_example =
    sys_waitpid-Called (negsuc 0) false false two_times father (family task_running)
