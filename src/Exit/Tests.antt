-- ===== src/Exit/Tests.antt =====
-- Signals and waiting on a small table: slot 1 holds a task of user 7.
use hack_linux.Base.{◌≡◌, refl, true, some}
use hack_linux.Base.Int.{pos, negsuc}
use hack_linux.Sched.{map_option}
use hack_linux.Sched.Samples.{worker, three_tasks}
use hack_linux.Exit.{bad_argument, send_sig, kill_slot, kill_slots, sys_kill}
use hack_linux.Exit.Kill.{Killed, sys_kill-Killed}
use hack_linux.Exit.Exited.{Exited}

-- kill(-1, 9) by the super-user reaches the tasks and still returns -EINVAL for the empty slots.
reaches :
    map_option (λ t. t.signal 9) ((sys_kill (negsuc 0) (pos 9) worker three_tasks).1 1) ≡ some true
unfolding sys_kill kill_slots kill_slot send_sig
reaches = refl

fails : (sys_kill (negsuc 0) (pos 9) worker three_tasks).0 ≡ bad_argument
unfolding sys_kill kill_slots kill_slot send_sig
fails = refl

sys_kill-Killed_example :
    Killed (pos 1) (pos 9) worker three_tasks (sys_kill (pos 1) (pos 9) worker three_tasks)
sys_kill-Killed_example = sys_kill-Killed (pos 1) (pos 9) worker three_tasks
