-- ===== src/Sched/Tests.antt =====
-- The scheduler on a small table.
use hack_linux.Base.{◌*◌, ◌≤◌, ◌≡◌, refl, some, arith}
use hack_linux.Sched.{Kernel, some_bit, checked, woken_event, map_option, schedule}
use hack_linux.Sched.Samples.{small_kernel, three_tasks-Every, three_tasks-HasPriority}
use hack_linux.Sched.Choice.{HasPriority, Scheduled, schedule-Scheduled}
use hack_linux.Sched.Bounds.{Bounded, schedule-Bounded}

-- At time 100 the alarm has woken the sleeper, which runs; at time 10 the worker is recharged.
runs_sleeper : map_option (λ k. k.current) (schedule 2 (small_kernel 100)) ≡ some 1
unfolding schedule checked woken_event some_bit
runs_sleeper = refl

runs_worker : map_option (λ k. k.current) (schedule 2 (small_kernel 10)) ≡ some 2
unfolding schedule checked woken_event some_bit
runs_worker = refl

schedule-Scheduled_example :
    (r : Kernel) × ((schedule 2 (small_kernel 100) ≡ some r) × Scheduled (small_kernel 100) r)
schedule-Scheduled_example = schedule-Scheduled (small_kernel 100) 0 three_tasks-HasPriority

schedule-Bounded_example :
    (r : Kernel) × ((schedule 2 (small_kernel 10) ≡ some r) × (Bounded r.task × HasPriority r.task))
schedule-Bounded_example =
    schedule-Bounded (small_kernel 10) 0 three_tasks-HasPriority (
      three_tasks-Every (λ t. t.counter ≤ 2 * t.priority) (omega arith) (omega arith) (omega arith))
