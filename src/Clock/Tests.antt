-- ===== src/Clock/Tests.antt =====
-- Timers due after 5 and 9 ticks, and a tick of a small table.
use hack_linux.Base.{◌≡◌, refl, true, some, List, [], ◌∷◌, arith}
use hack_linux.Base.Int.{pos}
use hack_linux.Sched.{map_option}
use hack_linux.Sched.Samples.{worker, small_kernel, three_tasks-HasPriority}
use hack_linux.Clock.{Timer, timer_fn, insert, add_timer, fire, Clock, do_timer}
use hack_linux.Clock.Due.{due, first, Added, add_timer-Added}
use hack_linux.Clock.Ticks.{ticks, Fired, ticks-Fired}
use hack_linux.Clock.Slice.{Ticked, Sliced, do_timer-Sliced}

abbrev two_timers : List Timer
two_timers = record { jiffies = 5; fn = 1 } ∷ record { jiffies = 4; fn = 2 } ∷ []

-- The timers that were due after 5 and 9 ticks become due after 8 and 12.
later_timers :
    map_option (λ r. due 0 r.0) (add_timer (pos 3) 7 two_timers [])
    ≡ some ((3, 7) ∷ (8, 1) ∷ (12, 2) ∷ [])
unfolding add_timer insert
later_timers = refl

fires : ticks 5 two_timers [] ≡ (record { jiffies = 4; fn = 2 } ∷ [], timer_fn 1 ∷ [])
unfolding ticks fire
fires = refl

add_timer-Added_example : Added (pos 3) 7 two_timers [] (add_timer (pos 3) 7 two_timers [])
add_timer-Added_example = add_timer-Added (pos 3) 7 two_timers []

ticks-Fired_example : Fired 6 0 two_timers [] (ticks 6 two_timers [])
ticks-Fired_example = ticks-Fired 6 two_timers [] (first (omega arith))

abbrev small_clock : Clock
small_clock = record {
  kernel = small_kernel 100;
  timers = two_timers;
  calls = [];
  beepcount = 1;
  motor_on = true;
}

do_timer-Sliced_example :
    (s : Clock) × Ticked true small_clock worker s × Sliced true 0 s (do_timer 2 true small_clock)
do_timer-Sliced_example = do_timer-Sliced 0 true small_clock worker refl three_tasks-HasPriority
