-- ===== src/Sleep/Tests.antt =====
-- The idle task starts; a worker is chosen, sleeps on a queue and is woken.
use hack_linux.Base.{
  ◌==◌, if◌then◌else◌, update, ◌≡◌, refl, Bool, true, false, Option, none, some, [], ◌∷◌, map,
}
use hack_linux.Sched.{
  Kernel, some_bit, wakes, checked, woken_event, check_slots, pick, recharge, choose, schedule,
}
use hack_linux.Sched.Samples.{idle_task, sleeper, three_tasks}
use hack_linux.Sleep.{sleep_on}
use hack_linux.Sleep.Log.{Logged}
use hack_linux.Sleep.Steps.{
  go_on, after_sleep_on, World, with_rest, preempted, sleeps, start, next, Reach-Logged,
}

abbrev boot : Kernel
boot = record { task = three_tasks; current = 0; jiffies = 7; log = [] }

boot-Logged : Logged boot
boot-Logged = record { running = refl; idle = (0, refl) }

abbrev run_or : Kernel → Option Kernel → Kernel
run_or k none = k
run_or k (some r) = r

-- The kernel after a switch.
abbrev switch : Kernel → Kernel
switch k = run_or k (schedule 2 k)

abbrev booted : World
booted = record { kernel = boot; queue = λ q. none; rest = λ i. go_on }

abbrev working : World
working = record booted { kernel = switch boot }

abbrev sleeping : World
sleeping = record {
  kernel = switch (sleep_on none working.kernel).1.1;
  queue = update (λ q. none) 5 (sleep_on none working.kernel).1.0;
  rest = with_rest working (after_sleep_on (sleep_on none working.kernel).0);
}

abbrev is_some : Option Kernel → Bool
is_some none = false
is_some (some k) = true

run_of : (k : Kernel) (o : Option Kernel) → is_some o ≡ true → o ≡ some (run_or k o)
run_of k none h = cc
run_of k (some r) h = refl

abbrev asleep_kernel : Kernel
asleep_kernel = (sleep_on none working.kernel).1.1

boot_ends : is_some (schedule 2 boot) ≡ true
unfolding schedule check_slots choose checked wakes some_bit woken_event pick recharge
boot_ends = refl

worker_runs : working.kernel.current ≡ 2
unfolding schedule check_slots choose checked wakes some_bit woken_event pick recharge
worker_runs = refl

sleep_ends : is_some (schedule 2 asleep_kernel) ≡ true
unfolding schedule check_slots choose checked wakes some_bit woken_event pick recharge sleep_on
sleep_ends = refl

Reach-Logged_example : Logged sleeping.kernel
Reach-Logged_example = Reach-Logged {from = booted} {w = sleeping} boot-Logged (
    next working sleeping
      (next booted working start
        (preempted booted working.kernel (2, run_of boot (schedule 2 boot) boot_ends)))
      (sleeps working 5 sleeping.kernel refl
        (2, run_of asleep_kernel (schedule 2 asleep_kernel) sleep_ends)))

-- A process that a signal wakes while it is the best choice goes on with a line J and no line R.
abbrev alarmed : Kernel
alarmed = record {
  task = λ i. if i == 0 then some idle_task else if i == 1 then some sleeper else none;
  current = 1;
  jiffies = 60;
  log = [];
}

ready_but_running : map (λ e. e.letter) (switch alarmed).log ≡ b'J' ∷ []
unfolding schedule check_slots choose checked wakes some_bit woken_event pick recharge
ready_but_running = refl
