-- ===== src/Clock.antt =====
-- Timers, the clock tick, alarms and priorities: add_timer, do_timer, sys_alarm and sys_nice of
-- kernel/sched.c (Lab 3). The functions of timers are recorded when they are called; what they do
-- is not modelled.
pub mod Due
pub mod Ticks
pub mod Slice
mod Tests
use hack_linux.Base.{
  ltb, leb, ◌==◌, if◌then◌else◌, ltb→lt, ltb_false→le, lt→ltb, le→ltb_false, leb→le, le→leb,
  lt→leb_false, ==_iff, ne→==_false, ==_false→ne, ==_refl, tests, Bool-cases, Option-cases, update,
  length, get_elem?, set, length-append, length-set, get_elem?-set_self, get_elem?-set_ne, get_or,
  take, drop, replicate, take-append-drop, length-take, length-drop, length-replicate, length-map,
  ℕ, zero, suc, ◌+◌, ◌-◌, ◌*◌, ◌/◌, ◌%◌, ◌^◌, ◌≤◌, ◌<◌, ◌≡◌, refl, sym, ap, ◌∙◌, subst, ◌≢◌, ◌↔◌,
  ◌⊎◌, inl, inr, Bool, true, false, not, ◌&&◌, ◌||◌, Option, none, some, List, [], ◌∷◌, ◌++◌, map,
  ap₂, fun_ext, add-zero, arith, ℕ_discrete, dec_lt,
}
use hack_linux.Base.Int.{
  ℤ, pos, negsuc, pos_part, neg_part, sub_ℕ, ◌+ℤ◌, ◌-ℤ◌, ◌*ℤ◌, ◌≤ℤ◌, ltb_ℤ, +ℤ_parts, -ℤ_parts,
  eq_of_parts, int_laws,
}
use hack_linux.Sched.{
  nr_tasks, last_task, hz, State, task_running, task_interruptible, task_uninterruptible,
  task_zombie, task_stopped, Signals, Task, Event, Tasks, Kernel, map_task, change, note, fprintk,
  is_running, is_interruptible, sigkill, sigalrm, sigstop, raise, unblocked, some_bit, ring, wakes,
  checked, woken_event, check_slots, above, consider, pick, recharged, recharge, is_nothing_left,
  choose, state_is_running, log_switch, switch_to, switched, map_option, schedule,
}

abbrev pub time_requests : ℕ
time_requests = 64

-- `struct timer_list`: the ticks after the timer before it, and the function (0 is NULL). An
-- element of the array is in use exactly if it is in the list, so the list is the state.
pub record Timer : Type 0 where
  pub jiffies : ℕ
  pub fn : ℕ

-- What the tick calls.
pub data Call : Type 0 where
  timer_fn : ℕ → Call
  sysbeepstop : Call
  do_floppy_timer : Call

-- The loop of add_timer, from the element with the new timer on.
unfoldable pub insert : ℕ → ℕ → List Timer → List Timer
insert jiffies fn [] = record { jiffies = jiffies; fn = fn } ∷ []
insert jiffies fn (t ∷ ts) =
    let rest = insert (jiffies - t.jiffies) fn ts in
    if ltb t.jiffies jiffies then t ∷ rest else record { jiffies = jiffies; fn = fn } ∷ t ∷ ts

-- add_timer: the list and the calls, the newest first; none is the panic "No more time requests
-- free".
unfoldable pub add_timer : ℤ → ℕ → List Timer → List Call → Option (List Timer × List Call)
add_timer jiffies fn timers calls =
    if fn == 0
    then some (timers, calls)
    else if not (ltb_ℤ (pos 0) jiffies)
    then some (timers, timer_fn fn ∷ calls)
    else if leb time_requests (length timers)
    then none
    else some (insert (pos_part jiffies) fn timers, calls)

-- The loop of do_timer over the timers that are due.
unfoldable pub fire : List Timer → List Call → List Timer × List Call
fire [] calls = ([], calls)
fire (t ∷ ts) calls =
    let rest = fire ts (timer_fn t.fn ∷ calls) in if t.jiffies == 0 then rest else (t ∷ ts, calls)

-- The timers in do_timer.
unfoldable pub tick : List Timer → List Call → List Timer × List Call
unfolding fire
tick [] calls = ([], calls)
tick (t ∷ ts) calls = fire (record t { jiffies = t.jiffies - 1 } ∷ ts) calls

pub record Clock : Type 0 where
  pub kernel : Kernel
  pub timers : List Timer
  pub calls : List Call
  pub beepcount : ℕ
  -- `current_DOR & 0xf0`: some motor is on.
  pub motor_on : Bool

abbrev pub beep : Clock → Clock
beep c =
    if c.beepcount == 0
    then c
    else if c.beepcount - 1 == 0
    then record c { beepcount = 0; calls = sysbeepstop ∷ c.calls }
    else record c { beepcount = c.beepcount - 1 }

abbrev pub count_time : Bool → Task → Task
count_time true t = record t { utime = t.utime + 1 }
count_time false t = record t { stime = t.stime + 1 }

abbrev pub run_timers : Clock → Clock
run_timers c =
    let (timers, calls) = tick c.timers c.calls in record c { timers = timers; calls = calls }

abbrev pub run_floppy : Clock → Clock
run_floppy c = if c.motor_on then record c { calls = do_floppy_timer ∷ c.calls } else c

-- `--counter`, which the code sets back to 0 when it is not positive.
abbrev pub count_down : Task → Task
count_down t = record t { counter = t.counter - 1 }

abbrev pub has_time : Option Task → Bool
has_time none = false
has_time (some t) = ltb 0 t.counter

-- do_timer up to the test of the counter; `user` is `cpl` not 0.
abbrev pub before_schedule : Bool → Clock → Clock
before_schedule user c =
    let b = beep c in
    let timed = record b { kernel = change (count_time user) b.kernel.current b.kernel } in
    let ran = run_floppy (run_timers timed) in
    record ran { kernel = change count_down ran.kernel.current ran.kernel }

-- The end of do_timer, with the rounds of schedule.
unfoldable pub preempt : ℕ → Bool → Clock → Option Clock
preempt rounds user c =
    if has_time (c.kernel.task c.kernel.current)
    then some c
    else if not user
    then some c
    else map_option (λ k. record c { kernel = k }) (schedule rounds c.kernel)

unfoldable pub do_timer : ℕ → Bool → Clock → Option Clock
unfolding preempt
do_timer rounds user c = preempt rounds user (before_schedule user c)

-- Division of a signed number by HZ, towards 0.
unfoldable pub per_second : ℤ → ℤ
per_second (pos n) = pos (n / hz)
per_second (negsuc n) = sub_ℕ 0 (suc n / hz)

abbrev pub old_alarm : ℕ → ℕ → ℤ
old_alarm alarm now = if alarm == 0 then pos 0 else per_second (sub_ℕ alarm now)

abbrev pub new_alarm : ℤ → ℕ → ℕ
new_alarm seconds now = if ltb_ℤ (pos 0) seconds then now + hz * pos_part seconds else 0

-- sys_alarm: the result and the task.
unfoldable pub sys_alarm : ℤ → ℕ → Task → ℤ × Task
unfolding per_second
sys_alarm seconds now t = (old_alarm t.alarm now, record t { alarm = new_alarm seconds now })

-- sys_nice
unfoldable pub sys_nice : ℤ → Task → Task
sys_nice increment t =
    let left = pos t.priority -ℤ increment in
    if ltb_ℤ (pos 0) left then record t { priority = pos_part left } else t
