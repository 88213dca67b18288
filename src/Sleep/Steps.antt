-- ===== src/Sleep/Steps.antt =====
-- The functions of Sleep and schedule as steps of the running task, in any order: kernel/sched.c
-- (Lab 3).
use hack_linux.Base.{
  ◌==◌, if◌then◌else◌, Bool-cases, update, ℕ, ◌+◌, ◌≡◌, refl, subst, inl, inr, Bool, true, false,
  Option, none, some,
}
use hack_linux.Sched.{
  State, task_interruptible, task_uninterruptible, Kernel, change, fprintk, raise, schedule,
}
use hack_linux.Sleep.{
  set_state, wake_up, has_pid_zero, sys_pause, sleep_on, wake_tmp, wait_again,
  interruptible_sleep_on, another_first, interruptible_rest,
}
use hack_linux.Sleep.Log.{
  Logged, Quiet, Quiet-refl, Quiet-trans, Quiet-Logged, change-Quiet, fprintk-Quiet,
  wake_task-Quiet, wake_tmp-Quiet,
}
use hack_linux.Sleep.Switch.{schedule-Logged}

-- What a task does first when it runs again: the code behind schedule, with `tmp` and the number of
-- the queue.
pub data Rest : Type 0 where
  go_on : Rest
  after_sleep_on : Option ℕ → Rest
  after_interruptible : Option ℕ → ℕ → Rest

pub record World : Type 0 where
  pub kernel : Kernel
  pub queue : ℕ → Option ℕ
  pub rest : ℕ → Rest

-- A task leaves the processor: schedule, with enough rounds.
abbrev pub Leaves : Kernel → Kernel → Type 0
Leaves k k' = (rounds : ℕ) × (schedule rounds k ≡ some k')

abbrev pub mine : World → Rest
mine w = w.rest w.kernel.current

abbrev pub with_rest : World → Rest → ℕ → Rest
with_rest w r = update w.rest w.kernel.current r

pub data Step : World → World → Type 0 where
  clock :
      (w : World)
      → Step w (record w { kernel = record w.kernel { jiffies = w.kernel.jiffies + 1 } })
  preempted : (w : World) (k : Kernel) → Leaves w.kernel k → Step w (record w { kernel = k })
  signalled :
      (w : World) (i n : ℕ)
      → Step w
          (record w { kernel = change (λ t. record t { signal = raise n t.signal }) i w.kernel })
  pauses :
      (w : World) (k : Kernel)
      → mine w ≡ go_on
      → Leaves (sys_pause w.kernel) k
      → Step w (record w { kernel = k })
  sleeps :
      (w : World) (q : ℕ) (k : Kernel)
      → mine w ≡ go_on
      → Leaves (sleep_on (w.queue q) w.kernel).1.1 k
      → Step w (record {
        kernel = k;
        queue = update w.queue q (sleep_on (w.queue q) w.kernel).1.0;
        rest = with_rest w (after_sleep_on (sleep_on (w.queue q) w.kernel).0);
      })
  wakes_next :
      (w : World) (tmp : Option ℕ)
      → mine w ≡ after_sleep_on tmp
      → Step w (record w { kernel = wake_tmp tmp w.kernel; rest = with_rest w go_on })
  sleeps_lightly :
      (w : World) (q : ℕ) (tmp head : Option ℕ) (slept k : Kernel)
      → mine w ≡ go_on
      → interruptible_sleep_on (w.queue q) w.kernel ≡ some (tmp, (head, slept))
      → Leaves slept k
      → Step w (record {
        kernel = k;
        queue = update w.queue q head;
        rest = with_rest w (after_interruptible tmp q);
      })
  sleeps_again :
      (w : World) (q : ℕ) (tmp head : Option ℕ) (slept k : Kernel)
      → mine w ≡ after_interruptible tmp q
      → interruptible_rest tmp (w.queue q) w.kernel ≡ (true, (head, slept))
      → Leaves slept k
      → Step w (record w { kernel = k; queue = update w.queue q head })
  leaves_queue :
      (w : World) (q : ℕ) (tmp head : Option ℕ) (k : Kernel)
      → mine w ≡ after_interruptible tmp q
      → interruptible_rest tmp (w.queue q) w.kernel ≡ (false, (head, k))
      → Step w (record { kernel = k; queue = update w.queue q head; rest = with_rest w go_on })
  wakes_queue :
      (w : World) (q : ℕ)
      → Step w (record w {
        kernel = (wake_up (w.queue q) w.kernel).1;
        queue = update w.queue q (wake_up (w.queue q) w.kernel).0;
      })

pub data Reach (from : World) : World → Type 0 where
  start : Reach from from
  next : (w w' : World) → Reach from w → Step w w' → Reach from w'

Leaves-Logged : {k k' : Kernel} → Logged k → Leaves k k' → Logged k'
Leaves-Logged {k} {k'} l (rounds, h) = schedule-Logged rounds k k' l h

wait-Quiet :
    (state : State) (k : Kernel) → Quiet k (fprintk b'W' k.current (set_state state k.current k))
wait-Quiet state k =
    Quiet-trans (change-Quiet (λ t. record t { state = state }) k.current k (λ t. refl))
      (fprintk-Quiet b'W' k.current (set_state state k.current k) refl)

sys_pause-Quiet : (k : Kernel) → Quiet k (sys_pause k)
unfolding sys_pause
sys_pause-Quiet k =
    let waiting = set_state task_interruptible k.current k in
    elim (Bool-cases (has_pid_zero (waiting.task k.current))) [
      | inl zero_pid ↦
          rw zero_pid
            (change-Quiet (λ t. record t { state = task_interruptible }) k.current k (λ t. refl))
      | inr other ↦ rw other (wait-Quiet task_interruptible k)
    ]

sleep_on-Quiet : (queue : Option ℕ) (k : Kernel) → Quiet k (sleep_on queue k).1.1
unfolding sleep_on
sleep_on-Quiet queue k = wait-Quiet task_uninterruptible k

wake_up-Quiet : (queue : Option ℕ) (k : Kernel) → Quiet k (wake_up queue k).1
unfolding wake_up
wake_up-Quiet none k = Quiet-refl k
wake_up-Quiet (some i) k = wake_task-Quiet i k

interruptible_rest-Quiet :
    (tmp queue : Option ℕ) (k : Kernel) → Quiet k (interruptible_rest tmp queue k).1.1
unfolding interruptible_rest
interruptible_rest-Quiet tmp queue k = elim (Bool-cases (another_first queue k.current)) [
  | inl other ↦
      rw other
        (Quiet-trans (wake_tmp-Quiet queue k) (wait-Quiet task_interruptible (wake_tmp queue k)))
  | inr mine ↦ rw mine (wake_tmp-Quiet tmp k)
]

not_a_panic : {A : Type 0} (b : Bool) (x r : A) → (if b then none else some x) ≡ some r → x ≡ r
not_a_panic true x r h = cc
not_a_panic false x r h = cc

interruptible_sleep_on-Quiet :
    (queue : Option ℕ) (k : Kernel) (r : Option ℕ × (Option ℕ × Kernel))
    → interruptible_sleep_on queue k ≡ some r
    → Quiet k r.1.1
unfolding interruptible_sleep_on
interruptible_sleep_on-Quiet queue k r h =
    let same = not_a_panic (k.current == 0) (queue, (some k.current, wait_again k)) r h in
    subst (λ (s : Option ℕ × (Option ℕ × Kernel)). Quiet k s.1.1) same
      (wait-Quiet task_interruptible k)

Step-Logged : {w w' : World} → Logged w.kernel → Step w w' → Logged w'.kernel
Step-Logged l (clock w) = record { running = l.running; idle = l.idle }
Step-Logged l (preempted w k leaves) = Leaves-Logged l leaves
Step-Logged l (signalled w i n) =
    Quiet-Logged (change-Quiet (λ t. record t { signal = raise n t.signal }) i w.kernel (λ t. refl))
      l
Step-Logged l (pauses w k ready leaves) =
    Leaves-Logged (Quiet-Logged (sys_pause-Quiet w.kernel) l) leaves
Step-Logged l (sleeps w q k ready leaves) =
    Leaves-Logged (Quiet-Logged (sleep_on-Quiet (w.queue q) w.kernel) l) leaves
Step-Logged l (wakes_next w tmp rest) = Quiet-Logged (wake_tmp-Quiet tmp w.kernel) l
Step-Logged l (sleeps_lightly w q tmp head slept k ready e leaves) =
    Leaves-Logged
      (Quiet-Logged (interruptible_sleep_on-Quiet (w.queue q) w.kernel (tmp, (head, slept)) e) l)
      leaves
Step-Logged l (sleeps_again w q tmp head slept k rest e leaves) =
    Leaves-Logged
      (Quiet-Logged
        (subst (λ (r : Bool × (Option ℕ × Kernel)). Quiet w.kernel r.1.1) e
          (interruptible_rest-Quiet tmp (w.queue q) w.kernel))
        l)
      leaves
Step-Logged l (leaves_queue w q tmp head k rest e) =
    Quiet-Logged
      (subst (λ (r : Bool × (Option ℕ × Kernel)). Quiet w.kernel r.1.1) e
        (interruptible_rest-Quiet tmp (w.queue q) w.kernel))
      l
Step-Logged l (wakes_queue w q) = Quiet-Logged (wake_up-Quiet (w.queue q) w.kernel) l

-- In any order of clock ticks, switches, signals, pauses, sleeps and wake-ups, from a state in which
-- this holds and slot 0 has a task: the pid in the newest R line of the process log is that of the
-- running task, where a log without such a line counts as pid 0.
pub Reach-Logged : {from w : World} → Logged from.kernel → Reach from w → Logged w.kernel
Reach-Logged l start = l
Reach-Logged l (next w w' reach step) = Step-Logged (Reach-Logged l reach) step
