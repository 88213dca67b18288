-- ===== src/Sched.antt =====
-- The task table and the scheduler: kernel/sched.c and include/linux/sched.h (Lab 3). A pointer to a
-- task is the index of its slot in `task`. The numbers of a task are unbounded here: signed overflow
-- is undefined in C, and the bounds that are proved keep the counters small. `log` is what fprintk
-- writes to the process log, the newest event first.
pub mod Slots
pub mod Pick
pub mod Choice
pub mod Signals
pub mod Bounds
pub mod Samples
mod Tests
use hack_linux.Base.{
  ltb, leb, ◌==◌, if◌then◌else◌, ltb→lt, ltb_false→le, lt→ltb, le→ltb_false, leb→le, le→leb,
  lt→leb_false, ==_iff, ne→==_false, ==_false→ne, ==_refl, tests, Bool-cases, Option-cases, update,
  length, get_elem?, set, length-append, length-set, get_elem?-set_self, get_elem?-set_ne, get_or,
  take, drop, replicate, take-append-drop, length-take, length-drop, length-replicate, length-map,
  ℕ, zero, suc, ◌+◌, ◌-◌, ◌*◌, ◌/◌, ◌%◌, ◌^◌, ◌≤◌, ◌<◌, ◌≡◌, refl, sym, ap, ◌∙◌, subst, ◌≢◌, ◌↔◌,
  ◌⊎◌, inl, inr, Bool, true, false, not, ◌&&◌, ◌||◌, Option, none, some, List, [], ◌∷◌, ◌++◌, map,
  ap₂, fun_ext, add-zero, arith, ℕ_discrete, dec_lt,
}
use hack_linux.Base.Int.{
  ℤ, pos, negsuc, pos_part, neg_part, sub_ℕ, ◌+ℤ◌, ◌-ℤ◌, ◌*ℤ◌, ◌≤ℤ◌, ltb_ℤ, +ℤ_parts, -ℤ_parts,
  eq_of_parts, int_laws,
}

abbrev pub nr_tasks : ℕ
nr_tasks = 64

-- The last slot, LAST_TASK.
abbrev pub last_task : ℕ
last_task = 63

abbrev pub hz : ℕ
hz = 100

pub data State : Type 0 where
  task_running : State
  task_interruptible : State
  task_uninterruptible : State
  task_zombie : State
  task_stopped : State

-- A bitmap of signals: signal n is bit n - 1.
abbrev pub Signals : Type 0
Signals = ℕ → Bool

-- The fields of `struct task_struct` that scheduling, signals and the process tree use.
pub record Task : Type 0 where
  pub state : State
  pub counter : ℕ
  pub priority : ℕ
  pub signal : Signals
  pub blocked : Signals
  pub exit_code : ℕ
  pub pid : ℕ
  pub father : ℕ
  pub pgrp : ℕ
  pub session : ℕ
  pub leader : Bool
  pub uid : ℕ
  pub euid : ℕ
  pub alarm : ℕ
  pub utime : ℕ
  pub stime : ℕ
  pub cutime : ℕ
  pub cstime : ℕ

-- A line "pid, letter, jiffies" of the process log.
pub record Event : Type 0 where
  pub of_pid : ℕ
  pub letter : ℕ
  pub time : ℕ

abbrev pub Tasks : Type 0
Tasks = ℕ → Option Task

pub record Kernel : Type 0 where
  pub task : Tasks
  pub current : ℕ
  pub jiffies : ℕ
  pub log : List Event

-- `*p` for a slot that the code takes to be filled changes nothing on an empty one.
abbrev pub map_task : (Task → Task) → Option Task → Option Task
map_task f none = none
map_task f (some t) = some (f t)

abbrev pub change : (Task → Task) → ℕ → Kernel → Kernel
change f i k = record k { task = update k.task i (map_task f (k.task i)) }

-- fprintk(3, "%ld\t%c\t%ld\n", pid, c, jiffies) for the task in a slot.
abbrev pub note : ℕ → ℕ → Option Task → List Event → List Event
note c time none log = log
note c time (some t) log = record { of_pid = t.pid; letter = c; time = time } ∷ log

abbrev pub fprintk : ℕ → ℕ → Kernel → Kernel
fprintk c i k = record k { log = note c k.jiffies (k.task i) k.log }

abbrev pub is_running : State → Bool
is_running task_running = true
is_running task_interruptible = false
is_running task_uninterruptible = false
is_running task_zombie = false
is_running task_stopped = false

abbrev pub is_interruptible : State → Bool
is_interruptible task_running = false
is_interruptible task_interruptible = true
is_interruptible task_uninterruptible = false
is_interruptible task_zombie = false
is_interruptible task_stopped = false

abbrev pub sigkill : ℕ
sigkill = 9

abbrev pub sigalrm : ℕ
sigalrm = 14

abbrev pub sigstop : ℕ
sigstop = 19

-- `signal |= 1<<(n-1)`
abbrev pub raise : ℕ → Signals → Signals
raise n s = update s n true

-- Bit n - 1 of `signal & ~(_BLOCKABLE & blocked)`.
abbrev pub unblocked : Task → Signals
unblocked t n = t.signal n && not (not (n == sigkill || n == sigstop) && t.blocked n)

-- Some bit of signals 1 to n is set.
unfoldable pub some_bit : ℕ → Signals → Bool
some_bit zero s = false
some_bit (suc n) s = let rest = some_bit n s in s (suc n) || rest

-- The alarm of one task in schedule.
abbrev pub ring : ℕ → Task → Task
ring now t =
    if not (t.alarm == 0) && ltb t.alarm now
    then record t { signal = raise sigalrm t.signal; alarm = 0 }
    else t

-- The second test of the loop: the task has an unblocked signal and sleeps interruptibly.
unfoldable pub wakes : Task → Bool
unfolding some_bit
wakes t = some_bit 32 (unblocked t) && is_interruptible t.state

unfoldable pub checked : ℕ → Task → Task
unfolding wakes
checked now t =
    let rung = ring now t in if wakes rung then record rung { state = task_running } else rung

unfoldable pub woken_event : ℕ → Option Task → List Event → List Event
unfolding wakes
woken_event now none log = log
woken_event now (some t) log = if wakes (ring now t) then note b'J' now (some t) log else log

-- The first loop of schedule, over the slots from n down to 1.
unfoldable pub check_slots : ℕ → Kernel → Kernel
unfolding checked woken_event
check_slots zero k = k
check_slots (suc n) k = check_slots n (record k {
  task = update k.task (suc n) (map_task (checked k.jiffies) (k.task (suc n)));
  log = woken_event k.jiffies (k.task (suc n)) k.log;
})

-- `c` of the scheduler proper: none is -1.
abbrev pub above : ℕ → Option ℕ → Bool
above n none = true
above n (some c) = ltb c n

abbrev pub consider : Option Task → ℕ → Option ℕ × ℕ → Option ℕ × ℕ
consider none i best = best
consider (some t) i best =
    if is_running t.state && above t.counter best.0 then (some t.counter, i) else best

-- The search from slot n down to slot 1, with `c` and `next` so far.
unfoldable pub pick : ℕ → Tasks → Option ℕ × ℕ → Option ℕ × ℕ
pick zero task best = best
pick (suc n) task best = pick n task (consider (task (suc n)) (suc n) best)

abbrev pub recharged : Task → Task
recharged t = record t { counter = t.counter / 2 + t.priority }

-- The loop that recharges the slots from n down to 1.
unfoldable pub recharge : ℕ → Tasks → Tasks
recharge zero task = task
recharge (suc n) task = recharge n (update task (suc n) (map_task recharged (task (suc n))))

abbrev pub is_nothing_left : Option ℕ → Bool
is_nothing_left none = false
is_nothing_left (some c) = c == 0

-- `while (1)`, for a number of rounds: the next slot and the table, or none without a choice.
unfoldable pub choose : ℕ → Tasks → Option (ℕ × Tasks)
unfolding pick recharge
choose zero task = none
choose (suc n) task =
    let rest = choose n (recharge last_task task) in
    let best = pick last_task task (none, 0) in
    if is_nothing_left best.0 then rest else some (best.1, task)

-- The log of the change to `next`.
abbrev pub state_is_running : Option Task → Bool
state_is_running none = false
state_is_running (some t) = is_running t.state

abbrev pub log_switch : ℕ → Kernel → Kernel
log_switch next k =
    if next == k.current
    then k
    else fprintk b'R' next
        (if state_is_running (k.task k.current) then fprintk b'J' k.current k else k)

-- switch_to(next): from here on the code runs as the task in slot `next`.
abbrev pub switch_to : ℕ → Kernel → Kernel
switch_to next k = record k { current = next }

abbrev pub switched : Kernel → ℕ × Tasks → Kernel
switched k (next, task) = switch_to next (log_switch next (record k { task = task }))

abbrev pub map_option {ℓ m} : {A : Type ℓ} {B : Type m} → (A → B) → Option A → Option B
map_option f none = none
map_option f (some a) = some (f a)

-- schedule, with a number of rounds for its second loop.
unfoldable pub schedule : ℕ → Kernel → Option Kernel
unfolding check_slots choose
schedule rounds k =
    let woken = check_slots last_task k in map_option (switched woken) (choose rounds woken.task)
