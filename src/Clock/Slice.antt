-- ===== src/Clock/Slice.antt =====
-- The time slice in do_timer, alarms, and priorities under sys_nice.
use hack_linux.Base.{
  ltb, ◌==◌, ltb→lt, ltb_false→le, le→leb, ne→==_false, ==_refl, Bool-cases, Option-cases, ℕ, suc,
  ◌+◌, ◌-◌, ◌*◌, ◌/◌, ◌≤◌, ◌<◌, ◌≡◌, refl, sym, ap, ◌∙◌, subst, ◌⊎◌, inl, inr, Bool, true, false,
  List, ◌∷◌, if◌then◌else◌, Option, ◌≢◌, ap₂, none, some, arith, ℕ_discrete,
}
use hack_linux.Base.Int.{ℤ, pos, negsuc, pos_part, ◌-ℤ◌, ◌≤ℤ◌, ltb_ℤ, int_laws}
use hack_linux.Sched.{hz, Task, Kernel, map_task, change}
use hack_linux.Sched.Slots.{Every}
use hack_linux.Sched.Choice.{HasPriority, Scheduled, schedule-Scheduled}
use hack_linux.Clock.{
  Timer, Clock, Call, sysbeepstop, do_floppy_timer, tick, beep, count_time, run_floppy, count_down,
  run_timers, before_schedule, preempt, do_timer, per_second, new_alarm, sys_alarm, sys_nice,
}

pub change-Every :
    (P : Task → Type 0) (f : Task → Task) (j : ℕ) (k : Kernel)
    → ((t : Task) → P t → P (f t))
    → Every P k.task
    → Every P (change f j k).task
change-Every P f j k keeps every i t p q e = elim (ℕ_discrete i j) [
  | yes at ↦
      changed (Option-cases (k.task i))
        (ap (λ x. map_task f (k.task x)) at ∙ (rw (at, ==_refl j) at e))
  | no ne ↦ every i t p q (rw (ne→==_false i j ne) at e)
]
  where
    no_task : none ≡ some t → ⊥
    no_task x = cc

    some_injective : {a b : Task} → some a ≡ some b → a ≡ b
    some_injective x = cc

    changed :
        (k.task i ≡ none) ⊎ ((u : Task) × (k.task i ≡ some u))
        → map_task f (k.task i) ≡ some t
        → P t
    changed (inl empty) x = absurd (no_task (sym (ap (map_task f) empty) ∙ x))
    changed (inr (u, full)) x =
        let eq : some (f u) ≡ some t = sym (ap (map_task f) full) ∙ x in
        subst P (some_injective eq) (keeps u (every i u p q full))

count_time-priority : (user : Bool) (t : Task) → (count_time user t).priority ≡ t.priority
count_time-priority true t = refl
count_time-priority false t = refl

count_time-counter : (user : Bool) (t : Task) → (count_time user t).counter ≡ t.counter
count_time-counter true t = refl
count_time-counter false t = refl

beep-kernel : (c : Clock) → (beep c).kernel ≡ c.kernel
beep-kernel c = elim (Bool-cases (c.beepcount == 0)) [
  | inl quiet ↦ rw quiet refl
  | inr on ↦ elim (Bool-cases (c.beepcount - 1 == 0)) [
    | inl stop ↦ rw (on, stop) refl
    | inr more ↦ rw (on, more) refl
  ]
]

run_floppy-kernel : (c : Clock) → (run_floppy c).kernel ≡ c.kernel
run_floppy-kernel c = elim (Bool-cases c.motor_on) [ inl on ↦ rw on refl | inr off ↦ rw off refl ]

-- Only the times and the counter of the task that runs change before schedule.
before-kernel :
    (user : Bool) (c : Clock)
    → (before_schedule user c).kernel
      ≡ (let k = c.kernel in change count_down k.current (change (count_time user) k.current k))
before-kernel user c =
    ap (λ k. change count_down k.current k)
      (run_floppy-kernel _ ∙ ap (λ k. change (count_time user) k.current k) (beep-kernel c))

before-HasPriority :
    (user : Bool) (c : Clock)
    → HasPriority c.kernel.task
    → HasPriority (before_schedule user c).kernel.task
before-HasPriority user c h =
    subst (λ k. HasPriority k.task) (sym (before-kernel user c))
      (change-Every (λ t. 0 < t.priority) count_down c.kernel.current
        (change (count_time user) c.kernel.current c.kernel) (λ t p. p)
        (change-Every (λ t. 0 < t.priority) (count_time user) _ c.kernel
          (λ t p. omega (arith, count_time-priority user t)) h))

before-current :
    (user : Bool) (c : Clock) (t : Task)
    → c.kernel.task c.kernel.current ≡ some t
    → (let k = (before_schedule user c).kernel in k.task k.current)
      ≡ some (count_down (count_time user t))
before-current user c t e =
    ap (λ k. k.task k.current) (before-kernel user c) ∙ rw (==_refl c.kernel.current, e) refl

-- The beeper in a tick: the count after it and the calls.
pub data Beeped (c : Clock) : ℕ → List Call → Type 0 where
  silent : c.beepcount ≡ 0 → Beeped c c.beepcount c.calls
  stops : c.beepcount ≡ 1 → Beeped c 0 (sysbeepstop ∷ c.calls)
  counts : 1 < c.beepcount → Beeped c (c.beepcount - 1) c.calls

-- One tick for a task: a user or a system tick, and one less of its time slice.
abbrev pub charge : Bool → Task → Task
charge user t = record t {
  utime = if user then t.utime + 1 else t.utime;
  stime = if user then t.stime else t.stime + 1;
  counter = t.counter - 1;
}

-- The state `s` of a tick before its look at the time slice of the task `t`, which runs.
pub record Ticked (user : Bool) (c : Clock) (t : Task) (s : Clock) : Type 0 where
  pub beeped : List Call
  pub beeper : Beeped c s.beepcount beeped
  pub timers : s.timers ≡ (tick c.timers beeped).0
  pub calls : s.calls ≡ (
      if c.motor_on then do_floppy_timer ∷ (tick c.timers beeped).1 else (tick c.timers beeped).1)
  pub motor_on : s.motor_on ≡ c.motor_on
  pub mine : s.kernel.task c.kernel.current ≡ some (charge user t)
  pub others : (i : ℕ) → i ≢ c.kernel.current → s.kernel.task i ≡ c.kernel.task i
  pub current : s.kernel.current ≡ c.kernel.current
  pub jiffies : s.kernel.jiffies ≡ c.kernel.jiffies
  pub log : s.kernel.log ≡ c.kernel.log

-- What a tick does with the task that runs, whose time slice was `counter`; `s` is the state before
-- schedule.
pub data Sliced (user : Bool) (counter : ℕ) (s : Clock) : Option Clock → Type 0 where
  goes_on : 1 < counter → Sliced user counter s (some s)
  in_kernel : counter ≤ 1 → user ≡ false → Sliced user counter s (some s)
  preempted :
      (r : Kernel)
      → counter ≤ 1
      → user ≡ true
      → Scheduled s.kernel r
      → Sliced user counter s (some (record s { kernel = r }))

preempt-Sliced :
    (n : ℕ) (user : Bool) (s : Clock) (t : Task) (counter : ℕ)
    → s.kernel.task s.kernel.current ≡ some t
    → t.counter ≡ counter - 1
    → HasPriority s.kernel.task
    → Sliced user counter s (preempt (suc (suc n)) user s)
unfolding preempt
preempt-Sliced n user s t counter e left h = elim (Bool-cases (ltb 0 t.counter)) [
  | inl more ↦ let lt = ltb→lt 0 t.counter more in rw (e, more) (goes_on (omega arith))
  | inr used ↦
      let le = ltb_false→le 0 t.counter used in
      elim (Bool-cases user) [
        | inr kernel ↦ rw (e, used, kernel) (in_kernel (omega arith) refl)
        | inl at_user ↦
            let (r, (eq, done)) = schedule-Scheduled s.kernel n h in
            rw (e, used, at_user, eq) (preempted r (omega arith) refl done)
      ]
]

beep-Beeped : (c : Clock) → Beeped c (beep c).beepcount (beep c).calls
beep-Beeped c = elim (Bool-cases (c.beepcount == 0)) [
  | inl quiet ↦ rw quiet (silent (ground arith))
  | inr on ↦ elim (Bool-cases (c.beepcount - 1 == 0)) [
    | inl stop ↦ rw (on, stop) (stops (ground arith))
    | inr more ↦ rw (on, more) (counts (ground arith))
  ]
]

beep-timers : (c : Clock) → ((beep c).timers ≡ c.timers) × ((beep c).motor_on ≡ c.motor_on)
beep-timers c = elim (Bool-cases (c.beepcount == 0)) [
  | inl quiet ↦ rw quiet (refl, refl)
  | inr on ↦ elim (Bool-cases (c.beepcount - 1 == 0)) [
    | inl stop ↦ rw (on, stop) (refl, refl)
    | inr more ↦ rw (on, more) (refl, refl)
  ]
]

run_floppy-timers : (c : Clock) → (run_floppy c).timers ≡ c.timers
run_floppy-timers c = elim (Bool-cases c.motor_on) [ inl on ↦ rw on refl | inr off ↦ rw off refl ]

run_floppy-motor : (c : Clock) → (run_floppy c).motor_on ≡ c.motor_on
run_floppy-motor c = elim (Bool-cases c.motor_on) [ inl on ↦ rw on refl | inr off ↦ rw off refl ]

run_floppy-beepcount : (c : Clock) → (run_floppy c).beepcount ≡ c.beepcount
run_floppy-beepcount c = elim (Bool-cases c.motor_on) [
  | inl on ↦ rw on refl
  | inr off ↦ rw off refl
]

run_floppy-calls :
    (c : Clock) → (run_floppy c).calls ≡ (if c.motor_on then do_floppy_timer ∷ c.calls else c.calls)
run_floppy-calls c = elim (Bool-cases c.motor_on) [ inl on ↦ rw on refl | inr off ↦ rw off refl ]

charged : (user : Bool) (t : Task) → count_down (count_time user t) ≡ charge user t
charged true t = refl
charged false t = refl

module _ (user : Bool) (c : Clock) where
  before-others :
      (i : ℕ) → i ≢ c.kernel.current → (before_schedule user c).kernel.task i ≡ c.kernel.task i
  before-others i ne =
      ap (λ k. k.task i) (before-kernel user c) ∙ rw (ne→==_false i c.kernel.current ne) refl

  before-Ticked :
      (t : Task)
      → c.kernel.task c.kernel.current ≡ some t
      → Ticked user c t (before_schedule user c)
  before-Ticked t e =
      let current = ap (λ k. k.current) (before-kernel user c) in
      let (timers, motor) = beep-timers c in
      let ran : Clock = run_timers (record (beep c) {
        kernel = change (count_time user) (beep c).kernel.current (beep c).kernel;
      }) in
      record {
        beeped = (beep c).calls;
        beeper =
            subst (λ (n : ℕ). Beeped c n (beep c).calls) (sym (run_floppy-beepcount ran))
              (beep-Beeped c);
        timers = run_floppy-timers ran ∙ ap (λ ts. (tick ts (beep c).calls).0) timers;
        calls =
            run_floppy-calls ran
            ∙ ap₂
                (λ (m : Bool) (ts : List Timer).
                  if m
                  then do_floppy_timer ∷ (tick ts (beep c).calls).1
                  else (tick ts (beep c).calls).1)
                motor timers;
        motor_on = run_floppy-motor ran ∙ motor;
        mine =
            ap (λ i. (before_schedule user c).kernel.task i) (sym current)
            ∙ (before-current user c t e ∙ ap some (charged user t));
        others = before-others;
        current = current;
        jiffies = ap (λ k. k.jiffies) (before-kernel user c);
        log = ap (λ k. k.log) (before-kernel user c);
      }

-- When the task that runs is in the table and all others have a positive priority, a tick of
-- do_timer always comes back. It counts the beeper down and stops it at 0, runs the timers that are
-- due and then the floppy timer if a motor is on, and takes one tick of the running task's slice,
-- which counts as its user time or its system time; no other task changes, nor the log. The task
-- goes on if it had more than one tick left or is in the kernel; otherwise schedule chooses, as
-- `Scheduled` says.
pub do_timer-Sliced :
    (n : ℕ) (user : Bool) (c : Clock) (t : Task)
    → c.kernel.task c.kernel.current ≡ some t
    → HasPriority c.kernel.task
    → (s : Clock) × Ticked user c t s × Sliced user t.counter s (do_timer (suc (suc n)) user c)
unfolding do_timer
do_timer-Sliced n user c t e h = (
  before_schedule user c,
  before-Ticked user c t e,
  preempt-Sliced n user (before_schedule user c) (count_down (count_time user t)) t.counter
      (before-current user c t e) (omega (arith, count_time-counter user t))
      (before-HasPriority user c h),
)

-- For a positive delay that is not over yet, a second sys_alarm returns the whole seconds that are
-- left of it.
pub sys_alarm-left :
    (seconds now passed : ℕ) (again : ℤ) (t : Task)
    → 0 < seconds
    → passed ≤ hz * seconds
    → (sys_alarm again (now + passed) (sys_alarm (pos seconds) now t).1).0
      ≡ pos ((hz * seconds - passed) / hz)
unfolding sys_alarm per_second
sys_alarm-left seconds now passed again t p q =
    let set : new_alarm (pos seconds) now ≡ now + hz * seconds = ground arith in
    let left : now + hz * seconds - (now + passed) ≡ hz * seconds - passed = omega arith in
    rw
      (
        set,
        ne→==_false (now + hz * seconds) 0 (omega arith),
        le→leb (now + passed) (now + hz * seconds) (omega arith),
        left,
      )
      refl

-- What sys_nice does with a priority.
pub data Niced (increment : ℤ) (t : Task) : Task → Type 0 where
  niced :
      (priority : ℕ)
      → 0 < priority
      → pos priority ≡ pos t.priority -ℤ increment
      → Niced increment t (record t { priority = priority })
  refused : pos t.priority ≤ℤ increment → Niced increment t t

-- sys_nice subtracts the increment from the priority if that leaves it positive, and otherwise
-- changes nothing.
pub sys_nice-Niced : (increment : ℤ) (t : Task) → Niced increment t (sys_nice increment t)
unfolding sys_nice
sys_nice-Niced increment t = elim (Bool-cases (ltb_ℤ (pos 0) (pos t.priority -ℤ increment))) [
  | inl fits ↦ rw fits (niced _ (positive _ fits).0 (positive _ fits).1)
  | inr low ↦ rw low (refused (omega (int_laws, ltb_false→le _ _ low)))
]
  where
    positive : (z : ℤ) → ltb_ℤ (pos 0) z ≡ true → (0 < pos_part z) × (pos (pos_part z) ≡ z)
    positive (pos n) h = (ground arith, refl)
    positive (negsuc n) h = absurd (ground (arith, h))
