-- ===== src/Sched/Bounds.antt =====
-- The counters stay small, so that they do not overflow.
use hack_linux.Base.{ℕ, suc, ◌*◌, ◌≤◌, ◌<◌, ◌≡◌, some, arith}
use hack_linux.Sched.{Tasks, Kernel, checked, recharged, schedule}
use hack_linux.Sched.Slots.{Every, Every-map}
use hack_linux.Sched.Choice.{
  Choice, idle, at_once, after_recharge, HasPriority, checked-kept, schedule-Scheduled,
}

-- No task outside slot 0 has more than two time slices.
abbrev pub Bounded : Tasks → Type 0
Bounded = Every (λ t. t.counter ≤ 2 * t.priority)

Bounded-Choice :
    (task : Tasks)
    → Bounded task
    → HasPriority task
    → {next : ℕ} {table : Tasks} → Choice task (some (next, table))
    → Bounded table × HasPriority table
Bounded-Choice task b h (idle x) = (b, h)
Bounded-Choice task b h (at_once i t x y) = (b, h)
Bounded-Choice task b h {table = table} (after_recharge i t u z slots x y) = (
  Every-map _ (λ t. t.counter ≤ 2 * t.priority) recharged task table slots (λ t small. omega arith)
      b,
  Every-map _ (λ t. 0 < t.priority) recharged task table slots (λ t p. p) h,
)

-- When no task outside slot 0 has more than two time slices left and each has a positive priority,
-- schedule comes back and that is so again: the counters never pass twice the priority.
pub schedule-Bounded :
    (k : Kernel) (n : ℕ)
    → HasPriority k.task
    → Bounded k.task
    → (r : Kernel) × ((schedule (suc (suc n)) k ≡ some r) × (Bounded r.task × HasPriority r.task))
schedule-Bounded k n h b =
    let (r, (e, s)) = schedule-Scheduled k n h in
    (
      r,
      (
        e,
        Bounded-Choice s.woken
            (Every-map _ (λ t. t.counter ≤ 2 * t.priority) (checked k.jiffies) k.task s.woken
              s.signals
              (λ t x. let kept = checked-kept k.jiffies t in omega (arith, kept.0, kept.1)) b)
            (Every-map _ (λ t. 0 < t.priority) (checked k.jiffies) k.task s.woken s.signals
              (λ t x. omega (arith, (checked-kept k.jiffies t).0)) h)
            s.choice,
      ),
    )
