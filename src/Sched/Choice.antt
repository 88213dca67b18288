-- ===== src/Sched/Choice.antt =====
-- schedule as a whole: it comes back after at most two rounds of its second loop, with the task
-- that runs longest still.
use hack_linux.Base.{
  ltb, ◌==◌, if◌then◌else◌, ne→==_false, ==_false→ne, Bool-cases, ℕ, suc, ◌+◌, ◌/◌, ◌≤◌, ◌<◌, ◌≡◌,
  refl, sym, ap, ◌∙◌, subst, ◌≢◌, inl, inr, not, ◌&&◌, Option, none, some, List, ap₂, arith, ◌⊎◌,
  ℕ_discrete,
}
use hack_linux.Sched.{
  last_task, Task, Event, Tasks, Kernel, map_task, sigalrm, raise, wakes, checked, check_slots,
  recharged, recharge, is_nothing_left, choose, state_is_running, switched, schedule, note,
}
use hack_linux.Sched.Slots.{
  each-zero, each-slot, recharge-each, check_slots-each, check_slots-same, Every, Every-map,
}
use hack_linux.Sched.Pick.{Runs, Best, nobody, found, pick-whole}

-- The second loop of schedule: the table it starts with, the slot and the table it ends with.
pub data Choice (task : Tasks) : Option (ℕ × Tasks) → Type 0 where
  -- Nobody runs: the idle task.
  idle :
      ((i : ℕ) (t : Task) → 0 < i → i ≤ last_task → ¬ Runs task i t) → Choice task (some (0, task))
  -- The best task has some of its time slice left.
  at_once :
      (i : ℕ) (t : Task)
      → t.counter ≢ 0
      → Best task 0 (some t.counter, i)
      → Choice task (some (i, task))
  -- All that run have used up their time slices, and every task but the idle one is recharged.
  after_recharge :
      {table : Tasks} (i : ℕ) (t : Task)
      → ((j : ℕ) (u : Task) → 0 < j → j ≤ last_task → Runs task j u → u.counter ≡ 0)
      → table 0 ≡ task 0
      → ((j : ℕ) → 0 < j → j ≤ last_task → table j ≡ map_task recharged (task j))
      → t.counter ≢ 0
      → Best table 0 (some t.counter, i)
      → Choice task (some (i, table))

abbrev pub HasPriority : Tasks → Type 0
HasPriority = Every (λ t. 0 < t.priority)

recharge-slot :
    (task : Tasks) (j : ℕ)
    → 0 < j
    → j ≤ last_task
    → recharge last_task task j ≡ map_task recharged (task j)
recharge-slot task j p q =
    ap (λ f. f j) (recharge-each last_task task) ∙ each-slot recharged last_task j task p q

recharge-idle : (task : Tasks) → recharge last_task task 0 ≡ task 0
recharge-idle task =
    ap (λ f. f 0) (recharge-each last_task task) ∙ each-zero recharged last_task task

-- After a recharge a task that runs has some time left, so the second round ends the loop.
second_round :
    (task : Tasks) (n i : ℕ) (t : Task)
    → 0 < i
    → i ≤ last_task
    → Runs task i t
    → 0 < t.priority
    → ((j : ℕ) (u : Task) → 0 < j → j ≤ last_task → Runs task j u → u.counter ≡ 0)
    → (best : Option ℕ × ℕ) → Best (recharge last_task task) 0 best
    → Choice task (
        if is_nothing_left best.0
        then choose n (recharge last_task (recharge last_task task))
        else some (best.1, recharge last_task task))
second_round task n i t p q r high used _ (nobody none_runs) =
    absurd (none_runs i (recharged t) p q (recharge-slot task i p q ∙ rw r.0, r.1))
second_round task n i t p q r high used _ (found j u a b s most first) =
    let more : t.counter / 2 + t.priority ≤ u.counter =
      most i (recharged t) p q (recharge-slot task i p q ∙ rw r.0, r.1) in
    let left : u.counter ≢ 0 = omega arith in
    rw (ne→==_false u.counter 0 left) (
      after_recharge j u used (recharge-idle task) (recharge-slot task) left
        (found j u a b s most first))

first_round :
    (task : Tasks) (n : ℕ)
    → HasPriority task
    → (best : Option ℕ × ℕ) → Best task 0 best
    → Choice task (
        if is_nothing_left best.0
        then choose (suc n) (recharge last_task task)
        else some (best.1, task))
unfolding choose
first_round task n high _ (nobody none_runs) = idle none_runs
first_round task n high _ (found i t p q r most first) = elim (Bool-cases (t.counter == 0)) [
  | inl used ↦
      let z : t.counter ≡ 0 = ground arith in
      rw used (
        second_round task n i t p q r (high i t p q r.0)
          (λ j u a b s. let less = most j u a b s in omega arith) _
          (pick-whole (recharge last_task task)))
  | inr left ↦ rw left (at_once i t (==_false→ne t.counter 0 left) (found i t p q r most first))
]

pub choose-Choice :
    (task : Tasks) (n : ℕ) → HasPriority task → Choice task (choose (suc (suc n)) task)
unfolding choose
choose-Choice task n high = first_round task n high _ (pick-whole task)

-- What a call of schedule leads to.
pub record Scheduled (k r : Kernel) : Type 0 where
  pub woken : Tasks
  -- The first loop, and the slot that it leaves alone.
  pub signals : (i : ℕ) → 0 < i → i ≤ last_task → woken i ≡ map_task (checked k.jiffies) (k.task i)
  pub idle_slot : woken 0 ≡ k.task 0
  -- The second one.
  pub choice : Choice woken (some (r.current, r.task))
  pub clock : r.jiffies ≡ k.jiffies
  -- If the task changes, the newest event is the start of the new task.
  pub ran :
      (r.current ≡ k.current)
      ⊎ ((rest : List Event) × (r.log ≡ note b'R' k.jiffies (r.task r.current) rest))

ran-switched :
    (k : Kernel) (next : ℕ) (task : Tasks)
    → (next ≡ k.current)
      ⊎ ((rest : List Event) × ((switched k (next, task)).log
            ≡ note b'R' k.jiffies (task next) rest))
ran-switched k next task = elim (ℕ_discrete next k.current) [
  | yes same ↦ inl same
  | no ne ↦ elim (Bool-cases (state_is_running (task k.current))) [
    | inl j ↦ rw (ne→==_false next k.current ne, j) (inr (_, refl))
    | inr w ↦ rw (ne→==_false next k.current ne, w) (inr (_, refl))
  ]
]

-- The task, the slot and the time after a switch.
switched-same :
    (k : Kernel) (next : ℕ) (task : Tasks)
    → let r = switched k (next, task) in
      (r.task ≡ task) × ((r.current ≡ next) × (r.jiffies ≡ k.jiffies))
switched-same k next task = elim (Bool-cases (next == k.current)) [
  | inl same ↦ rw same (refl, (refl, refl))
  | inr other ↦ elim (Bool-cases (state_is_running (task k.current))) [
    | inl j ↦ rw (other, j) (refl, (refl, refl))
    | inr w ↦ rw (other, w) (refl, (refl, refl))
  ]
]

pub checked-kept :
    (now : ℕ) (t : Task)
    → ((checked now t).priority ≡ t.priority) × ((checked now t).counter ≡ t.counter)
unfolding checked
checked-kept now t = elim (Bool-cases (not (t.alarm == 0) && ltb t.alarm now)) [
  | inl due ↦ elim (Bool-cases (wakes (record t { signal = raise sigalrm t.signal; alarm = 0 }))) [
    | inl w ↦ rw (due, w) (refl, refl)
    | inr w ↦ rw (due, w) (refl, refl)
  ]
  | inr later ↦ elim (Bool-cases (wakes t)) [
    | inl w ↦ rw (later, w) (refl, refl)
    | inr w ↦ rw (later, w) (refl, refl)
  ]
]

Choice-schedule :
    (k : Kernel) (n : ℕ) (o : Option (ℕ × Tasks))
    → Choice (check_slots last_task k).task o
    → o ≡ choose n (check_slots last_task k).task
    → (r : Kernel) × ((schedule n k ≡ some r) × Scheduled k r)
unfolding schedule
Choice-schedule k n none c e = elim c [ ]
Choice-schedule k n (some (next, task)) c e =
    let w = check_slots last_task k in
    let same = check_slots-same last_task k in
    let s = switched-same w next task in
    let tasks = check_slots-each last_task k in
    (
      switched w (next, task),
      (
        rw (sym e),
        record {
          woken = w.task;
          signals =
              λ i p q. ap (λ f. f i) tasks ∙ each-slot (checked k.jiffies) last_task i k.task p q;
          idle_slot = ap (λ f. f 0) tasks ∙ each-zero (checked k.jiffies) last_task k.task;
          choice =
              subst (λ x. Choice w.task (some x)) (ap₂ (λ a b. (a, b)) (sym s.1.0) (sym s.0)) c;
          clock = s.1.1 ∙ same.1;
          ran = elim (ran-switched w next task) [
            | inl at ↦ inl (s.1.0 ∙ (at ∙ same.0))
            | inr (rest, eq) ↦ inr (
              rest,
              eq
                  ∙ ap₂ (λ now o. note b'R' now o rest) same.1
                      (ap₂ (λ f i. f i) (sym s.0) (sym s.1.0)),
            )
          ];
        },
      ),
    )

-- When every task outside slot 0 has a positive priority, two rounds of the second loop of schedule
-- are enough. Then every filled slot but 0 has been through the alarm and signal test, and the
-- task that runs next has the largest counter of those that are runnable, and a larger one than
-- those in higher slots; its counter is not 0; if all runnable counters were 0, all tasks outside
-- slot 0 have been recharged first. When nobody is runnable, slot 0 runs. If the task changes, the
-- newest event of the process log is the start of the new one at this time.
pub schedule-Scheduled :
    (k : Kernel) (n : ℕ)
    → HasPriority k.task
    → (r : Kernel) × ((schedule (suc (suc n)) k ≡ some r) × Scheduled k r)
schedule-Scheduled k n high =
    let tasks = check_slots-each last_task k in
    Choice-schedule k (suc (suc n)) _
      (choose-Choice (check_slots last_task k).task n (
        Every-map (λ t. 0 < t.priority) (λ t. 0 < t.priority) (checked k.jiffies) k.task _
          (λ i p q. ap (λ f. f i) tasks ∙ each-slot (checked k.jiffies) last_task i k.task p q)
          (λ t h. omega (arith, (checked-kept k.jiffies t).0)) high))
      refl
