-- ===== src/Sleep/Log.antt =====
-- The process log and the task that runs: kernel/sched.c (Lab 3).
use hack_linux.Base.{
  ltb, ◌==◌, if◌then◌else◌, ==_iff, ne→==_false, Bool-cases, update, ℕ, zero, suc, ◌≡◌, refl, sym,
  ap, ◌∙◌, inl, inr, false, not, ◌&&◌, Option, none, some, List, [], ◌∷◌, ℕ_discrete,
}
use hack_linux.Sched.{
  task_running, Task, Event, Tasks, Kernel, map_task, change, note, fprintk, sigalrm, raise, ring,
  wakes, checked, woken_event, check_slots, map_option,
}
use hack_linux.Sleep.{set_state, wake_task, wake_tmp}

-- The pid in a slot.
abbrev pub pid_in : Tasks → ℕ → Option ℕ
pid_in task i = map_option (λ t. t.pid) (task i)

-- The pid of the newest line with the letter R; the log starts while task 0 runs.
abbrev pub latest_run : List Event → ℕ
latest_run [] = 0
latest_run (e ∷ log) = if e.letter == b'R' then e.of_pid else latest_run log

-- The log says who runs, and there is a task in slot 0.
pub record Logged (k : Kernel) : Type 0 where
  pub running : pid_in k.task k.current ≡ some (latest_run k.log)
  pub idle : (p : ℕ) × (pid_in k.task 0 ≡ some p)

-- A change of the kernel that neither moves a pid nor starts a task.
pub record Quiet (k k' : Kernel) : Type 0 where
  pub pids : (i : ℕ) → pid_in k'.task i ≡ pid_in k.task i
  pub log : latest_run k'.log ≡ latest_run k.log
  pub current : k'.current ≡ k.current

pub Quiet-refl : (k : Kernel) → Quiet k k
Quiet-refl k = record { pids = λ i. refl; log = refl; current = refl }

pub Quiet-trans : {a b c : Kernel} → Quiet a b → Quiet b c → Quiet a c
Quiet-trans p q = record {
  pids = λ i. q.pids i ∙ p.pids i;
  log = q.log ∙ p.log;
  current = q.current ∙ p.current;
}

pub Quiet-Logged : {k k' : Kernel} → Quiet k k' → Logged k → Logged k'
Quiet-Logged {k} {k'} q l = record {
  running =
      ap (λ (i : ℕ). pid_in k'.task i) q.current
      ∙ (q.pids k.current ∙ (l.running ∙ ap (λ (p : ℕ). some p) (sym q.log)));
  idle = (l.idle.0, q.pids 0 ∙ l.idle.1);
}

map_task-pid :
    (f : Task → Task) (o : Option Task)
    → ((t : Task) → (f t).pid ≡ t.pid)
    → map_option (λ t. t.pid) (map_task f o) ≡ map_option (λ t. t.pid) o
map_task-pid f none same = refl
map_task-pid f (some t) same = ap (λ (p : ℕ). some p) (same t)

pub update-pids :
    (f : Task → Task) (j i : ℕ) (task : Tasks)
    → ((t : Task) → (f t).pid ≡ t.pid)
    → pid_in (update task j (map_task f (task j))) i ≡ pid_in task i
update-pids f j i task same = elim (ℕ_discrete i j) [
  | yes here ↦
      rw ((==_iff i j).1 here)
        (map_task-pid f (task j) same ∙ ap (λ (m : ℕ). pid_in task m) (sym here))
  | no other ↦ rw (ne→==_false i j other) refl
]

pub change-Quiet :
    (f : Task → Task) (i : ℕ) (k : Kernel)
    → ((t : Task) → (f t).pid ≡ t.pid)
    → Quiet k (change f i k)
change-Quiet f i k same = record {
  pids = λ j. update-pids f i j k.task same;
  log = refl;
  current = refl;
}

note-latest :
    (c time : ℕ) (o : Option Task) (log : List Event)
    → (c == b'R') ≡ false
    → latest_run (note c time o log) ≡ latest_run log
note-latest c time none log h = refl
note-latest c time (some t) log h = rw h refl

pub fprintk-Quiet : (c i : ℕ) (k : Kernel) → (c == b'R') ≡ false → Quiet k (fprintk c i k)
fprintk-Quiet c i k h = record {
  pids = λ j. refl;
  log = note-latest c k.jiffies (k.task i) k.log h;
  current = refl;
}

pub wake_task-Quiet : (i : ℕ) (k : Kernel) → Quiet k (wake_task i k)
wake_task-Quiet i k =
    Quiet-trans (change-Quiet (λ t. record t { state = task_running }) i k (λ t. refl))
      (fprintk-Quiet b'J' i (set_state task_running i k) refl)

pub wake_tmp-Quiet : (q : Option ℕ) (k : Kernel) → Quiet k (wake_tmp q k)
wake_tmp-Quiet none k = Quiet-refl k
wake_tmp-Quiet (some i) k = wake_task-Quiet i k

checked_pid : (now : ℕ) (t : Task) → (checked now t).pid ≡ t.pid
unfolding checked
checked_pid now t = elim (Bool-cases (not (t.alarm == 0) && ltb t.alarm now)) [
  | inl due ↦ elim (Bool-cases (wakes (record t { signal = raise sigalrm t.signal; alarm = 0 }))) [
    | inl w ↦ rw (due, w) refl
    | inr w ↦ rw (due, w) refl
  ]
  | inr quiet ↦ elim (Bool-cases (wakes t)) [
    | inl w ↦ rw (quiet, w) refl
    | inr w ↦ rw (quiet, w) refl
  ]
]

woken_event-latest :
    (now : ℕ) (o : Option Task) (log : List Event)
    → latest_run (woken_event now o log) ≡ latest_run log
unfolding woken_event
woken_event-latest now none log = refl
woken_event-latest now (some t) log = elim (Bool-cases (wakes (ring now t))) [
  | inl w ↦ rw w refl
  | inr w ↦ rw w refl
]

pub check_slots-Quiet : (n : ℕ) (k : Kernel) → Quiet k (check_slots n k)
unfolding check_slots
check_slots-Quiet zero k = Quiet-refl k
check_slots-Quiet (suc n) k =
    Quiet-trans
      (record {
        pids = λ i. update-pids (checked k.jiffies) (suc n) i k.task (checked_pid k.jiffies);
        log = woken_event-latest k.jiffies (k.task (suc n)) k.log;
        current = refl;
      })
      (check_slots-Quiet n (record k {
        task = update k.task (suc n) (map_task (checked k.jiffies) (k.task (suc n)));
        log = woken_event k.jiffies (k.task (suc n)) k.log;
      }))
