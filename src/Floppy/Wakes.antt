-- ===== src/Floppy/Wakes.antt =====
-- What a tick of the floppy timer does to the tasks: kernel/sched.c (Lab 3).
use hack_linux.Base.{
  ◌==◌, ==_iff, ne→==_false, Bool-cases, ℕ, zero, suc, ◌+◌, ◌-◌, ◌≤◌, ◌<◌, ◌≡◌, refl, sym, ap, ◌∙◌,
  subst, ◌⊎◌, inl, inr, true, Option, none, some, arith, ℕ_discrete,
}
use hack_linux.Sched.{task_running, Task, Kernel}
use hack_linux.Sleep.{wake_task, wake_up}
use hack_linux.Floppy.{Floppy, timer_slot, timer_slots}
use hack_linux.Floppy.Drive.{Drive, drive, timer_slot_other}

-- The slot of a task, and one that can run.
abbrev pub Filled : ℕ → Kernel → Type 0
Filled p k = (t : Task) × (k.task p ≡ some t)

abbrev pub Runs : ℕ → Kernel → Type 0
Runs p k = (t : Task) × ((k.task p ≡ some t) × (t.state ≡ task_running))

wake_task-Filled : (p q : ℕ) (k : Kernel) → Filled p k → Filled p (wake_task q k)
wake_task-Filled p q k (t, h) = elim (ℕ_discrete p q) [
  | yes same ↦ (record t { state = task_running }, rw ((==_iff p q).1 same, sym same, h) refl)
  | no other ↦ (t, rw (ne→==_false p q other) h)
]

wake_task-Runs : (p q : ℕ) (k : Kernel) → Filled p k → (p ≡ q) ⊎ Runs p k → Runs p (wake_task q k)
wake_task-Runs p q k (t, h) (inl same) =
    (record t { state = task_running }, (rw ((==_iff p q).1 same, sym same, h) refl, refl))
wake_task-Runs p q k filled (inr (t, (h, r))) = elim (ℕ_discrete p q) [
  | yes same ↦
      (record t { state = task_running }, (rw ((==_iff p q).1 same, sym same, h) refl, refl))
  | no other ↦ (t, (rw (ne→==_false p q other) h, r))
]

wake_up-Filled : (p : ℕ) (q : Option ℕ) (k : Kernel) → Filled p k → Filled p (wake_up q k).1
unfolding wake_up
wake_up-Filled p none k h = h
wake_up-Filled p (some q) k h = wake_task-Filled p q k h

wake_up-Runs : (p : ℕ) (q : Option ℕ) (k : Kernel) → Runs p k → Runs p (wake_up q k).1
unfolding wake_up
wake_up-Runs p none k h = h
wake_up-Runs p (some q) k (t, (h, r)) = wake_task-Runs p q k (t, h) (inr (t, (h, r)))

-- A tick of a drive changes the kernel by a wake_up, if at all.
timer_slot_kernel :
    (i : ℕ) (f : Floppy)
    → ((timer_slot i f).kernel ≡ f.kernel)
      ⊎ ((timer_slot i f).kernel ≡ (wake_up (f.wait_motor i) f.kernel).1)
unfolding timer_slot
timer_slot_kernel i f = elim (Bool-cases (f.current_dor.motor i)) [
  | inr off ↦ rw off (inl refl)
  | inl on ↦ elim (Bool-cases (f.mon_timer i == 0)) [
    | inl started ↦ elim (Bool-cases (f.moff_timer i == 0)) [
      | inl over ↦ rw (on, started, over) (inl refl)
      | inr runs ↦ rw (on, started, runs) (inl refl)
    ]
    | inr starts ↦ elim (Bool-cases (f.mon_timer i - 1 == 0)) [
      | inl now ↦ rw (on, starts, now) (inr refl)
      | inr later ↦ rw (on, starts, later) (inl refl)
    ]
  ]
]

timer_slot-Filled : (p i : ℕ) (f : Floppy) → Filled p f.kernel → Filled p (timer_slot i f).kernel
timer_slot-Filled p i f h = elim (timer_slot_kernel i f) [
  | inl same ↦ subst (λ k. Filled p k) (sym same) h
  | inr woken ↦ subst (λ k. Filled p k) (sym woken) (wake_up-Filled p (f.wait_motor i) f.kernel h)
]

timer_slot-Runs : (p i : ℕ) (f : Floppy) → Runs p f.kernel → Runs p (timer_slot i f).kernel
timer_slot-Runs p i f h = elim (timer_slot_kernel i f) [
  | inl same ↦ subst (λ k. Runs p k) (sym same) h
  | inr woken ↦ subst (λ k. Runs p k) (sym woken) (wake_up-Runs p (f.wait_motor i) f.kernel h)
]

pub timer_slots-Filled :
    (p n i : ℕ) (f : Floppy) → Filled p f.kernel → Filled p (timer_slots n i f).kernel
unfolding timer_slots
timer_slots-Filled p zero i f h = h
timer_slots-Filled p (suc n) i f h =
    timer_slots-Filled p n (i + 1) (timer_slot i f) (timer_slot-Filled p i f h)

pub timer_slots-Runs :
    (p n i : ℕ) (f : Floppy) → Runs p f.kernel → Runs p (timer_slots n i f).kernel
unfolding timer_slots
timer_slots-Runs p zero i f h = h
timer_slots-Runs p (suc n) i f h =
    timer_slots-Runs p n (i + 1) (timer_slot i f) (timer_slot-Runs p i f h)

-- The drive whose motor is starting, with `left` ticks to go and `p` in the queue.
abbrev pub starting : ℕ → ℕ → ℕ → Drive
starting left stops p = record { on = true; starts_in = left; stops_in = stops; queue = some p }

slot_wakes :
    (i p stops : ℕ) (f : Floppy)
    → Filled p f.kernel
    → drive i f ≡ starting 1 stops p
    → Runs p (timer_slot i f).kernel
unfolding timer_slot wake_up
slot_wakes i p stops f filled d =
    let on = ap (λ (e : Drive). e.on) d in
    let timer = ap (λ (e : Drive). e.starts_in) d in
    let queue = ap (λ (e : Drive). e.queue) d in
    rw (on, timer, queue) (wake_task-Runs p p f.kernel filled (inl refl))

pub slots_wake :
    (n i j p stops : ℕ) (f : Floppy)
    → i ≤ j
    → j < i + n
    → Filled p f.kernel
    → drive j f ≡ starting 1 stops p
    → Runs p (timer_slots n i f).kernel
unfolding timer_slots
slots_wake zero i j p stops f low high filled d = absurd (omega arith)
slots_wake (suc n) i j p stops f low high filled d = elim (ℕ_discrete j i) [
  | yes here ↦
      timer_slots-Runs p n (i + 1) (timer_slot i f)
        (slot_wakes i p stops f filled (subst (λ (k : ℕ). drive k f ≡ starting 1 stops p) here d))
  | no later ↦
      slots_wake n (i + 1) j p stops (timer_slot i f) (omega arith) (omega arith)
        (timer_slot-Filled p i f filled) (timer_slot_other i j f later ∙ d)
]
