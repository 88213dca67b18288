-- ===== src/Sleep/Switch.antt =====
-- schedule keeps the process log true to the task that runs: kernel/sched.c (Lab 3).
use hack_linux.Base.{
  if◌then◌else◌, ==_iff, ne→==_false, Bool-cases, Option-cases, update, ℕ, zero, suc, ◌≡◌, refl,
  sym, ap, ◌∙◌, subst, ◌⊎◌, inl, inr, Bool, true, false, ◌&&◌, Option, none, some, List, ℕ_discrete,
}
use hack_linux.Sched.{
  last_task, Task, Event, Tasks, Kernel, map_task, note, is_running, check_slots, above, consider,
  pick, recharged, recharge, is_nothing_left, choose, state_is_running, switched, map_option,
  schedule,
}
use hack_linux.Sleep.Log.{pid_in, latest_run, Logged, Quiet-Logged, update-pids, check_slots-Quiet}

-- Slot 0, or a slot with a task.
abbrev Chosen : Tasks → ℕ → Type 0
Chosen task i = (i ≡ 0) ⊎ ((p : ℕ) × (pid_in task i ≡ some p))

consider-Chosen :
    (task : Tasks) (i : ℕ) (best : Option ℕ × ℕ)
    → Chosen task best.1
    → Chosen task (consider (task i) i best).1
consider-Chosen task i best h = elim (Option-cases (task i)) [
  | inl empty ↦ rw empty h
  | inr (t, filled) ↦ elim (Bool-cases (is_running t.state && above t.counter best.0)) [
    | inl better ↦ rw (filled, better) (inr (t.pid, ap (map_option (λ u. u.pid)) filled))
    | inr worse ↦ rw (filled, worse) h
  ]
]

pick-Chosen :
    (n : ℕ) (task : Tasks) (best : Option ℕ × ℕ)
    → Chosen task best.1
    → Chosen task (pick n task best).1
unfolding pick
pick-Chosen zero task best h = h
pick-Chosen (suc n) task best h =
    pick-Chosen n task (consider (task (suc n)) (suc n) best) (consider-Chosen task (suc n) best h)

recharge-pids : (n i : ℕ) (task : Tasks) → pid_in (recharge n task) i ≡ pid_in task i
unfolding recharge
recharge-pids zero i task = refl
recharge-pids (suc n) i task =
    recharge-pids n i (update task (suc n) (map_task recharged (task (suc n))))
    ∙ update-pids recharged (suc n) i task (λ t. refl)

-- The result of choose: the slot, and the pids as before.
abbrev Picked : Tasks → ℕ × Tasks → Type 0
Picked task (next, table) = Chosen task next × ((i : ℕ) → pid_in table i ≡ pid_in task i)

Chosen-pids :
    (task table : Tasks) (i : ℕ)
    → ((j : ℕ) → pid_in table j ≡ pid_in task j)
    → Chosen table i
    → Chosen task i
Chosen-pids task table i same (inl h) = inl h
Chosen-pids task table i same (inr (p, h)) = inr (p, sym (same i) ∙ h)

either_some :
    (b : Bool) (rest : Option (ℕ × Tasks)) (x r : ℕ × Tasks)
    → (if b then rest else some x) ≡ some r
    → (rest ≡ some r) ⊎ (x ≡ r)
either_some true rest x r h = inl h
either_some false rest x r h = inr (cc)

Picked-now :
    (task : Tasks) (r : ℕ × Tasks) → ((pick last_task task (none, 0)).1, task) ≡ r → Picked task r
Picked-now task r e =
    subst (λ s. Picked task s) e (pick-Chosen last_task task (none, 0) (inl refl), λ i. refl)

Picked-later : (task : Tasks) (r : ℕ × Tasks) → Picked (recharge last_task task) r → Picked task r
Picked-later task (next, table) (chosen, same) = (
  Chosen-pids task (recharge last_task task) next (λ j. recharge-pids last_task j task) chosen,
  λ i. same i ∙ recharge-pids last_task i task,
)

choose-Picked : (n : ℕ) (task : Tasks) (r : ℕ × Tasks) → choose n task ≡ some r → Picked task r
unfolding choose
choose-Picked zero task r h = absurd (no_choice h)
  where
    no_choice : ◌≡◌ {A = Option (ℕ × Tasks)} none (some r) → ⊥
    no_choice e = cc
choose-Picked (suc n) task r h =
    let best = pick last_task task (none, 0) in
    elim (either_some (is_nothing_left best.0) (choose n (recharge last_task task)) (best.1, task) r
      h) [
        | inl later ↦ Picked-later task r (choose-Picked n (recharge last_task task) r later)
        | inr now ↦ Picked-now task r now
      ]

note_run :
    (time p : ℕ) (o : Option Task) (log : List Event)
    → map_option (λ t. t.pid) o ≡ some p
    → latest_run (note b'R' time o log) ≡ p
note_run time p none log h = cc
note_run time p (some t) log h = cc

Chosen-pid :
    (k : Kernel) (i : ℕ) → Logged k → Chosen k.task i → (p : ℕ) × (pid_in k.task i ≡ some p)
Chosen-pid k i l (inl first) = (l.idle.0, ap (λ (j : ℕ). pid_in k.task j) first ∙ l.idle.1)
Chosen-pid k i l (inr named) = named

-- The change to the chosen task.
switched-Logged : (k : Kernel) (r : ℕ × Tasks) → Picked k.task r → Logged k → Logged (switched k r)
switched-Logged k (next, table) (chosen, same) l =
    let pid = Chosen-pid k next l chosen in
    let there = same next ∙ pid.1 in
    let first : (p : ℕ) × (pid_in table 0 ≡ some p) = (l.idle.0, same 0 ∙ l.idle.1) in
    elim (ℕ_discrete next k.current) [
      | yes stays ↦
          let here : pid_in table next ≡ some (latest_run k.log) =
            same next ∙ (ap (λ (i : ℕ). pid_in k.task i) stays ∙ l.running) in
          rw ((==_iff next k.current).1 stays) (record { running = here; idle = first })
      | no moves ↦
          let apart = ne→==_false next k.current moves in
          elim (Bool-cases (state_is_running (table k.current))) [
            | inl ready ↦
                let log = note b'J' k.jiffies (table k.current) k.log in
                rw (apart, ready)
                  (record {
                    running =
                        there
                        ∙ ap (λ (p : ℕ). some p)
                            (sym (note_run k.jiffies pid.0 (table next) log there));
                    idle = first;
                  })
            | inr sleeps ↦
                rw (apart, sleeps)
                  (record {
                    running =
                        there
                        ∙ ap (λ (p : ℕ). some p)
                            (sym (note_run k.jiffies pid.0 (table next) k.log there));
                    idle = first;
                  })
          ]
    ]

-- schedule, with any number of rounds that is enough for it to end, leaves the newest R of the log
-- with the pid of the task that runs.
pub schedule-Logged :
    (rounds : ℕ) (k k' : Kernel) → Logged k → schedule rounds k ≡ some k' → Logged k'
unfolding schedule
schedule-Logged rounds k k' l h =
    let woken = check_slots last_task k in
    elim (Option-cases (choose rounds woken.task)) [
      | inl none_of ↦ absurd (nothing woken (sym (ap (map_option (switched woken)) none_of) ∙ h))
      | inr (r, chosen) ↦
          let picked = choose-Picked rounds woken.task r chosen in
          subst (λ s. Logged s) (result woken r (sym (ap (map_option (switched woken)) chosen) ∙ h))
            (switched-Logged woken r picked (Quiet-Logged (check_slots-Quiet last_task k) l))
    ]
  where
    nothing : (w : Kernel) → map_option (switched w) none ≡ some k' → ⊥
    nothing w e = cc

    result :
        (w : Kernel) (r : ℕ × Tasks)
        → map_option (switched w) (some r) ≡ some k'
        → switched w r ≡ k'
    result w r e = cc
