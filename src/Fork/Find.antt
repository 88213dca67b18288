-- ===== src/Fork/Find.antt =====
-- find_empty_process always comes back, with an unused pid and the first empty slot.
use hack_linux.Base.{
  ◌==◌, if◌then◌else◌, ne→==_false, ==_false→ne, ==_refl, Bool-cases, update, ℕ, zero, suc, ◌+◌,
  ◌≤◌, ◌<◌, ◌≡◌, refl, sym, ap, ◌∙◌, subst, ◌≢◌, inl, inr, true, false, ◌||◌, Option, none, some,
  ap₂, arith, ℕ_discrete,
}
use hack_linux.Base.Int.{ℤ}
use hack_linux.Sched.{nr_tasks, last_task, Task, Tasks, map_option}
use hack_linux.Fork.{
  long_max, next_pid, has_pid, pid_used, find_pid, is_empty, first_empty, slot_or_error,
  find_empty_process,
}
use hack_linux.Fork.Pids.{nth_pid, next_pid-small, nth_pid-ne, filled, filled-update, used-slot}

-- Without the task in slot j, every pid but its own is used as before.
module _ (task : Tasks) (j : ℕ) (t : Task) (full : task j ≡ some t) where
  pid_used-without :
      (n pid : ℕ) → t.pid ≢ pid → pid_used n pid (update task j none) ≡ pid_used n pid task
  unfolding pid_used
  pid_used-without zero pid ne = refl
  pid_used-without (suc n) pid ne =
      ap₂ (λ a b. a || b) (pid_used-without n pid ne)
        (elim (ℕ_discrete n j) [
          | yes at ↦
              rw (ap (λ m. m == j) at, ==_refl j)
                (sym (
                  ap (λ m. has_pid pid (task m)) at
                  ∙ (ap (has_pid pid) full ∙ ne→==_false t.pid pid ne)))
          | no off ↦ rw (ne→==_false n j off) refl
        ])

  find_pid-without :
      (n p : ℕ)
      → ((k : ℕ) → 0 < k → k ≤ n → t.pid ≢ nth_pid k p)
      → find_pid n p (update task j none) ≡ find_pid n p task
  unfolding find_pid nth_pid
  find_pid-without zero p avoids = refl
  find_pid-without (suc n) p avoids =
      ap₂ (λ b r. if b then r else some (next_pid p))
        (pid_used-without nr_tasks (next_pid p) (avoids 1 (omega arith) (omega arith)))
        (find_pid-without n (next_pid p) (λ k a b. avoids (suc k) (omega arith) (omega arith)))

-- More rounds than filled slots are enough.
find_pid-ends :
    (n p : ℕ) (task : Tasks)
    → p < long_max
    → n < 1000
    → filled nr_tasks task < n
    → (pid : ℕ) × (find_pid n p task ≡ some pid)
unfolding find_pid
find_pid-ends zero p task small few fuel = absurd (omega arith)
find_pid-ends (suc n) p task small few fuel =
    elim (Bool-cases (pid_used nr_tasks (next_pid p) task)) [
      | inr free ↦ (next_pid p, rw free refl)
      | inl used ↦
          let (j, (below, (t, (full, named)))) = used-slot nr_tasks (next_pid p) task used in
          let less = filled-update nr_tasks j task t below full in
          let (pid, e) =
            find_pid-ends n (next_pid p) (update task j none) (next_pid-small p small) (omega arith)
              (omega arith) in
          let same = find_pid-without task j t full n (next_pid p) (λ k a b x.
            nth_pid-ne k (next_pid p) (next_pid-small p small) a (omega arith) (sym x ∙ named)) in
          (pid, rw used (sym same ∙ e))
    ]

filled-bound : (n : ℕ) (task : Tasks) → filled n task ≤ n
unfolding filled
filled-bound zero task = omega arith
filled-bound (suc n) task = let less = filled-bound n task in ground arith

-- What a search of n rounds ends with.
pub data PidFound (task : Tasks) (p : ℕ) : Option ℕ → Type 0 where
  out_of_rounds : PidFound task p none
  pid_found :
      (k : ℕ)
      → 0 < k
      → pid_used nr_tasks (nth_pid k p) task ≡ false
      → ((m : ℕ) → 0 < m → m < k → pid_used nr_tasks (nth_pid m p) task ≡ true)
      → PidFound task p (some (nth_pid k p))

find_pid-PidFound : (n p : ℕ) (task : Tasks) → PidFound task p (find_pid n p task)
unfolding find_pid nth_pid
find_pid-PidFound zero p task = out_of_rounds
find_pid-PidFound (suc n) p task = elim (Bool-cases (pid_used nr_tasks (next_pid p) task)) [
  | inr free ↦ rw free (pid_found 1 (omega arith) free (λ m a b. absurd (omega arith)))
  | inl used ↦ rw used (later used (find_pid-PidFound n (next_pid p) task))
]
  where
    later :
        {r : Option ℕ}
        → pid_used nr_tasks (next_pid p) task ≡ true
        → PidFound task (next_pid p) r
        → PidFound task p r
    later used out_of_rounds = out_of_rounds
    later used (pid_found k a free taken) =
        pid_found (suc k) (omega arith) free (λ m b c. earlier m b c)
      where
        earlier : (m : ℕ) → 0 < m → m < suc k → pid_used nr_tasks (nth_pid m p) task ≡ true
        earlier zero b c = absurd (omega arith)
        earlier (suc zero) b c = used
        earlier (suc (suc m)) b c = taken (suc m) (omega arith) (omega arith)

-- The first empty slot of those from i to i + n - 1.
pub data FirstEmpty (task : Tasks) (i n : ℕ) : Option ℕ → Type 0 where
  all_filled : ((j : ℕ) → i ≤ j → j < i + n → is_empty (task j) ≡ false) → FirstEmpty task i n none
  empty_at :
      (e : ℕ)
      → i ≤ e
      → e < i + n
      → task e ≡ none
      → ((j : ℕ) → i ≤ j → j < e → is_empty (task j) ≡ false)
      → FirstEmpty task i n (some e)

is_empty-none : (o : Option Task) → is_empty o ≡ true → o ≡ none
is_empty-none none h = refl
is_empty-none (some t) h = absurd cc

first_empty-FirstEmpty : (n i : ℕ) (task : Tasks) → FirstEmpty task i n (first_empty n i task)
unfolding first_empty
first_empty-FirstEmpty zero i task = all_filled (λ j a b. absurd (omega arith))
first_empty-FirstEmpty (suc n) i task = elim (Bool-cases (is_empty (task i))) [
  | inl here ↦ rw here (
      empty_at i (omega arith) (omega arith) (is_empty-none (task i) here)
        (λ j a b. absurd (omega arith)))
  | inr full ↦ rw full (later full (first_empty-FirstEmpty n (i + 1) task))
]
  where
    later :
        {r : Option ℕ}
        → is_empty (task i) ≡ false
        → FirstEmpty task (i + 1) n r
        → FirstEmpty task i (suc n) r
    later full (all_filled f) = all_filled (λ j a b. elim (ℕ_discrete j i) [
      | yes at ↦ subst (λ x. is_empty (task x) ≡ false) (sym at) full
      | no ne ↦ f j (omega arith) (omega arith)
    ])
    later full (empty_at e a b z f) = empty_at e (omega arith) (omega arith) z (λ j c d.
        elim (ℕ_discrete j i) [
          | yes at ↦ subst (λ x. is_empty (task x) ≡ false) (sym at) full
          | no ne ↦ f j (omega arith) d
        ])

unused-slot :
    (n pid j : ℕ) (task : Tasks) (t : Task)
    → pid_used n pid task ≡ false
    → j < n
    → task j ≡ some t
    → t.pid ≢ pid
unfolding pid_used
unused-slot zero pid j task t h p e = absurd (omega arith)
unused-slot (suc n) pid j task t h p e = elim (Bool-cases (pid_used n pid task)) [
  | inl u ↦ absurd (clash (rw u at h))
  | inr w ↦ elim (ℕ_discrete j n) [
    | yes at ↦
        let here : has_pid pid (task n) ≡ false = rw w at h in
        ==_false→ne t.pid pid (sym (ap (has_pid pid) (ap task (sym at) ∙ e)) ∙ here)
    | no ne ↦ unused-slot n pid j task t w (omega arith) e
  ]
]
  where
    clash : true ≡ false → ⊥
    clash x = cc

-- What find_empty_process gives, after `last_pid`.
pub data Chosen (task : Tasks) (last_pid : ℕ) : Option (ℤ × ℕ) → Type 0 where
  chosen :
      (k pid : ℕ) (slot : Option ℕ)
      → 0 < k
      → pid ≡ nth_pid k last_pid
      → ((j : ℕ) (t : Task) → j < nr_tasks → task j ≡ some t → t.pid ≢ pid)
      → ((m : ℕ) → 0 < m → m < k → pid_used nr_tasks (nth_pid m last_pid) task ≡ true)
      → FirstEmpty task 1 last_task slot
      → Chosen task last_pid (some (slot_or_error slot, pid))

found-Chosen :
    (task : Tasks) (p pid : ℕ) (r : Option ℕ)
    → r ≡ some pid
    → PidFound task p r
    → Chosen task p (map_option (λ q. (slot_or_error (first_empty last_task 1 task), q)) r)
found-Chosen task p pid _ e out_of_rounds = absurd cc
found-Chosen task p pid _ e (pid_found k a free taken) =
    chosen k (nth_pid k p) (first_empty last_task 1 task) a refl
      (λ j t b full. unused-slot nr_tasks (nth_pid k p) j task t free b full) taken
      (first_empty-FirstEmpty last_task 1 task)

-- 65 rounds are enough for find_empty_process, since a slot has one pid: it comes back with the
-- first of the next pids that no task has, the one after 2^31 - 1 being 1, and with the lowest
-- empty slot from 1 on, or -EAGAIN if there is none.
pub find_empty_process-Chosen :
    (task : Tasks) (last_pid : ℕ)
    → last_pid < long_max
    → Chosen task last_pid (find_empty_process 65 last_pid task)
unfolding find_empty_process
find_empty_process-Chosen task last_pid small =
    let few = filled-bound nr_tasks task in
    let (pid, e) = find_pid-ends 65 last_pid task small (omega arith) (omega arith) in
    found-Chosen task last_pid pid _ e (find_pid-PidFound 65 last_pid task)
