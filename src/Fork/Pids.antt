-- ===== src/Fork/Pids.antt =====
-- The search for a pid ends: each round tries another pid, and a slot has one pid.
use hack_linux.Base.{
  ltb, ◌==◌, if◌then◌else◌, ne→==_false, ==_refl, Bool-cases, Option-cases, update, ℕ, zero, suc,
  ◌+◌, ◌-◌, ◌≤◌, ◌<◌, ◌≡◌, refl, sym, ◌∙◌, ◌≢◌, inl, inr, true, false, none, some, ap₂, arith,
  ℕ_discrete,
}
use hack_linux.Sched.{Task, Tasks}
use hack_linux.Fork.{long_max, next_pid, pid_used, is_empty}

-- The pid of round k after `last_pid`.
unfoldable pub nth_pid : ℕ → ℕ → ℕ
nth_pid zero p = p
nth_pid (suc k) p = nth_pid k (next_pid p)

pub next_pid-small : (p : ℕ) → p < long_max → next_pid p < long_max
next_pid-small p h = ground arith

nth_pid-value :
    (k p : ℕ)
    → p < long_max
    → k < 1000
    → nth_pid k p ≡ (if ltb (p + k) long_max then p + k else p + k - (long_max - 1))
unfolding nth_pid
nth_pid-value zero p h b = ground arith
nth_pid-value (suc k) p h b = nth_pid-value k (next_pid p) (next_pid-small p h) (omega arith) ∙ step
  where
    step :
        (if ltb (next_pid p + k) long_max then next_pid p + k else next_pid p + k - (long_max - 1))
        ≡ (if ltb (p + suc k) long_max then p + suc k else p + suc k - (long_max - 1))
    step = ground arith

pub nth_pid-ne : (k p : ℕ) → p < long_max → 0 < k → k < 1000 → nth_pid k p ≢ p
nth_pid-ne k p h a b e = ground (arith, nth_pid-value k p h b)

-- The number of filled slots below n.
unfoldable pub filled : ℕ → Tasks → ℕ
filled zero task = 0
filled (suc n) task = filled n task + (if is_empty (task n) then 0 else 1)

filled-same : (n j : ℕ) (task : Tasks) → n ≤ j → filled n (update task j none) ≡ filled n task
unfolding filled
filled-same zero j task h = refl
filled-same (suc n) j task h =
    ap₂ (λ a o. a + (if is_empty o then 0 else 1)) (filled-same n j task (omega arith))
      (rw (ne→==_false n j (omega arith)) refl)

pub filled-update :
    (n j : ℕ) (task : Tasks) (t : Task)
    → j < n
    → task j ≡ some t
    → filled n task ≡ suc (filled n (update task j none))
unfolding filled
filled-update zero j task t h e = absurd (omega arith)
filled-update (suc n) j task t h e = elim (ℕ_discrete j n) [
  | yes at ↦ rw (sym at) (rw (e, ==_refl j, filled-same j j task (omega arith)) (omega arith))
  | no ne ↦
      rw (filled-update n j task t (omega arith) e, ne→==_false n j (λ x. ne (sym x))) (omega arith)
]

-- A pid that is used is that of some slot.
pub used-slot :
    (n pid : ℕ) (task : Tasks)
    → pid_used n pid task ≡ true
    → (j : ℕ) × ((j < n) × ((t : Task) × ((task j ≡ some t) × (t.pid ≡ pid))))
unfolding pid_used
used-slot zero pid task h = absurd (ground (arith, h))
used-slot (suc n) pid task h = elim (Bool-cases (pid_used n pid task)) [
  | inl u ↦ let (j, (p, r)) = used-slot n pid task u in (j, (omega arith, r))
  | inr w ↦ elim (Option-cases (task n)) [
    | inl empty ↦ absurd (no (sym (rw (w, empty) at h)))
    | inr (t, full) ↦ (n, (omega arith, (t, (full, named t (rw (w, full) at h)))))
  ]
]
  where
    no : true ≡ false → ⊥
    no e = cc

    named : (t : Task) → (t.pid == pid) ≡ true → t.pid ≡ pid
    named t x = ground arith
