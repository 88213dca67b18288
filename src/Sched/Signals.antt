-- ===== src/Sched/Signals.antt =====
-- Which tasks the first loop of schedule makes runnable.
use hack_linux.Base.{
  ltb, ◌==◌, Bool-cases, set, ℕ, zero, suc, ◌≤◌, ◌<◌, ◌≡◌, refl, sym, subst, ◌≢◌, ◌⊎◌, inl, inr,
  true, false, not, ◌&&◌, arith, ℕ_discrete,
}
use hack_linux.Sched.{
  State, task_running, task_interruptible, task_uninterruptible, task_zombie, task_stopped, Signals,
  Task, is_interruptible, unblocked, some_bit, ring, wakes, checked,
}

-- Either some signal is set, or none is.
pub some_bit-cases :
    (m : ℕ) (s : Signals)
    → ((some_bit m s ≡ true) × ((n : ℕ) × ((0 < n) × ((n ≤ m) × (s n ≡ true)))))
      ⊎ ((some_bit m s ≡ false) × ((n : ℕ) → 0 < n → n ≤ m → s n ≡ false))
unfolding some_bit
some_bit-cases zero s = inr (refl, λ n p q. absurd (omega arith))
some_bit-cases (suc m) s = elim (Bool-cases (s (suc m))) [
  | inl set ↦ rw set (inl (refl, (suc m, (omega arith, (omega arith, set)))))
  | inr clear ↦ rw clear (elim (some_bit-cases m s) [
    | inl (e, (n, (p, (q, set)))) ↦ inl (e, (n, (p, (omega arith, set))))
    | inr (e, all_clear) ↦ inr (
      e,
      λ n p q. elim (ℕ_discrete n (suc m)) [
        | yes at ↦ subst (λ x. s x ≡ false) (sym at) clear
        | no ne ↦ all_clear n p (omega arith)
      ],
    )
  ])
]

-- The alarm and signal test of schedule for one task.
pub data Checked (now : ℕ) (t : Task) : Task → Type 0 where
  woken :
      (n : ℕ)
      → 0 < n
      → n ≤ 32
      → unblocked (ring now t) n ≡ true
      → t.state ≡ task_interruptible
      → Checked now t (record (ring now t) { state = task_running })
  no_signal :
      ((n : ℕ) → 0 < n → n ≤ 32 → unblocked (ring now t) n ≡ false) → Checked now t (ring now t)
  no_sleep : t.state ≢ task_interruptible → Checked now t (ring now t)

interruptible-cases :
    (s : State)
    → ((is_interruptible s ≡ true) × (s ≡ task_interruptible))
      ⊎ ((is_interruptible s ≡ false) × (s ≢ task_interruptible))
interruptible-cases task_interruptible = inl (refl, refl)
interruptible-cases task_running = inr (refl, λ e. cc)
interruptible-cases task_uninterruptible = inr (refl, λ e. cc)
interruptible-cases task_zombie = inr (refl, λ e. cc)
interruptible-cases task_stopped = inr (refl, λ e. cc)

ring-state : (now : ℕ) (t : Task) → (ring now t).state ≡ t.state
ring-state now t = elim (Bool-cases (not (t.alarm == 0) && ltb t.alarm now)) [
  | inl due ↦ rw due refl
  | inr later ↦ rw later refl
]

-- The first loop of schedule makes a task runnable exactly if it sleeps interruptibly and has, with
-- its expired alarm counted, a signal that is not blocked (SIGKILL and SIGSTOP never are); any other
-- task keeps its state.
pub checked-Checked : (now : ℕ) (t : Task) → Checked now t (checked now t)
unfolding checked wakes
checked-Checked now t = elim (some_bit-cases 32 (unblocked (ring now t))) [
  | inr (none_set, clear) ↦ rw none_set (no_signal clear)
  | inl (set, (n, (p, (q, e)))) ↦ elim (interruptible-cases t.state) [
    | inl (test, sleeps) ↦ rw (set, ring-state now t, test) (woken n p q e sleeps)
    | inr (test, other) ↦ rw (set, ring-state now t, test) (no_sleep other)
  ]
]
