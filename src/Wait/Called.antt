-- ===== src/Wait/Called.antt =====
-- A call of sys_waitpid over its rounds: kernel/exit.c (Lab 3).
use hack_linux.Base.{
  ◌==◌, if◌then◌else◌, ne→==_false, ==_refl, set, ℕ, ◌≤◌, ◌<◌, ◌≡◌, refl, sym, ap, ◌∙◌, ◌≢◌, ◌⊎◌,
  inl, inr, Bool, true, false, Option, none, some, List, [], ◌∷◌, fun_ext, arith, ℕ_discrete,
}
use hack_linux.Base.Int.{ℤ, negsuc}
use hack_linux.Sched.{Task, Tasks, Kernel, map_task, change, some_bit}
use hack_linux.Sched.Signals.{some_bit-cases}
use hack_linux.Wait.{
  Round, returns, releases, sleeps, sigchld, clear_sigchld, behind_schedule, go_on, sys_waitpid,
}
use hack_linux.Wait.Waited.{Waited, waitpid_round-Waited}

-- A signal other than SIGCHLD is there.
abbrev pub Interrupted : Task → Type 0
Interrupted t = (n : ℕ) × ((0 < n) × ((n ≤ 32) × ((n ≢ 17) × (t.signal n ≡ true))))

-- The task without SIGCHLD, and the kernel with it in its slot.
abbrev pub cleared : Task → Task
cleared t = record t { signal = λ n. if n == 17 then false else t.signal n }

abbrev pub cleared_in : Kernel → Kernel
cleared_in k = record k {
  task = λ i. if i == k.current then map_task cleared (k.task i) else k.task i;
}

-- A call of sys_waitpid, by what the task finds whenever schedule() comes back to it.
pub data Called (pid : ℤ) (untraced nohang : Bool)
    : List (Task × Kernel) → Task → Kernel → Round → Type 0 where
  in_round :
      {me : Task} {k : Kernel} {r : Round}
      → Waited pid untraced nohang me k r
      → Called pid untraced nohang [] me k r
  returned :
      {me : Task} {k k' : Kernel} {r : ℤ} {status : Option ℕ} {w : Task × Kernel}
      {later : List (Task × Kernel)}
      → Waited pid untraced nohang me k (returns r status k')
      → Called pid untraced nohang (w ∷ later) me k (returns r status k')
  released :
      {me : Task} {k k' : Kernel} {r : ℤ} {status : ℕ} {w : Task × Kernel}
      {later : List (Task × Kernel)}
      → Waited pid untraced nohang me k (releases r status k')
      → Called pid untraced nohang (w ∷ later) me k (returns r (some status) w.1)
  interrupted :
      {me t : Task} {k k' w : Kernel} {later : List (Task × Kernel)}
      → Waited pid untraced nohang me k (sleeps k')
      → Interrupted t
      → Called pid untraced nohang ((t, w) ∷ later) me k (returns (negsuc 3) none (cleared_in w))
  repeats :
      {me t : Task} {k k' w : Kernel} {r : Round} {later : List (Task × Kernel)}
      → Waited pid untraced nohang me k (sleeps k')
      → ¬ Interrupted t
      → Called pid untraced nohang later (cleared t) (cleared_in w) r
      → Called pid untraced nohang ((t, w) ∷ later) me k r

signal-cases :
    (t : Task)
    → ((some_bit 32 (clear_sigchld t).signal ≡ true) × Interrupted t)
      ⊎ ((some_bit 32 (clear_sigchld t).signal ≡ false) × ¬ Interrupted t)
signal-cases t = elim (some_bit-cases 32 (clear_sigchld t).signal) [
  | inl (set, (n, (low, (high, on)))) ↦ inl (set, (n, (low, (high, (other n on, kept n on)))))
  | inr (clear, off) ↦ inr (
    clear,
    λ (n, (low, (high, (ne, on)))).
        clash (sym on ∙ (sym (rw (ne→==_false n sigchld ne)) ∙ off n low high)),
  )
]
  where
    clash : true ≡ false → ⊥
    clash e = cc

    other : (n : ℕ) → (clear_sigchld t).signal n ≡ true → n ≢ 17
    other n on = ground arith

    kept : (n : ℕ) → (clear_sigchld t).signal n ≡ true → t.signal n ≡ true
    kept n on = ground arith

cleared-change : (k : Kernel) → change clear_sigchld k.current k ≡ cleared_in k
cleared-change k =
    ap (λ (f : Tasks). record k { task = f })
      (fun_ext (λ i. elim (ℕ_discrete i k.current) [
        | yes here ↦
            rw (ap (λ j. j == k.current) here, ==_refl k.current)
              (ap (λ j. map_task clear_sigchld (k.task j)) (sym here))
        | no other ↦ rw (ne→==_false i k.current other) refl
      ]))

module _ (pid : ℤ) (untraced nohang : Bool) where
  go_on-Called :
      (me t : Task) (k w : Kernel) (later : List (Task × Kernel)) (again : Task → Kernel → Round)
      (r : Round)
      → Waited pid untraced nohang me k r
      → ((mine : Task) (k' : Kernel) → Called pid untraced nohang later mine k' (again mine k'))
      → Called pid untraced nohang ((t, w) ∷ later) me k (go_on r w (behind_schedule again t w))
  go_on-Called me t k w later again (returns r status k') waited rest = returned waited
  go_on-Called me t k w later again (releases r status k') waited rest = released waited
  go_on-Called me t k w later again (sleeps k') waited rest = elim (signal-cases t) [
    | inl (set, signal) ↦ rw (set, cleared-change w) (interrupted waited signal)
    | inr (clear, quiet) ↦
        rw (clear, cleared-change w) (repeats waited quiet (rest (cleared t) (cleared_in w)))
  ]

  -- A call of sys_waitpid goes on round by round, as `Called` lists, whatever the kernel is when
  -- schedule() comes back to the task. A round, as `Waited` lists, is about the children that `pid`
  -- names. It ends for the one in the highest slot that is a zombie or, with WUNTRACED, stopped: a
  -- zombie's times are added to the caller's, its slot is cleared, and when release's schedule()
  -- comes back its pid and exit code are returned; a stopped one's pid and 0x7f are returned at
  -- once. Without such a child, but with one that is neither dead nor stopped, it returns 0 with
  -- WNOHANG, and otherwise sleeps interruptibly with a line W in the log. With neither, -ECHILD is
  -- returned: all named children are stopped ones that it was not asked for, or there are none.
  -- After the sleep SIGCHLD is cleared; with another signal the call returns -EINTR, and without
  -- one it does the next round.
  pub sys_waitpid-Called :
      (later : List (Task × Kernel)) (me : Task) (k : Kernel)
      → Called pid untraced nohang later me k (sys_waitpid pid untraced nohang later me k)
  unfolding sys_waitpid
  sys_waitpid-Called [] me k = in_round (waitpid_round-Waited pid untraced nohang me k)
  sys_waitpid-Called ((t, w) ∷ later) me k =
      go_on-Called me t k w later (sys_waitpid pid untraced nohang later) _
        (waitpid_round-Waited pid untraced nohang me k) (sys_waitpid-Called later)
