-- ===== src/Exit/Father.antt =====
-- The father that tell_father finds: kernel/exit.c (Lab 3).
-- What find_father gives for the slots from i to i + n - 1.
use hack_linux.Base.{
  ◌==◌, ==_iff, ne→==_false, Option-cases, ℕ, zero, suc, ◌+◌, ◌≤◌, ◌<◌, ◌≡◌, refl, sym, ap, ◌∙◌,
  subst, ◌≢◌, ◌⊎◌, inl, inr, false, Option, none, some, arith, ℕ_discrete,
}
use hack_linux.Sched.{nr_tasks, Task, Tasks, Kernel, change}
use hack_linux.Exit.Leave.{child, find_father, told, tell_father}
use hack_linux.Wait.{release}

data Father (pid i n : ℕ) (task : Tasks) : Option ℕ → Type 0 where
  none_of_them :
      ((j : ℕ) (t : Task) → i ≤ j → j < i + n → task j ≡ some t → t.pid ≢ pid)
      → Father pid i n task none
  father_at : (j : ℕ) (t : Task) → task j ≡ some t → t.pid ≡ pid → Father pid i n task (some j)

find_father-Father : (n i pid : ℕ) (task : Tasks) → Father pid i n task (find_father n i pid task)
unfolding find_father
find_father-Father zero i pid task = none_of_them (λ j t low high e. absurd (omega arith))
find_father-Father (suc n) i pid task = elim (Option-cases (task i)) [
  | inl none_there ↦
      rw none_there
        (later (λ t e. absurd (clash (sym none_there ∙ e))) (find_father-Father n (i + 1) pid task))
  | inr (t, full) ↦ elim (ℕ_discrete t.pid pid) [
    | yes here ↦ rw (full, (==_iff t.pid pid).1 here) (father_at i t full here)
    | no other ↦
        rw (full, ne→==_false t.pid pid other)
          (later (λ u e. subst (λ (w : Task). w.pid ≢ pid) (same (sym full ∙ e)) other)
            (find_father-Father n (i + 1) pid task))
  ]
]
  where
    clash : {t : Task} → none ≡ some t → ⊥
    clash e = cc

    same : {t u : Task} → some t ≡ some u → t ≡ u
    same e = cc

    later :
        {r : Option ℕ}
        → ((t : Task) → task i ≡ some t → t.pid ≢ pid)
        → Father pid (i + 1) n task r
        → Father pid i (suc n) task r
    later first (father_at j t e h) = father_at j t e h
    later first (none_of_them rest) = none_of_them (λ j t low high e. elim (ℕ_discrete j i) [
      | yes here ↦ first t (ap task (sym here) ∙ e)
      | no other ↦ rest j t (omega arith) (omega arith) e
    ])

-- The two ends of tell_father.
pub data Told (pid : ℕ) (k r : Kernel) : Type 0 where
  sent : (i : ℕ) (t : Task) → k.task i ≡ some t → t.pid ≡ pid → r ≡ change child i k → Told pid k r
  freed :
      ((j : ℕ) (t : Task) → j < nr_tasks → k.task j ≡ some t → t.pid ≢ pid) ⊎ (pid ≡ 0)
      → r ≡ release k.current k
      → Told pid k r

pub tell_father-Told :
    (pid : ℕ) (k : Kernel)
    → k.current ≢ 0
    → (r : Kernel) × ((tell_father pid k ≡ some r) × Told pid k r)
unfolding tell_father
tell_father-Told pid k busy =
    let apart = ne→==_false k.current 0 busy in
    elim (ℕ_discrete pid 0) [
      | yes nobody ↦
          (release k.current k, (rw ((==_iff pid 0).1 nobody, apart) refl, freed (inr nobody) refl))
      | no somebody ↦
          rw (ne→==_false pid 0 somebody) (ended apart _ (find_father-Father nr_tasks 0 pid k.task))
    ]
  where
    ended :
        (k.current == 0) ≡ false
        → (o : Option ℕ) → Father pid 0 nr_tasks k.task o
        → (r : Kernel) × ((told o k ≡ some r) × Told pid k r)
    ended apart _ (father_at i t full named) = (change child i k, (refl, sent i t full named refl))
    ended apart _ (none_of_them others) = (
      release k.current k,
      (rw apart refl, freed (inl (λ j t small e. others j t (omega arith) (omega arith) e)) refl),
    )
