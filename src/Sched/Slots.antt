-- ===== src/Sched/Slots.antt =====
-- The loops of schedule over the task table, slot by slot.
use hack_linux.Base.{
  ne→==_false, ==_refl, update, ℕ, zero, suc, ◌≤◌, ◌<◌, ◌≡◌, refl, ◌∙◌, arith, ℕ_discrete,
  Option-cases, sym, ap, subst, inl, inr, none, some,
}
use hack_linux.Sched.{
  Task, Tasks, Kernel, map_task, checked, check_slots, recharged, recharge, last_task,
}

-- What a loop over the slots from n down to 1 does to the table.
unfoldable pub each : (Task → Task) → ℕ → Tasks → Tasks
each f zero task = task
each f (suc n) task = each f n (update task (suc n) (map_task f (task (suc n))))

pub each-above : (f : Task → Task) (n i : ℕ) (task : Tasks) → n < i → each f n task i ≡ task i
unfolding each
each-above f zero i task h = refl
each-above f (suc n) i task h =
    each-above f n i (update task (suc n) (map_task f (task (suc n)))) (omega arith)
    ∙ rw (ne→==_false i (suc n) (omega arith))

pub each-zero : (f : Task → Task) (n : ℕ) (task : Tasks) → each f n task 0 ≡ task 0
unfolding each
each-zero f zero task = refl
each-zero f (suc n) task =
    each-zero f n (update task (suc n) (map_task f (task (suc n))))
    ∙ rw (ne→==_false 0 (suc n) (omega arith))

pub each-slot :
    (f : Task → Task) (n i : ℕ) (task : Tasks)
    → 0 < i
    → i ≤ n
    → each f n task i ≡ map_task f (task i)
unfolding each
each-slot f zero i task p q = absurd (omega arith)
each-slot f (suc n) i task p q = elim (ℕ_discrete i (suc n)) [
  | yes at ↦
      each-above f n i (update task (suc n) (map_task f (task (suc n)))) (omega arith)
      ∙ rw (at, ==_refl (suc n))
  | no ne ↦
      each-slot f n i (update task (suc n) (map_task f (task (suc n)))) p (omega arith)
      ∙ rw (ne→==_false i (suc n) ne)
]

pub recharge-each : (n : ℕ) (task : Tasks) → recharge n task ≡ each recharged n task
unfolding recharge each
recharge-each zero task = refl
recharge-each (suc n) task =
    recharge-each n (update task (suc n) (map_task recharged (task (suc n))))

pub check_slots-each :
    (n : ℕ) (k : Kernel) → (check_slots n k).task ≡ each (checked k.jiffies) n k.task
unfolding check_slots each
check_slots-each zero k = refl
check_slots-each (suc n) k = check_slots-each n _

pub check_slots-same :
    (n : ℕ) (k : Kernel)
    → ((check_slots n k).current ≡ k.current) × ((check_slots n k).jiffies ≡ k.jiffies)
unfolding check_slots
check_slots-same zero k = (refl, refl)
check_slots-same (suc n) k = check_slots-same n _

-- What holds of every task outside slot 0.
abbrev pub Every : (Task → Type 0) → Tasks → Type 0
Every P task = (i : ℕ) (t : Task) → 0 < i → i ≤ last_task → task i ≡ some t → P t

pub Every-map :
    (P Q : Task → Type 0) (f : Task → Task) (task table : Tasks)
    → ((i : ℕ) → 0 < i → i ≤ last_task → table i ≡ map_task f (task i))
    → ((t : Task) → P t → Q (f t))
    → Every P task
    → Every Q table
Every-map P Q f task table same keeps every i t p q e = elim (Option-cases (task i)) [
  | inl empty ↦ absurd (no_task (sym (ap (map_task f) empty) ∙ (sym (same i p q) ∙ e)))
  | inr (u, full) ↦
      let eq : some (f u) ≡ some t = sym (ap (map_task f) full) ∙ (sym (same i p q) ∙ e) in
      subst Q (some_injective eq) (keeps u (every i u p q full))
]
  where
    no_task : none ≡ some t → ⊥
    no_task x = cc

    some_injective : {a b : Task} → some a ≡ some b → a ≡ b
    some_injective x = cc
