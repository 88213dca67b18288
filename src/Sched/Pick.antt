-- ===== src/Sched/Pick.antt =====
-- The choice that schedule makes, and that it makes one.
use mathlib.Core.Bool.{true≢false}
use hack_linux.Base.{
  ltb→lt, ltb_false→le, Bool-cases, Option-cases, ℕ, zero, suc, ◌≤◌, ◌<◌, ◌≡◌, sym, ◌∙◌, subst, inl,
  inr, true, false, ◌&&◌, Option, none, some, arith, ℕ_discrete,
}
use hack_linux.Sched.{last_task, Task, Tasks, is_running, above, consider, pick}

-- The task in slot i may run.
abbrev pub Runs : Tasks → ℕ → Task → Type 0
Runs task i t = (task i ≡ some t) × (is_running t.state ≡ true)

-- The search has been through the slots above `low`: nobody there runs, or the task found runs, has
-- the largest counter, and has a larger one than those in higher slots.
pub data Best (task : Tasks) (low : ℕ) : Option ℕ × ℕ → Type 0 where
  nobody :
      ((i : ℕ) (t : Task) → low < i → i ≤ last_task → ¬ Runs task i t) → Best task low (none, 0)
  found :
      (i : ℕ) (t : Task)
      → low < i
      → i ≤ last_task
      → Runs task i t
      → ((j : ℕ) (u : Task) → low < j → j ≤ last_task → Runs task j u → u.counter ≤ t.counter)
      → ((j : ℕ) (u : Task) → i < j → j ≤ last_task → Runs task j u → u.counter < t.counter)
      → Best task low (some t.counter, i)

same_task : (task : Tasks) (i : ℕ) (t u : Task) → task i ≡ some t → task i ≡ some u → t ≡ u
same_task task i t u a b = cc

-- The slot below does not run, or loses.
module _ (task : Tasks) (n : ℕ) (bound : suc n ≤ last_task) where
  Best-pass :
      (best : Option ℕ × ℕ)
      → ((t : Task) → Runs task (suc n) t → above t.counter best.0 ≡ false)
      → Best task (suc n) best
      → Best task n best
  Best-pass _ loses (nobody none_above) = nobody (λ i t p q r. elim (ℕ_discrete i (suc n)) [
    | yes at ↦ true≢false (loses t (subst (λ x. Runs task x t) at r))
    | no ne ↦ none_above i t (omega arith) q r
  ])
  Best-pass _ loses (found i t p q r most first) =
      found i t (omega arith) q r
        (λ j u a b s. elim (ℕ_discrete j (suc n)) [
          | yes at ↦ ltb_false→le _ _ (loses u (subst (λ x. Runs task x u) at s))
          | no ne ↦ most j u (omega arith) b s
        ])
        first

  Best-take :
      (best : Option ℕ × ℕ) (t : Task)
      → Runs task (suc n) t
      → above t.counter best.0 ≡ true
      → Best task (suc n) best
      → Best task n (some t.counter, suc n)
  Best-take _ t r wins (nobody none_above) =
      found (suc n) t (omega arith) bound r
        (λ j u a b s. elim (ℕ_discrete j (suc n)) [
          | yes at ↦ le_of task (suc n) t u r (subst (λ x. Runs task x u) at s)
          | no ne ↦ absurd (none_above j u (omega arith) b s)
        ])
        (λ j u a b s. absurd (none_above j u (omega arith) b s))
    where
      le_of :
          (task : Tasks) (i : ℕ) (t u : Task)
          → Runs task i t
          → Runs task i u
          → u.counter ≤ t.counter
      le_of task i t u r s =
          subst (λ x. x.counter ≤ t.counter) (same_task task i t u r.0 s.0) (omega arith)
  Best-take _ t r wins (found i v p q s most first) =
      let less : v.counter < t.counter = ltb→lt _ _ wins in
      found (suc n) t (omega arith) bound r
        (λ j u a b x. elim (ℕ_discrete j (suc n)) [
          | yes at ↦
              subst (λ y. y.counter ≤ t.counter)
                (same_task task (suc n) t u r.0 (subst (λ y. Runs task y u) at x).0) (omega arith)
          | no ne ↦ let small = most j u (omega arith) b x in omega arith
        ])
        (λ j u a b x. let small = most j u (omega arith) b x in omega arith)

  Best-consider :
      (best : Option ℕ × ℕ)
      → Best task (suc n) best
      → Best task n (consider (task (suc n)) (suc n) best)
  Best-consider best b = elim (Option-cases (task (suc n))) [
    | inl empty ↦ rw empty (Best-pass best (λ t r. absurd (no_task t (sym empty ∙ r.0))) b)
    | inr (t, full) ↦ elim (Bool-cases (is_running t.state && above t.counter best.0)) [
      | inl wins ↦ rw (full, wins) (Best-take best t (full, ground arith) (ground arith) b)
      | inr loses ↦
          rw (full, loses)
            (Best-pass best (λ u r. lost (same_task task (suc n) t u full r.0) r.1 loses) b)
    ]
  ]
    where
      no_task : (t : Task) → none ≡ some t → ⊥
      no_task t e = cc

      lost :
          {t u : Task}
          → t ≡ u
          → is_running u.state ≡ true
          → (is_running t.state && above t.counter best.0) ≡ false
          → above u.counter best.0 ≡ false
      lost {t} {u} e r h =
          let same : (is_running u.state && above u.counter best.0) ≡ false =
            subst (λ x. (is_running x.state && above x.counter best.0) ≡ false) e h in
          (rw r at same)

pick-Best :
    (task : Tasks) (n : ℕ) (best : Option ℕ × ℕ)
    → n ≤ last_task
    → Best task n best
    → Best task 0 (pick n task best)
unfolding pick
pick-Best task zero best h b = b
pick-Best task (suc n) best h b = pick-Best task n _ (omega arith) (Best-consider task n h best b)

pub pick-whole : (task : Tasks) → Best task 0 (pick last_task task (none, 0))
pick-whole task =
    pick-Best task last_task (none, 0) (omega arith) (nobody (λ i t p q r. omega arith))
