-- ===== src/Exit/Kill.antt =====
-- What sys_kill does to every task, and its result.
use mathlib.Core.Bool.{true≢false}
use hack_linux.Base.{
  ◌==◌, number-cases, if◌then◌else◌, ne→==_false, ==_refl, ℕ, zero, suc, ◌≤◌, ◌<◌, ◌≡◌, refl, sym,
  ap, ◌∙◌, true, false, arith, ℕ_discrete, Bool-cases, update, subst, ◌≢◌, ◌⊎◌, inl, inr, Bool,
  ◌||◌, Option, none, some,
}
use hack_linux.Base.Int.{ℤ, pos, negsuc, pos_part, ◌≤ℤ◌}
use hack_linux.Sched.{Task, Tasks, last_task}
use hack_linux.Exit.{
  is_ok, kill_slot, kill_slots, eperm, bad_argument, suser, bad_signal, send_sig, tries, privileged,
  sys_kill,
}

module _ (pid sig : ℤ) (me : Task) where
  kill_slots-above :
      (n i : ℕ) (retval : ℤ) (task : Tasks)
      → n < i
      → (kill_slots n pid sig me retval task).1 i ≡ task i
  unfolding kill_slots
  kill_slots-above zero i retval task h = refl
  kill_slots-above (suc n) i retval task h =
      kill_slots-above n i _ _ (omega arith) ∙ rw (ne→==_false i (suc n) (omega arith)) refl

  kill_slots-zero :
      (n : ℕ) (retval : ℤ) (task : Tasks) → (kill_slots n pid sig me retval task).1 0 ≡ task 0
  unfolding kill_slots
  kill_slots-zero zero retval task = refl
  kill_slots-zero (suc n) retval task =
      kill_slots-zero n _ _ ∙ rw (ne→==_false 0 (suc n) (omega arith)) refl

  kill_slots-slot :
      (n i : ℕ) (retval : ℤ) (task : Tasks)
      → 0 < i
      → i ≤ n
      → (kill_slots n pid sig me retval task).1 i ≡ (kill_slot pid sig me (task i)).1
  unfolding kill_slots
  kill_slots-slot zero i retval task p q = absurd (omega arith)
  kill_slots-slot (suc n) i retval task p q = elim (ℕ_discrete i (suc n)) [
    | yes at ↦
        kill_slots-above n i _ _ (omega arith)
        ∙ rw (ap (λ j. j == suc n) at, ==_refl (suc n))
            (ap (λ j. (kill_slot pid sig me (task j)).1) (sym at))
    | no ne ↦
        kill_slots-slot n i _ _ p (omega arith)
        ∙ ap (λ o. (kill_slot pid sig me o).1) (rw (ne→==_false i (suc n) ne) refl)
  ]

  -- The result after slots n to 1: the error of the lowest slot that gave one.
  pub data LastError (n : ℕ) (retval : ℤ) (task : Tasks) : ℤ → Type 0 where
    all_ok :
        ((i : ℕ) → 0 < i → i ≤ n → is_ok (kill_slot pid sig me (task i)).0 ≡ true)
        → LastError n retval task retval
    error_at :
        {r : ℤ} (i : ℕ)
        → 0 < i
        → i ≤ n
        → r ≡ (kill_slot pid sig me (task i)).0
        → is_ok r ≡ false
        → ((j : ℕ) → 0 < j → j < i → is_ok (kill_slot pid sig me (task j)).0 ≡ true)
        → LastError n retval task r

  module _ (n : ℕ) (task : Tasks) (o : Option Task) where
    below : (i : ℕ) → i ≤ n → update task (suc n) o i ≡ task i
    below i p = rw (ne→==_false i (suc n) (omega arith)) refl

    below_ok :
        (i : ℕ)
        → i ≤ n
        → is_ok (kill_slot pid sig me (update task (suc n) o i)).0 ≡ true
        → is_ok (kill_slot pid sig me (task i)).0 ≡ true
    below_ok i p = subst (λ x. is_ok (kill_slot pid sig me x).0 ≡ true) (below i p)

    LastError-ok :
        (retval r : ℤ)
        → is_ok (kill_slot pid sig me (task (suc n))).0 ≡ true
        → LastError n retval (update task (suc n) o) r
        → LastError (suc n) retval task r
    LastError-ok retval _ ok (all_ok f) = all_ok (λ i p q. elim (ℕ_discrete i (suc n)) [
      | yes at ↦ subst (λ j. is_ok (kill_slot pid sig me (task j)).0 ≡ true) (sym at) ok
      | no ne ↦ below_ok i (omega arith) (f i p (omega arith))
    ])
    LastError-ok retval r ok (error_at i p q e bad f) =
        error_at i p (omega arith) (e ∙ ap (λ x. (kill_slot pid sig me x).0) (below i q)) bad
          (λ j a b. below_ok j (omega arith) (f j a b))

    LastError-error :
        (retval r : ℤ)
        → is_ok (kill_slot pid sig me (task (suc n))).0 ≡ false
        → LastError n (kill_slot pid sig me (task (suc n))).0 (update task (suc n) o) r
        → LastError (suc n) retval task r
    LastError-error retval _ bad (all_ok f) =
        error_at (suc n) (omega arith) (omega arith) refl bad
          (λ j a b. below_ok j (omega arith) (f j a (omega arith)))
    LastError-error retval r bad (error_at i p q e wrong f) =
        error_at i p (omega arith) (e ∙ ap (λ x. (kill_slot pid sig me x).0) (below i q)) wrong
          (λ j a b. below_ok j (omega arith) (f j a b))

  kill_slots-LastError :
      (n : ℕ) (retval : ℤ) (task : Tasks)
      → LastError n retval task (kill_slots n pid sig me retval task).0
  unfolding kill_slots
  kill_slots-LastError zero retval task = all_ok (λ i p q. absurd (omega arith))
  kill_slots-LastError (suc n) retval task =
      elim (Bool-cases (is_ok (kill_slot pid sig me (task (suc n))).0)) [
        | inl ok ↦
            rw (kill_slots, ok)
              (LastError-ok n task (kill_slot pid sig me (task (suc n))).1 retval _ ok
                (kill_slots-LastError n retval _))
        | inr bad ↦
            rw (kill_slots, bad)
              (LastError-error n task (kill_slot pid sig me (task (suc n))).1 retval _ bad
                (kill_slots-LastError n _ _))
      ]

-- The tasks that `pid` names: for 0 the group that the caller's pid names, for a positive number the
-- task with this pid, for -1 every slot, and for another negative number the group with its
-- opposite.
abbrev pub Named : ℤ → Task → Option Task → Type 0
Named (pos zero) me none = ⊥
Named (pos zero) me (some t) = t.pgrp ≡ me.pid
Named (pos (suc n)) me none = ⊥
Named (pos (suc n)) me (some t) = t.pid ≡ suc n
Named (negsuc zero) me o = Unit {0}
Named (negsuc (suc n)) me none = ⊥
Named (negsuc (suc n)) me (some t) = t.pgrp ≡ suc (suc n)

tries-cases :
    (pid : ℤ) (me : Task) (o : Option Task)
    → ((tries pid me o ≡ true) × Named pid me o) ⊎ ((tries pid me o ≡ false) × ¬ Named pid me o)
tries-cases (pos zero) me none = inr (refl, λ x. x)
tries-cases (pos zero) me (some t) = number-cases t.pgrp me.pid
tries-cases (pos (suc n)) me none = inr (refl, λ x. x)
tries-cases (pos (suc n)) me (some t) = number-cases t.pid (suc n)
tries-cases (negsuc zero) me o = inl (refl, tt)
tries-cases (negsuc (suc n)) me none = inr (refl, λ x. x)
tries-cases (negsuc (suc n)) me (some t) = number-cases t.pgrp (suc (suc n))

-- What sys_kill leaves in a slot other than 0.
pub data Sent (pid sig : ℤ) (me : Task) (o : Option Task) : ℤ × Option Task → Type 0 where
  not_meant : ¬ Named pid me o → Sent pid sig me o (pos 0, o)
  empty_slot : Named pid me o → o ≡ none → Sent pid sig me o (bad_argument, o)
  wrong_signal :
      Named pid me o → (sig ≤ℤ pos 0) ⊎ (pos 33 ≤ℤ sig) → Sent pid sig me o (bad_argument, o)
  sent :
      (t : Task)
      → Named pid me o
      → o ≡ some t
      → pos 1 ≤ℤ sig
      → sig ≤ℤ pos 32
      → (pid ≡ pos 0) ⊎ ((me.euid ≡ t.euid) ⊎ (me.euid ≡ 0))
      → (signal : ℕ → Bool)
      → ((j : ℕ) → signal j ≡ (if j == pos_part sig then true else t.signal j))
      → Sent pid sig me o (pos 0, some (record t { signal = signal }))
  not_permitted :
      (t : Task)
      → Named pid me o
      → o ≡ some t
      → pid ≢ pos 0
      → me.euid ≢ t.euid
      → me.euid ≢ 0
      → Sent pid sig me o (eperm, o)

signal-cases :
    (sig : ℤ)
    → ((bad_signal sig ≡ true) × ((sig ≤ℤ pos 0) ⊎ (pos 33 ≤ℤ sig)))
      ⊎ ((bad_signal sig ≡ false) × ((pos 1 ≤ℤ sig) × (sig ≤ℤ pos 32)))
signal-cases sig = ground arith

privileged-cases :
    (pid : ℤ)
    → ((privileged pid ≡ true) × (pid ≡ pos 0)) ⊎ ((privileged pid ≡ false) × (pid ≢ pos 0))
privileged-cases (pos zero) = inl (refl, refl)
privileged-cases (pos (suc n)) = inr (ne→==_false (suc n) 0 (omega arith), λ e. cc)
privileged-cases (negsuc n) = inr (refl, λ e. cc)

-- The permission test of send_sig.
permission-cases :
    (priv : Bool) (me t : Task)
    → (((priv || me.euid == t.euid || suser me) ≡ true)
        × ((priv ≡ true) ⊎ ((me.euid ≡ t.euid) ⊎ (me.euid ≡ 0))))
      ⊎ (((priv || me.euid == t.euid || suser me) ≡ false)
          × ((priv ≡ false) × ((me.euid ≢ t.euid) × (me.euid ≢ 0))))
permission-cases true me t = inl (refl, inl refl)
permission-cases false me t = elim (ℕ_discrete me.euid t.euid) [
  | yes same ↦ inl (rw same (rw (==_refl t.euid) refl), inr (inl same))
  | no ne ↦ elim (ℕ_discrete me.euid 0) [
    | yes root ↦ inl (rw (ne→==_false me.euid t.euid ne) (ap (λ x. x == 0) root), inr (inr root))
    | no user ↦
        inr (rw (ne→==_false me.euid t.euid ne) (ne→==_false me.euid 0 user), (refl, (ne, user)))
  ]
]

try-Sent :
    (pid sig : ℤ) (me : Task) (o : Option Task)
    → Named pid me o
    → Sent pid sig me o (send_sig sig me (privileged pid) o)
unfolding send_sig
try-Sent pid sig me none meant = empty_slot meant refl
try-Sent pid sig me (some t) meant = elim (signal-cases sig) [
  | inl (bad, why) ↦ rw bad (wrong_signal meant why)
  | inr (good, (low, high)) ↦ elim (permission-cases (privileged pid) me t) [
    | inl (yes_sir, why) ↦
        rw (good, yes_sir) (sent t meant refl low high (allowed why) _ (λ j. refl))
    | inr (refused, (plain, (other, user))) ↦
        rw (good, refused) (not_permitted t meant refl (unprivileged plain) other user)
  ]
]
  where
    allowed :
        (privileged pid ≡ true) ⊎ ((me.euid ≡ t.euid) ⊎ (me.euid ≡ 0))
        → (pid ≡ pos 0) ⊎ ((me.euid ≡ t.euid) ⊎ (me.euid ≡ 0))
    allowed (inr x) = inr x
    allowed (inl p) = elim (privileged-cases pid) [
      | inl (a, e) ↦ inl e
      | inr (a, ne) ↦ absurd (true≢false (sym p ∙ a))
    ]

    unprivileged : privileged pid ≡ false → pid ≢ pos 0
    unprivileged p = elim (privileged-cases pid) [
      | inl (a, e) ↦ absurd (true≢false (sym a ∙ p))
      | inr (a, ne) ↦ ne
    ]

kill_slot-Sent :
    (pid sig : ℤ) (me : Task) (o : Option Task) → Sent pid sig me o (kill_slot pid sig me o)
unfolding kill_slot
kill_slot-Sent pid sig me o = elim (tries-cases pid me o) [
  | inl (test, meant) ↦ rw test (try-Sent pid sig me o meant)
  | inr (test, other) ↦ rw test (not_meant other)
]

-- No slot gave an error, or the result is that of the lowest slot that did.
pub data Result (at_slot : ℕ → ℤ) : ℤ → Type 0 where
  no_error : ((i : ℕ) → 0 < i → i ≤ last_task → at_slot i ≡ pos 0) → Result at_slot (pos 0)
  lowest_error :
      {r : ℤ} (i : ℕ)
      → 0 < i
      → i ≤ last_task
      → r ≡ at_slot i
      → r ≢ pos 0
      → ((j : ℕ) → 0 < j → j < i → at_slot j ≡ pos 0)
      → Result at_slot r

-- What a call of sys_kill leads to: what happens in each slot, and the result.
pub record Killed (pid sig : ℤ) (me : Task) (task : Tasks) (r : ℤ × Tasks) : Type 0 where
  pub at_slot : ℕ → ℤ
  pub idle_slot : r.1 0 ≡ task 0
  pub above : (i : ℕ) → last_task < i → r.1 i ≡ task i
  pub slots : (i : ℕ) → 0 < i → i ≤ last_task → Sent pid sig me (task i) (at_slot i, r.1 i)
  pub result : Result at_slot r.0

is_ok-zero : (z : ℤ) → is_ok z ≡ true → z ≡ pos 0
is_ok-zero (pos n) h = ap pos (ground arith)
is_ok-zero (negsuc n) h = absurd (true≢false (sym h))

is_ok-ne : (z : ℤ) → is_ok z ≡ false → z ≢ pos 0
is_ok-ne z h e = true≢false (sym (ap is_ok e) ∙ h)

LastError-Result :
    (pid sig : ℤ) (me : Task) (task : Tasks) {r : ℤ}
    → LastError pid sig me last_task (pos 0) task r
    → Result (λ i. (kill_slot pid sig me (task i)).0) r
LastError-Result pid sig me task (all_ok f) = no_error (λ i p q. is_ok-zero _ (f i p q))
LastError-Result pid sig me task (error_at i p q e bad f) =
    lowest_error i p q e (is_ok-ne _ bad) (λ j a b. is_ok-zero _ (f j a b))

-- sys_kill sends the signal to exactly the tasks outside slot 0 that `Named` says `pid` names, among those only
-- where the signal number is valid and, unless `pid` is 0, the caller has the same effective user
-- or is the super-user; nothing else changes. The result is 0 if no slot gave an error, and
-- otherwise the error of the lowest slot that did; with `pid` -1 an empty slot gives -EINVAL.
pub sys_kill-Killed :
    (pid sig : ℤ) (me : Task) (task : Tasks) → Killed pid sig me task (sys_kill pid sig me task)
unfolding sys_kill
sys_kill-Killed pid sig me task = record {
  at_slot = λ i. (kill_slot pid sig me (task i)).0;
  idle_slot = kill_slots-zero pid sig me last_task (pos 0) task;
  above = λ i p. kill_slots-above pid sig me last_task i (pos 0) task p;
  slots = λ i p q.
      subst (λ o. Sent pid sig me (task i) ((kill_slot pid sig me (task i)).0, o))
        (sym (kill_slots-slot pid sig me last_task i (pos 0) task p q))
        (kill_slot-Sent pid sig me (task i));
  result =
      LastError-Result pid sig me task (kill_slots-LastError pid sig me last_task (pos 0) task);
}
