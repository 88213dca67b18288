-- ===== src/Exit/Left.antt =====
-- What do_exit leaves in the task table: kernel/exit.c (Lab 3).
use hack_linux.Base.{
  ltb, leb, ◌==◌, if◌then◌else◌, ==_iff, ne→==_false, Bool-cases, Option-cases, update, ℕ, zero,
  suc, ◌+◌, ◌≡◌, refl, sym, ap, ◌∙◌, subst, inl, inr, Bool, true, false, ◌&&◌, ◌||◌, Option, none,
  some, arith, ℕ_discrete,
}
use hack_linux.Sched.{Signals, Task, Tasks, map_task, raise}
use hack_linux.Exit.{sighup, kill_session}
use hack_linux.Exit.Leave.{sigchld, child, is_zombie, adopt_slot, adopt}

-- A task and what it has become: signals are only added, and the father is 1 if `given` and it was
-- the task `pid`.
pub record Kept (pid : ℕ) (given : Bool) (t u : Task) : Type 0 where
  pub same_pid : u.pid ≡ t.pid
  pub same_state : u.state ≡ t.state
  pub same_code : u.exit_code ≡ t.exit_code
  pub same_session : u.session ≡ t.session
  pub father : u.father ≡ (if given && t.father == pid then 1 else t.father)
  pub signals : (n : ℕ) → t.signal n ≡ true → u.signal n ≡ true

pub data Adopted (pid : ℕ) (given : Bool) : Option Task → Option Task → Type 0 where
  empty : Adopted pid given none none
  filled : (t u : Task) → Kept pid given t u → Adopted pid given (some t) (some u)

Kept-refl : (pid : ℕ) (t : Task) → Kept pid false t t
Kept-refl pid t = record {
  same_pid = refl;
  same_state = refl;
  same_code = refl;
  same_session = refl;
  father = refl;
  signals = λ n h. h;
}

pub Adopted-refl : (pid : ℕ) (o : Option Task) → Adopted pid false o o
Adopted-refl pid none = empty
Adopted-refl pid (some t) = filled t t (Kept-refl pid t)

Kept-trans :
    (pid : ℕ) (a b : Bool) (t u w : Task) → Kept pid a t u → Kept pid b u w → Kept pid (a || b) t w
Kept-trans pid a b t u w p q = record {
  same_pid = q.same_pid ∙ p.same_pid;
  same_state = q.same_state ∙ p.same_state;
  same_code = q.same_code ∙ p.same_code;
  same_session = q.same_session ∙ p.same_session;
  father = fathers a b p.father q.father;
  signals = λ n h. q.signals n (p.signals n h);
}
  where
    fathers :
        (x y : Bool)
        → u.father ≡ (if x && t.father == pid then 1 else t.father)
        → w.father ≡ (if y && u.father == pid then 1 else u.father)
        → w.father ≡ (if (x || y) && t.father == pid then 1 else t.father)
    fathers x y e h = ground (arith, e, h)

Adopted-trans :
    (pid : ℕ) (a b : Bool) {o p q : Option Task}
    → Adopted pid a o p
    → Adopted pid b p q
    → Adopted pid (a || b) o q
Adopted-trans pid a b empty y = still y
  where
    still : {q : Option Task} → Adopted pid b none q → Adopted pid (a || b) none q
    still empty = empty
Adopted-trans pid a b (filled t u k) y = then_kept y
  where
    then_kept : {q : Option Task} → Adopted pid b (some u) q → Adopted pid (a || b) (some t) q
    then_kept (filled u' w l) = filled t w (Kept-trans pid a b t u w k l)

pub Adopted-after :
    (pid : ℕ) (a : Bool) {o p q : Option Task}
    → Adopted pid a o p
    → Adopted pid false p q
    → Adopted pid a o q
Adopted-after pid true x y = Adopted-trans pid true false x y
Adopted-after pid false x y = Adopted-trans pid false false x y

raised : (n m : ℕ) (s : Signals) → s m ≡ true → raise n s m ≡ true
raised n m s h = elim (Bool-cases (m == n)) [ inl here ↦ rw here refl | inr other ↦ rw other h ]

pub Kept-raise : (pid n : ℕ) (t : Task) → Kept pid false t (record t { signal = raise n t.signal })
Kept-raise pid n t = record {
  same_pid = refl;
  same_state = refl;
  same_code = refl;
  same_session = refl;
  father = refl;
  signals = λ m h. raised n m t.signal h;
}

Adopted-map :
    (pid : ℕ) (f : Task → Task) (o : Option Task)
    → ((t : Task) → Kept pid false t (f t))
    → Adopted pid false o (map_task f o)
Adopted-map pid f none keeps = empty
Adopted-map pid f (some t) keeps = filled t (f t) (keeps t)

-- A function that only adds signals, in one slot.
pub Adopted-at :
    (pid i j : ℕ) (f : Task → Task) (task : Tasks)
    → ((t : Task) → Kept pid false t (f t))
    → Adopted pid false (task j) (update task i (map_task f (task i)) j)
Adopted-at pid i j f task keeps = elim (ℕ_discrete j i) [
  | yes here ↦ rw ((==_iff j i).1 here) (
      subst (λ (k : ℕ). Adopted pid false (task k) (map_task f (task i))) (sym here)
        (Adopted-map pid f (task i) keeps))
  | no other ↦ rw (ne→==_false j i other) (Adopted-refl pid (task j))
]

-- The slot whose turn it is, and another one.
given-Adopted :
    (pid i j : ℕ) (task : Tasks) (t : Task)
    → task i ≡ some t
    → (t.father == pid) ≡ true
    → Adopted pid (j == i) (task j) (update task i (some (record t { father = 1 })) j)
given-Adopted pid i j task t full mine = elim (ℕ_discrete j i) [
  | yes here ↦ rw ((==_iff j i).1 here) (
      subst (λ (o : Option Task). Adopted pid true o (some (record t { father = 1 })))
        (sym (ap task here ∙ full))
        (filled t (record t { father = 1 })
          (record {
            same_pid = refl;
            same_state = refl;
            same_code = refl;
            same_session = refl;
            father = rw mine refl;
            signals = λ m h. h;
          })))
  | no other ↦ rw (ne→==_false j i other) (Adopted-refl pid (task j))
]

foreign-Adopted :
    (pid i j : ℕ) (task : Tasks)
    → ((t : Task) → task i ≡ some t → (t.father == pid) ≡ false)
    → Adopted pid (j == i) (task j) (task j)
foreign-Adopted pid i j task foreign = elim (ℕ_discrete j i) [
  | no other ↦ rw (ne→==_false j i other) (Adopted-refl pid (task j))
  | yes here ↦ rw ((==_iff j i).1 here) (elim (Option-cases (task j)) [
    | inl none_there ↦ rw none_there empty
    | inr (t, full) ↦
        let theirs = foreign t (ap task (sym here) ∙ full) in
        rw full (
          filled t t (record {
            same_pid = refl;
            same_state = refl;
            same_code = refl;
            same_session = refl;
            father = rw theirs refl;
            signals = λ m h. h;
          }))
  ])
]

adopt_slot-Adopted :
    (pid i j : ℕ) (task : Tasks) → Adopted pid (j == i) (task j) (adopt_slot pid i (task i) task j)
adopt_slot-Adopted pid i j task = elim (Option-cases (task i)) [
  | inl none_there ↦
      rw none_there (foreign-Adopted pid i j task (λ t e. absurd (clash (sym none_there ∙ e))))
  | inr (t, full) ↦ elim (Bool-cases (t.father == pid)) [
    | inr theirs ↦
        rw (full, theirs)
          (foreign-Adopted pid i j task
            (λ u e. subst (λ (w : Task). (w.father == pid) ≡ false) (same (sym full ∙ e)) theirs))
    | inl mine ↦
        let given = update task i (some (record t { father = 1 })) in
        let moved = given-Adopted pid i j task t full mine in
        elim (Bool-cases (is_zombie t.state)) [
          | inr living ↦ rw (full, mine, living) moved
          | inl dead ↦
              rw (full, mine, dead)
                (Adopted-after pid (j == i) moved
                  (Adopted-at pid 1 j child given (λ u. Kept-raise pid sigchld u)))
        ]
  ]
]
  where
    clash : {t : Task} → none ≡ some t → ⊥
    clash e = cc

    same : {t u : Task} → some t ≡ some u → t ≡ u
    same e = cc

pub adopt-Adopted :
    (n i pid j : ℕ) (task : Tasks)
    → Adopted pid (leb i j && ltb j (i + n)) (task j) (adopt n i pid task j)
unfolding adopt
adopt-Adopted zero i pid j task =
    let outside : (leb i j && ltb j (i + 0)) ≡ false = ground arith in
    rw outside (Adopted-refl pid (task j))
adopt-Adopted (suc n) i pid j task =
    let range : (j == i || leb (i + 1) j && ltb j (i + 1 + n)) ≡ (leb i j && ltb j (i + suc n)) =
      ground arith in
    subst
      (λ (b : Bool).
        Adopted pid b (task j) (adopt n (i + 1) pid (adopt_slot pid i (task i) task) j))
      range
      (Adopted-trans pid (j == i) (leb (i + 1) j && ltb j (i + 1 + n))
        (adopt_slot-Adopted pid i j task)
        (adopt-Adopted n (i + 1) pid j (adopt_slot pid i (task i) task)))

pub kill_session-Adopted :
    (n session pid j : ℕ) (task : Tasks)
    → Adopted pid false (task j) (kill_session n session task j)
unfolding kill_session
kill_session-Adopted zero session pid j task = Adopted-refl pid (task j)
kill_session-Adopted (suc n) session pid j task =
    let hang_up_one = λ (t : Task).
      if t.session == session then record t { signal = raise sighup t.signal } else t in
    Adopted-after pid false
      (Adopted-at pid (suc n) j hang_up_one task (λ t. hung t (t.session == session)))
      (kill_session-Adopted n session pid j
        (update task (suc n) (map_task hang_up_one (task (suc n)))))
  where
    hung :
        (t : Task) (b : Bool)
        → Kept pid false t (if b then record t { signal = raise sighup t.signal } else t)
    hung t true = Kept-raise pid sighup t
    hung t false = Kept-refl pid t
