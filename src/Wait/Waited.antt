-- ===== src/Wait/Waited.antt =====
-- One round of sys_waitpid on every branch: kernel/exit.c (Lab 3).
use hack_linux.Base.{
  ◌==◌, ne→==_false, ==_refl, Bool-cases, Option-cases, number-cases, ℕ, zero, suc, ◌+◌, ◌≤◌, ◌<◌,
  ◌≡◌, refl, sym, ap, ◌∙◌, subst, ◌≢◌, ◌⊎◌, inl, inr, Bool, true, false, Option, none, some, List,
  ℕ_discrete,
}
use hack_linux.Base.Int.{ℤ, pos, negsuc}
use hack_linux.Sched.{
  last_task, State, task_running, task_interruptible, task_uninterruptible, task_zombie,
  task_stopped, Task, Event, Kernel, map_task, change, note,
}
use hack_linux.Wait.{
  named_by, Look, skip, alive, stopped_child, zombie_child, by_state, look_at, Found, release,
  add_times, Round, returns, releases, sleeps, echild, fall_asleep, finish, waitpid_round,
}
use hack_linux.Wait.Scan.{GoesOn, Scanned, no_living, living, stopped_at, zombie_at, scan-Scanned}

-- The tests on `pid`: 0 names the caller's group, a positive number the task with this pid, -1 every
-- task, and another negative number the group with its opposite.
abbrev pub Named : ℤ → Task → Task → Type 0
Named (pos zero) me t = t.pgrp ≡ me.pgrp
Named (pos (suc n)) me t = t.pid ≡ suc n
Named (negsuc zero) me t = Unit {0}
Named (negsuc (suc n)) me t = t.pgrp ≡ suc (suc n)

Named-cases :
    (pid : ℤ) (me t : Task)
    → ((named_by pid me t ≡ true) × Named pid me t)
      ⊎ ((named_by pid me t ≡ false) × ¬ Named pid me t)
Named-cases (pos zero) me t = number-cases t.pgrp me.pgrp
Named-cases (pos (suc n)) me t = number-cases t.pid (suc n)
Named-cases (negsuc zero) me t = inl (refl, tt)
Named-cases (negsuc (suc n)) me t = number-cases t.pgrp (suc (suc n))

Named-named_by : (pid : ℤ) (me t : Task) → Named pid me t → named_by pid me t ≡ true
Named-named_by pid me t h = elim (Named-cases pid me t) [
  | inl (test, named) ↦ test
  | inr (test, other) ↦ absurd (other h)
]

-- A child of `me` that `pid` names, in a slot other than its own.
pub record Child (pid : ℤ) (me : Task) (k : Kernel) (i : ℕ) (t : Task) : Type 0 where
  pub first : 0 < i
  pub last : i ≤ last_task
  pub filled : k.task i ≡ some t
  pub other : i ≢ k.current
  pub of_me : t.father ≡ me.pid
  pub named : Named pid me t

-- Such a child that sys_waitpid has no reason to return for.
abbrev pub Running : Bool → Task → Type 0
Running untraced t = (t.state ≢ task_zombie) × ((t.state ≢ task_stopped) ⊎ (untraced ≡ false))

-- A child that neither is dead nor stopped.
abbrev pub Living : Task → Type 0
Living t = (t.state ≢ task_zombie) × (t.state ≢ task_stopped)

-- The zombie `t` in slot `i` is gone, and the caller has its times.
pub record Reaped (i : ℕ) (t : Task) (k k' : Kernel) : Type 0 where
  pub slot : k'.task i ≡ none
  pub mine :
      k'.task k.current
      ≡ map_task
          (λ u. record u { cutime = u.cutime + t.utime; cstime = u.cstime + t.stime })
          (k.task k.current)
  pub others : (j : ℕ) → j ≢ i → j ≢ k.current → k'.task j ≡ k.task j
  pub current : k'.current ≡ k.current
  pub jiffies : k'.jiffies ≡ k.jiffies
  pub log : k'.log ≡ k.log

-- The running task sleeps interruptibly, and the log has the line W for it.
pub record Asleep (k k' : Kernel) : Type 0 where
  pub mine :
      k'.task k.current ≡ map_task (λ t. record t { state = task_interruptible }) (k.task k.current)
  pub others : (j : ℕ) → j ≢ k.current → k'.task j ≡ k.task j
  pub current : k'.current ≡ k.current
  pub jiffies : k'.jiffies ≡ k.jiffies
  pub log : k'.log ≡ note b'W' k.jiffies (k.task k.current) k.log

-- What a round of sys_waitpid does.
pub data Waited (pid : ℤ) (untraced nohang : Bool) (me : Task) (k : Kernel) : Round → Type 0 where
  reaps :
      (i : ℕ) (t : Task) (k' : Kernel)
      → Child pid me k i t
      → t.state ≡ task_zombie
      → ((j : ℕ) (u : Task) → i < j → Child pid me k j u → Running untraced u)
      → Reaped i t k k'
      → Waited pid untraced nohang me k (releases (pos t.pid) t.exit_code k')
  sees_stopped :
      (i : ℕ) (t : Task)
      → Child pid me k i t
      → t.state ≡ task_stopped
      → untraced ≡ true
      → ((j : ℕ) (u : Task) → i < j → Child pid me k j u → Running untraced u)
      → Waited pid untraced nohang me k (returns (pos t.pid) (some 0x7f) k)
  none_yet :
      (i : ℕ) (t : Task)
      → Child pid me k i t
      → Living t
      → ((j : ℕ) (u : Task) → Child pid me k j u → Running untraced u)
      → nohang ≡ true
      → Waited pid untraced nohang me k (returns (pos 0) none k)
  goes_to_sleep :
      (i : ℕ) (t : Task) (k' : Kernel)
      → Child pid me k i t
      → Living t
      → ((j : ℕ) (u : Task) → Child pid me k j u → Running untraced u)
      → nohang ≡ false
      → Asleep k k'
      → Waited pid untraced nohang me k (sleeps k')
  no_child :
      ((j : ℕ) (u : Task) → Child pid me k j u → (u.state ≡ task_stopped) × (untraced ≡ false))
      → Waited pid untraced nohang me k (returns echild none k)

module _ (pid : ℤ) (untraced : Bool) (me : Task) (k : Kernel) where
  abbrev looks : ℕ → Look
  looks i = look_at pid untraced k.current me i (k.task i)

  Child-look : (i : ℕ) (t : Task) → Child pid me k i t → looks i ≡ by_state untraced t t.state
  Child-look i t c =
      let test : (t.father == me.pid) ≡ true = ap (λ j. j == me.pid) c.of_me ∙ ==_refl me.pid in
      rw (c.filled, ne→==_false i k.current c.other, test, Named-named_by pid me t c.named) refl

  -- A slot that the loop does not skip has a child.
  data Looked (i : ℕ) : Look → Type 0 where
    passed : Looked i skip
    child : (t : Task) → Child pid me k i t → Looked i (by_state untraced t t.state)

  look-Looked : (i : ℕ) → 0 < i → i ≤ last_task → Looked i (looks i)
  look-Looked i p q = elim (Option-cases (k.task i)) [
    | inl empty ↦ rw empty passed
    | inr (t, full) ↦ elim (ℕ_discrete i k.current) [
      | yes at ↦ rw (full, ap (λ j. j == k.current) at, ==_refl k.current) passed
      | no other ↦ elim (ℕ_discrete t.father me.pid) [
        | no ne ↦ rw (full, ne→==_false i k.current other, ne→==_false t.father me.pid ne) passed
        | yes mine ↦
            let test : (t.father == me.pid) ≡ true = ap (λ j. j == me.pid) mine ∙ ==_refl me.pid in
            elim (Named-cases pid me t) [
              | inr (no_name, other_name) ↦
                  rw (full, ne→==_false i k.current other, test, no_name) passed
              | inl (name, named) ↦
                  rw (full, ne→==_false i k.current other, test, name)
                    (child t (record {
                      first = p;
                      last = q;
                      filled = full;
                      other = other;
                      of_me = mine;
                      named = named;
                    }))
            ]
      ]
    ]
  ]

by_state-GoesOn :
    (untraced : Bool) (t : Task) (s : State)
    → GoesOn (by_state untraced t s)
    → (s ≢ task_zombie) × ((s ≢ task_stopped) ⊎ (untraced ≡ false))
by_state-GoesOn untraced t task_running g = (λ e. cc, inl (λ e. cc))
by_state-GoesOn untraced t task_interruptible g = (λ e. cc, inl (λ e. cc))
by_state-GoesOn untraced t task_uninterruptible g = (λ e. cc, inl (λ e. cc))
by_state-GoesOn untraced t task_zombie g = elim g [ ]
by_state-GoesOn true t task_stopped g = elim g [ ]
by_state-GoesOn false t task_stopped g = (λ e. cc, inr refl)

by_state-alive :
    (untraced : Bool) (t : Task) (s : State)
    → by_state untraced t s ≡ alive
    → (s ≢ task_zombie) × (s ≢ task_stopped)
by_state-alive untraced t task_running e = (λ x. cc, λ x. cc)
by_state-alive untraced t task_interruptible e = (λ x. cc, λ x. cc)
by_state-alive untraced t task_uninterruptible e = (λ x. cc, λ x. cc)
by_state-alive untraced t task_zombie e = absurd cc
by_state-alive true t task_stopped e = absurd cc
by_state-alive false t task_stopped e = absurd cc

by_state-skip :
    (untraced : Bool) (t : Task) (s : State)
    → by_state untraced t s ≡ skip
    → (s ≡ task_stopped) × (untraced ≡ false)
by_state-skip untraced t task_running e = absurd cc
by_state-skip untraced t task_interruptible e = absurd cc
by_state-skip untraced t task_uninterruptible e = absurd cc
by_state-skip untraced t task_zombie e = absurd cc
by_state-skip true t task_stopped e = absurd cc
by_state-skip false t task_stopped e = (refl, refl)

by_state-zombie :
    (untraced : Bool) (t u : Task) (s : State)
    → by_state untraced t s ≡ zombie_child u
    → (s ≡ task_zombie) × (t ≡ u)
by_state-zombie untraced t u task_running e = absurd cc
by_state-zombie untraced t u task_interruptible e = absurd cc
by_state-zombie untraced t u task_uninterruptible e = absurd cc
by_state-zombie untraced t u task_zombie e = (refl, cc)
by_state-zombie true t u task_stopped e = absurd cc
by_state-zombie false t u task_stopped e = absurd cc

by_state-stopped :
    (untraced : Bool) (t u : Task) (s : State)
    → by_state untraced t s ≡ stopped_child u
    → (s ≡ task_stopped) × ((untraced ≡ true) × (t ≡ u))
by_state-stopped untraced t u task_running e = absurd cc
by_state-stopped untraced t u task_interruptible e = absurd cc
by_state-stopped untraced t u task_uninterruptible e = absurd cc
by_state-stopped untraced t u task_zombie e = absurd cc
by_state-stopped true t u task_stopped e = (refl, (refl, cc))
by_state-stopped false t u task_stopped e = absurd cc

release-Reaped :
    (i : ℕ) (t : Task) (k : Kernel)
    → i ≢ k.current
    → Reaped i t k (release i (change (add_times t) k.current k))
release-Reaped i t k apart = record {
  slot = rw (==_refl i) refl;
  mine = rw (ne→==_false k.current i (λ e. apart (sym e)), ==_refl k.current) refl;
  others = λ j ne other. rw (ne→==_false j i ne, ne→==_false j k.current other) refl;
  current = refl;
  jiffies = refl;
  log = refl;
}

note-map_task :
    (c time : ℕ) (o : Option Task) (log : List Event)
    → note c time (map_task (λ t. record t { state = task_interruptible }) o) log
      ≡ note c time o log
note-map_task c time none log = refl
note-map_task c time (some t) log = refl

fall_asleep-Asleep : (k : Kernel) → Asleep k (fall_asleep k)
fall_asleep-Asleep k = record {
  mine = rw (==_refl k.current) refl;
  others = λ j ne. rw (ne→==_false j k.current ne) refl;
  current = refl;
  jiffies = refl;
  log = rw (==_refl k.current) (note-map_task b'W' k.jiffies (k.task k.current) k.log);
}

module _ (pid : ℤ) (untraced nohang : Bool) (me : Task) (k : Kernel) where
  Running-behind :
      (j : ℕ) (u : Task)
      → Child pid me k j u
      → GoesOn (looks pid untraced me k j)
      → Running untraced u
  Running-behind j u c g =
      by_state-GoesOn untraced u u.state (subst GoesOn (Child-look pid untraced me k j u c) g)

  zombie-Child :
      (i : ℕ) (t : Task) (l : Look)
      → Looked pid untraced me k i l
      → l ≡ zombie_child t
      → Child pid me k i t × (t.state ≡ task_zombie)
  zombie-Child i t _ passed e = absurd cc
  zombie-Child i t _ (child u c) e =
      let (state, same) = by_state-zombie untraced u t u.state e in
      subst (λ x. Child pid me k i x × (x.state ≡ task_zombie)) same (c, state)

  stopped-Child :
      (i : ℕ) (t : Task) (l : Look)
      → Looked pid untraced me k i l
      → l ≡ stopped_child t
      → Child pid me k i t × ((t.state ≡ task_stopped) × (untraced ≡ true))
  stopped-Child i t _ passed e = absurd cc
  stopped-Child i t _ (child u c) e =
      let (state, (traced, same)) = by_state-stopped untraced u t u.state e in
      subst (λ x. Child pid me k i x × ((x.state ≡ task_stopped) × (untraced ≡ true))) same
        (c, (state, traced))

  alive-Child :
      (i : ℕ) (l : Look)
      → Looked pid untraced me k i l
      → l ≡ alive
      → (t : Task) × Child pid me k i t × Living t
  alive-Child i _ passed e = absurd cc
  alive-Child i _ (child u c) e = (u, c, by_state-alive untraced u u.state e)

  finish-Waited :
      (r : Found)
      → Scanned (looks pid untraced me k) last_task false r
      → Waited pid untraced nohang me k (finish nohang k r)
  finish-Waited _ (no_living f) = no_child (λ j u c.
      by_state-skip untraced u u.state
        (sym (Child-look pid untraced me k j u c) ∙ f j c.first c.last))
  finish-Waited _ (living i p q l f) =
      let (t, c, alive_now) = alive-Child i _ (look-Looked pid untraced me k i p q) l in
      let running : (j : ℕ) (u : Task) → Child pid me k j u → Running untraced u =
        λ j u b. Running-behind j u b (f j b.first b.last) in
      elim (Bool-cases nohang) [
        | inl poll ↦ rw poll (none_yet i t c alive_now running refl)
        | inr block ↦ rw block (goes_to_sleep i t _ c alive_now running refl (fall_asleep-Asleep k))
      ]
  finish-Waited _ (stopped_at i t p q l f) =
      let (c, (state, traced)) = stopped-Child i t _ (look-Looked pid untraced me k i p q) l in
      sees_stopped i t c state traced (λ j u a b. Running-behind j u b (f j a b.last))
  finish-Waited _ (zombie_at i t p q l f) =
      let (c, state) = zombie-Child i t _ (look-Looked pid untraced me k i p q) l in
      reaps i t _ c state (λ j u a b. Running-behind j u b (f j a b.last))
        (release-Reaped i t k c.other)

  -- One round always ends as `Waited` lists.
  pub waitpid_round-Waited :
      Waited pid untraced nohang me k (waitpid_round pid untraced nohang me k)
  unfolding waitpid_round
  waitpid_round-Waited = finish-Waited _ (scan-Scanned (looks pid untraced me k) last_task false)
