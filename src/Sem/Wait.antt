-- ===== src/Sem/Wait.antt =====
-- sys_sem_wait and sys_sem_post as steps of processes: kernel/sem.c (Lab 6) over sleep_on and
-- wake_up of kernel/sched.c (Lab 3). Interrupts are off in both calls and the kernel is not
-- preempted, so the code between two calls of schedule() is one step.
pub mod Wakeups
pub mod Safety
use hack_linux.Base.{
  ltb, leb, ◌==◌, if◌then◌else◌, ltb→lt, ltb_false→le, lt→ltb, le→ltb_false, leb→le, le→leb,
  lt→leb_false, ==_iff, ne→==_false, ==_false→ne, ==_refl, tests, Bool-cases, Option-cases, update,
  length, get_elem?, set, length-append, length-set, get_elem?-set_self, get_elem?-set_ne, get_or,
  take, drop, replicate, take-append-drop, length-take, length-drop, length-replicate, length-map,
  ℕ, zero, suc, ◌+◌, ◌-◌, ◌*◌, ◌/◌, ◌%◌, ◌^◌, ◌≤◌, ◌<◌, ◌≡◌, refl, sym, ap, ◌∙◌, subst, ◌≢◌, ◌↔◌,
  ◌⊎◌, inl, inr, Bool, true, false, not, ◌&&◌, ◌||◌, Option, none, some, List, [], ◌∷◌, ◌++◌, map,
  ap₂, fun_ext, add-zero, arith, ℕ_discrete, dec_lt,
}

-- Where a process is in its calls.
pub data Place : Type 0 where
  -- Outside sys_sem_wait, or back from it.
  outside : Place
  -- In schedule(), called from sleep_on: TASK_UNINTERRUPTIBLE, or made runnable again.
  asleep : Place
  woken : Place

-- One semaphore and its processes, which are numbered from 1 on (0 is NULL). `tmp` is the local
-- variable of the process's sleep_on. `waits` and `posts` count the calls that have ended.
pub record World : Type 0 where
  pub m_value : ℕ
  pub m_wait : ℕ
  pub place : ℕ → Place
  pub tmp : ℕ → ℕ
  pub waits : ℕ
  pub posts : ℕ

-- `tmp->state = 0` and `(**p).state = 0`: a sleeping process becomes runnable.
abbrev pub wake : Place → Place
wake outside = outside
wake asleep = woken
wake woken = woken

-- `if (tmp) tmp->state=0;`
abbrev pub wake_task : ℕ → (ℕ → Place) → ℕ → Place
wake_task t place = if t == 0 then place else update place t (wake (place t))

-- sleep_on up to schedule().
abbrev pub sleep : ℕ → World → World
sleep p w = record w { tmp = update w.tmp p w.m_wait; m_wait = p; place = update w.place p asleep }

-- The head of the loop of sys_sem_wait, up to the next schedule() or the end of the call.
unfoldable pub wait_loop : ℕ → World → World
wait_loop p w =
    if w.m_value == 0
    then sleep p w
    else record w { m_value = w.m_value - 1; place = update w.place p outside; waits = w.waits + 1 }

-- A process is chosen by schedule() again: the end of sleep_on, then the loop.
unfoldable pub resume : ℕ → World → World
unfolding wait_loop
resume p w = wait_loop p (record w { place = wake_task (w.tmp p) (update w.place p outside) })

-- wake_up
abbrev pub wake_up : World → World
wake_up w = record w { place = wake_task w.m_wait w.place; m_wait = 0 }

-- `m_value` is an unsigned long of 32 bits.
abbrev pub word : ℕ
word = 4294967296

unfoldable pub sem_post : World → World
sem_post w = wake_up (record w { m_value = (w.m_value + 1) % word; posts = w.posts + 1 })

-- What the processes may do next. A process that is asleep does nothing.
pub data Step (w : World) : World → Type 0 where
  wait : (p : ℕ) → p ≢ 0 → w.place p ≡ outside → Step w (wait_loop p w)
  scheduled : (p : ℕ) → p ≢ 0 → w.place p ≡ woken → Step w (resume p w)
  post : Step w (sem_post w)

pub data Reach (w : World) : World → Type 0 where
  here : Reach w w
  then_step : {u v : World} → Reach w u → Step u v → Reach w v

-- A semaphore that sys_sem_open has just made.
abbrev pub opened : ℕ → World
opened value = record {
  m_value = value;
  m_wait = 0;
  place = λ p. outside;
  tmp = λ p. 0;
  waits = 0;
  posts = 0;
}
