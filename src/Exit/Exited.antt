-- ===== src/Exit/Exited.antt =====
-- The state in which do_exit calls schedule: kernel/exit.c (Lab 3).
use hack_linux.Base.{◌==◌, if◌then◌else◌, ℕ, ◌<◌, ◌≡◌, ◌≢◌, ◌⊎◌, true, none, some, ◌∷◌}
use hack_linux.Sched.{nr_tasks, task_zombie, Task, Tasks, Kernel, change, fprintk}
use hack_linux.Exit.{kill_session}
use hack_linux.Exit.Leave.{sigchld, adopt, hang_up, bury}
use hack_linux.Exit.Left.{Kept, Adopted}

-- How the process `me` with the code ends in the slot `c`: as a zombie, with SIGCHLD sent to its
-- father, or released when there is no father.
pub data Ending (code c : ℕ) (me : Task) (task : Tasks) : Type 0 where
  zombie_of :
      (i : ℕ) (father w : Task)
      → task i ≡ some father
      → father.pid ≡ (if me.father == me.pid then 1 else me.father)
      → father.signal sigchld ≡ true
      → task c ≡ some w
      → w.state ≡ task_zombie
      → w.exit_code ≡ code
      → w.pid ≡ me.pid
      → Ending code c me task
  fatherless :
      ((j : ℕ) (t : Task)
          → j < nr_tasks
          → task j ≡ some t
          → t.pid ≢ (if me.father == me.pid then 1 else me.father))
        ⊎ ((if me.father == me.pid then 1 else me.father) ≡ 0)
      → task c ≡ none
      → Ending code c me task

pub record Exited (code : ℕ) (me : Task) (k k' : Kernel) : Type 0 where
  pub others : (j : ℕ) → j < nr_tasks → j ≢ k.current → Adopted me.pid true (k.task j) (k'.task j)
  pub ending : Ending code k.current me k'.task
  pub current : k'.current ≡ k.current
  pub log : k'.log ≡ record { of_pid = me.pid; letter = b'E'; time = k.jiffies } ∷ k.log

-- The tasks when the process becomes a zombie.
hung_up : Task → Kernel → Kernel
unfolding adopt kill_session
hung_up me k = hang_up me (record k { task = adopt nr_tasks 0 me.pid k.task })

buried : ℕ → Task → Kernel → Kernel
unfolding hung_up
buried code me k = fprintk b'E' k.current (change (bury code) k.current (hung_up me k))

-- The process in its slot, a zombie.
module _ (code : ℕ) (me w : Task) (k : Kernel) (there : (hung_up me k).task k.current ≡ some w)
    (kept : Kept me.pid true me w) where
  abbrev new_father : ℕ
  new_father = if me.father == me.pid then 1 else me.father
