-- ===== src/Fork/Process.antt =====
-- The child of fork: copy_process and copy_mem of kernel/fork.c (Lab 3), over the memory manager of
-- Mm and the task table of Sched. The registers in `tss` are not modelled.
use hack_linux.Base.{
  ltb, ◌==◌, if◌then◌else◌, update, ℕ, zero, suc, ◌+◌, ◌*◌, Bool, true, false, not, Option, none,
  some,
}
use hack_linux.Base.Int.{ℤ, pos, negsuc}
use hack_linux.Sched.{task_running, task_uninterruptible, Task, Kernel, map_task, change, fprintk}
use hack_linux.Mm.{
  freeing_tables, separate_i_and_d, bad_data_limit, M, pure, ◌>>=◌, ◌>>◌, stop_panic, printk,
}
use hack_linux.Mm.Frames.{get_free_page, free_page}
use hack_linux.Mm.Copy.{copy_page_tables, free_page_tables}
use hack_linux.Fork.{eagain}

-- The local descriptors of a task: bases and limits of code and data.
pub record Segments : Type 0 where
  pub code_base : ℕ
  pub data_base : ℕ
  pub code_limit : ℕ
  pub data_limit : ℕ

-- `filp`, `pwd`, `root` and `executable`, as numbers of files and inodes.
pub record Files : Type 0 where
  pub filp : ℕ → Option ℕ
  pub pwd : Option ℕ
  pub root : Option ℕ
  pub executable : Option ℕ

pub record Processes : Type 0 where
  pub kernel : Kernel
  pub segments : ℕ → Segments
  pub files : ℕ → Files
  pub f_count : ℕ → ℕ
  pub i_count : ℕ → ℕ

abbrev pub nr_open : ℕ
nr_open = 20

abbrev pub enomem : ℤ
enomem = negsuc 11

-- `nr * 0x4000000` as both bases.
abbrev pub new_segments : ℕ → Segments → Segments
new_segments nr seg = record seg { code_base = nr * 0x4000000; data_base = nr * 0x4000000 }

abbrev pub is_success : ℤ → Bool
is_success (pos zero) = true
is_success (pos (suc n)) = false
is_success (negsuc n) = false

-- copy_mem for a parent with the segments `seg`.
unfoldable pub copy_mem : ℕ → Segments → M ℤ
unfolding copy_page_tables free_page_tables
copy_mem nr seg =
    if not (seg.data_base == seg.code_base)
    then stop_panic separate_i_and_d
    else if ltb seg.data_limit seg.code_limit
    then stop_panic bad_data_limit
    else do
      failed ← copy_page_tables seg.data_base (nr * 0x4000000) seg.data_limit
      if is_success failed then pure (pos 0) else do
        printk freeing_tables
        _ ← free_page_tables (nr * 0x4000000) seg.data_limit
        pure enomem

-- The child before its memory is copied.
abbrev pub child_of : ℕ → Task → Task
child_of last_pid t = record t {
  state = task_uninterruptible;
  pid = last_pid;
  father = t.pid;
  counter = t.priority;
  signal = λ n. false;
  alarm = 0;
  leader = false;
  utime = 0;
  stime = 0;
  cutime = 0;
  cstime = 0;
}

-- `f->f_count++`; how wide a count is stands in a file that is not in the repository.
abbrev pub count_up : Option ℕ → (ℕ → ℕ) → ℕ → ℕ
count_up none count = count
count_up (some f) count = update count f (count f + 1)

-- The loop over `filp`, for the descriptors below n.
unfoldable pub count_files : ℕ → (ℕ → Option ℕ) → (ℕ → ℕ) → ℕ → ℕ
count_files zero filp count = count
count_files (suc n) filp count = count_up (filp n) (count_files n filp count)

-- `task[nr] = p` with the child in it.
abbrev pub place_child : ℕ → ℕ → Processes → Processes
place_child nr last_pid ps =
    let parent = ps.kernel.current in
    record ps {
      kernel = record ps.kernel {
        task = update ps.kernel.task nr (map_task (child_of last_pid) (ps.kernel.task parent));
      };
      segments = update ps.segments nr (new_segments nr (ps.segments parent));
      files = update ps.files nr (ps.files parent);
    }

-- The counts, the two lines of the log and the state.
unfoldable pub start_child : ℕ → Processes → Processes
unfolding count_files
start_child nr ps =
    let mine = ps.files ps.kernel.current in
    record ps {
      f_count = count_files nr_open (ps.files nr).filp ps.f_count;
      i_count = count_up mine.executable (count_up mine.root (count_up mine.pwd ps.i_count));
      kernel =
          fprintk b'J' nr
            (change (λ t. record t { state = task_running }) nr (fprintk b'N' nr ps.kernel));
    }

abbrev pub drop_child : ℕ → Processes → Processes
drop_child nr ps = record ps { kernel = record ps.kernel { task = update ps.kernel.task nr none } }

-- copy_process, with the pid and the slot of find_empty_process.
unfoldable pub copy_process : ℕ → ℕ → Processes → M (ℤ × Processes)
unfolding copy_mem start_child
copy_process nr last_pid ps = do
  p ← get_free_page
  if p == 0 then pure (eagain, ps) else do
    failed ← copy_mem nr (ps.segments ps.kernel.current)
    let placed = place_child nr last_pid ps
    if is_success failed
        then pure (pos last_pid, start_child nr placed)
        else do free_page p; pure (eagain, drop_child nr placed)
