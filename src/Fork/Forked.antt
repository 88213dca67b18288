-- ===== src/Fork/Forked.antt =====
-- What copy_process leaves: kernel/fork.c (Lab 3).
use hack_linux.Base.{
  ◌==◌, if◌then◌else◌, ==_iff, ne→==_false, ==_refl, ℕ, zero, suc, ◌+◌, ◌*◌, ◌≡◌, refl, sym, ap,
  ◌≢◌, inl, inr, false, Option, none, some, ◌∷◌, arith, ℕ_discrete,
}
use hack_linux.Base.Int.{ℤ, pos, negsuc}
use hack_linux.Sched.{task_running, Task}
use hack_linux.Mm.{Mm, Panic, Outcome, ok, panic, killed, wild, pure, and_then, ◌>>=◌}
use hack_linux.Mm.Frames.{free_page}
use hack_linux.Mm.Frames.Alloc.{Taken, NoPage, get_free_page-total}
use hack_linux.Fork.{eagain}
use hack_linux.Fork.Process.{
  Processes, nr_open, is_success, copy_mem, child_of, count_up, count_files, place_child,
  start_child, drop_child, copy_process,
}

-- How often a number stands in an optional one, and in the first n descriptors.
abbrev pub times : Option ℕ → ℕ → ℕ
times none j = 0
times (some f) j = if j == f then 1 else 0

abbrev pub references : ℕ → (ℕ → Option ℕ) → ℕ → ℕ
references zero filp j = 0
references (suc n) filp j = references n filp j + times (filp n) j

count_up-times : (o : Option ℕ) (count : ℕ → ℕ) (j : ℕ) → count_up o count j ≡ count j + times o j
count_up-times none count j = omega arith
count_up-times (some f) count j = elim (ℕ_discrete j f) [
  | yes same ↦ rw ((==_iff j f).1 same) (ap (λ (i : ℕ). count i + 1) (sym same))
  | no other ↦ rw (ne→==_false j f other) (omega arith)
]

count_files-references :
    (n : ℕ) (filp : ℕ → Option ℕ) (count : ℕ → ℕ) (j : ℕ)
    → count_files n filp count j ≡ count j + references n filp j
unfolding count_files
count_files-references zero filp count j = omega arith
count_files-references (suc n) filp count j =
    let one = count_up-times (filp n) (count_files n filp count) j in
    let rest = count_files-references n filp count j in omega arith

-- The fields of the child `c` of the task `t`: what fork sets, and what it takes over.
pub record Offspring (last_pid : ℕ) (t c : Task) : Type 0 where
  pub state : c.state ≡ task_running
  pub pid : c.pid ≡ last_pid
  pub father : c.father ≡ t.pid
  pub counter : c.counter ≡ t.priority
  pub signal : (j : ℕ) → c.signal j ≡ false
  pub alarm : c.alarm ≡ 0
  pub leader : c.leader ≡ false
  pub utime : c.utime ≡ 0
  pub stime : c.stime ≡ 0
  pub cutime : c.cutime ≡ 0
  pub cstime : c.cstime ≡ 0
  pub priority : c.priority ≡ t.priority
  pub blocked : c.blocked ≡ t.blocked
  pub pgrp : c.pgrp ≡ t.pgrp
  pub session : c.session ≡ t.session
  pub uid : c.uid ≡ t.uid
  pub euid : c.euid ≡ t.euid

-- The child of the task `t` in the slot `nr`.
pub record Child (nr last_pid : ℕ) (t : Task) (ps ps' : Processes) : Type 0 where
  pub child : Task
  pub task : ps'.kernel.task nr ≡ some child
  pub offspring : Offspring last_pid t child
  pub others : (i : ℕ) → i ≢ nr → ps'.kernel.task i ≡ ps.kernel.task i
  pub current : ps'.kernel.current ≡ ps.kernel.current
  pub log :
      ps'.kernel.log
      ≡ record { of_pid = last_pid; letter = b'J'; time = ps.kernel.jiffies }
        ∷ record { of_pid = last_pid; letter = b'N'; time = ps.kernel.jiffies }
        ∷ ps.kernel.log
  pub segments : ps'.segments nr ≡ record {
    code_base = nr * 0x4000000;
    data_base = nr * 0x4000000;
    code_limit = (ps.segments ps.kernel.current).code_limit;
    data_limit = (ps.segments ps.kernel.current).data_limit;
  }
  pub own_files : ps'.files nr ≡ ps.files ps.kernel.current
  pub files :
      (j : ℕ)
      → ps'.f_count j ≡ ps.f_count j + references nr_open (ps.files ps.kernel.current).filp j
  pub inodes :
      (j : ℕ)
      → ps'.i_count j
        ≡ ps.i_count j
          + times (ps.files ps.kernel.current).pwd j
          + times (ps.files ps.kernel.current).root j
          + times (ps.files ps.kernel.current).executable j

-- No child: the slot is empty and nothing else of the processes changes.
pub record Dropped (nr : ℕ) (ps ps' : Processes) : Type 0 where
  pub task : ps'.kernel.task nr ≡ none
  pub others : (i : ℕ) → i ≢ nr → ps'.kernel.task i ≡ ps.kernel.task i
  pub current : ps'.kernel.current ≡ ps.kernel.current
  pub log : ps'.kernel.log ≡ ps.kernel.log
  pub counts : ps'.f_count ≡ ps.f_count
  pub inodes : ps'.i_count ≡ ps.i_count

-- The outcome of copy_process for the parent `t`.
pub data Forked (nr last_pid : ℕ) (t : Task) (ps : Processes) (s : Mm)
    : Outcome (ℤ × Processes) → Type 0 where
  no_page : NoPage s 0 s → Forked nr last_pid t ps s (ok (eagain, ps) s)
  forked :
      (p : ℕ) (s1 s2 : Mm) (ps' : Processes)
      → Taken s p s1
      → copy_mem nr (ps.segments ps.kernel.current) s1 ≡ ok (pos 0) s2
      → Child nr last_pid t ps ps'
      → Forked nr last_pid t ps s (ok (pos last_pid, ps') s2)
  no_memory :
      (p : ℕ) (s1 s2 : Mm) (e : ℤ) (ps' : Processes)
      → Taken s p s1
      → copy_mem nr (ps.segments ps.kernel.current) s1 ≡ ok e s2
      → e ≢ pos 0
      → Dropped nr ps ps'
      → Forked nr last_pid t ps s (and_then (free_page p s2) (λ u. ok (eagain, ps')))
  panics :
      (p : ℕ) (s1 s2 : Mm) (c : Panic)
      → Taken s p s1
      → copy_mem nr (ps.segments ps.kernel.current) s1 ≡ panic c s2
      → Forked nr last_pid t ps s (panic c s2)
  dies :
      (p : ℕ) (s1 s2 : Mm)
      → Taken s p s1
      → copy_mem nr (ps.segments ps.kernel.current) s1 ≡ killed s2
      → Forked nr last_pid t ps s (killed s2)
  goes_wild :
      (p : ℕ) (s1 : Mm)
      → Taken s p s1
      → copy_mem nr (ps.segments ps.kernel.current) s1 ≡ wild
      → Forked nr last_pid t ps s wild

module _ (nr last_pid : ℕ) (t : Task) (ps : Processes) (apart : nr ≢ ps.kernel.current)
    (full : ps.kernel.task ps.kernel.current ≡ some t) where
  start_child-Child : Child nr last_pid t ps (start_child nr (place_child nr last_pid ps))
  unfolding start_child
  start_child-Child = record {
    child = record (child_of last_pid t) { state = task_running };
    task = rw (==_refl nr, full) refl;
    offspring = record {
      state = refl;
      pid = refl;
      father = refl;
      counter = refl;
      signal = λ j. refl;
      alarm = refl;
      leader = refl;
      utime = refl;
      stime = refl;
      cutime = refl;
      cstime = refl;
      priority = refl;
      blocked = refl;
      pgrp = refl;
      session = refl;
      uid = refl;
      euid = refl;
    };
    segments = rw (==_refl nr) refl;
    own_files = rw (==_refl nr) refl;
    others = λ i h. rw (ne→==_false i nr h) refl;
    current = refl;
    log = rw (==_refl nr, full) refl;
    files = λ j.
        rw (==_refl nr)
          (count_files-references nr_open (ps.files ps.kernel.current).filp ps.f_count j);
    inodes = λ j.
        let mine = ps.files ps.kernel.current in
        let first = count_up-times mine.pwd ps.i_count j in
        let second = count_up-times mine.root (count_up mine.pwd ps.i_count) j in
        let third =
          count_up-times mine.executable (count_up mine.root (count_up mine.pwd ps.i_count)) j in
        rw (ne→==_false ps.kernel.current nr (λ e. apart (sym e))) (omega arith);
  }

  drop_child-Dropped : Dropped nr ps (drop_child nr (place_child nr last_pid ps))
  drop_child-Dropped = record {
    task = rw (==_refl nr) refl;
    others = λ i h. rw (ne→==_false i nr h) refl;
    current = refl;
    log = refl;
    counts = refl;
    inodes = refl;
  }

  positive : {n : ℕ} → pos (suc n) ≡ pos 0 → ⊥
  positive e = cc

  negative : {n : ℕ} → negsuc n ≡ pos 0 → ⊥
  negative e = cc

  after_copy :
      (s s1 : Mm) (p : ℕ) (o : Outcome ℤ)
      → Taken s p s1
      → copy_mem nr (ps.segments ps.kernel.current) s1 ≡ o
      → Forked nr last_pid t ps s (
          and_then o (λ failed.
            if is_success failed
            then pure (pos last_pid, start_child nr (place_child nr last_pid ps))
            else free_page p >>= λ u. pure (eagain, drop_child nr (place_child nr last_pid ps))))
  after_copy s s1 p (ok (pos zero) s2) taken e = forked p s1 s2 _ taken e start_child-Child
  after_copy s s1 p (ok (pos (suc n)) s2) taken e =
      no_memory p s1 s2 (pos (suc n)) _ taken e (λ x. positive x) drop_child-Dropped
  after_copy s s1 p (ok (negsuc n) s2) taken e =
      no_memory p s1 s2 (negsuc n) _ taken e (λ x. negative x) drop_child-Dropped
  after_copy s s1 p (panic c s2) taken e = panics p s1 s2 c taken e
  after_copy s s1 p (killed s2) taken e = dies p s1 s2 taken e
  after_copy s s1 p wild taken e = goes_wild p s1 taken e

  -- copy_process for a parent `t` and a slot that is not the parent's, on every branch. Without a
  -- free page it returns -EAGAIN and changes nothing. Otherwise it takes a page and copies the
  -- memory. If copy_mem gives 0, the result is the pid; the slot has a runnable child with this pid,
  -- the parent's pid as its father, a full time slice, no signal, no alarm, no times and no
  -- leadership, and otherwise the parent's priority, blocked signals, group, session and user; its
  -- segments start at nr * 0x4000000 with the parent's limits, and it has the parent's files; the log has the lines N and J for it; each file's count grows by the number of the
  -- parent's descriptors that refer to it, and each inode's by its uses as pwd, root and executable.
  -- If copy_mem fails, the page is freed, the slot is empty, no count and no line changes, and the
  -- result is -EAGAIN. A panic, a wild access or the end of the process in copy_mem is that of
  -- copy_process. No other slot changes.
  pub copy_process-Forked : (s : Mm) → Forked nr last_pid t ps s (copy_process nr last_pid ps s)
  unfolding copy_process
  copy_process-Forked s =
      let (a, s1, e, result) = get_free_page-total s in
      elim result [
        | inr none_left ↦ rw (e, none_left.null, none_left.same) (no_page (no_page_at none_left))
        | inl taken ↦
            let address : (a == 0) ≡ false = ne→==_false a 0 (omega (arith, taken.at_page)) in
            rw (e, address) (after_copy s s1 a _ taken refl)
      ]
    where
      no_page_at : {a : ℕ} {s1 : Mm} → NoPage s a s1 → NoPage s 0 s
      no_page_at h = record { all_used = h.all_used; null = refl; same = refl }
