-- ===== src/Wait.antt =====
-- The end of a process as its father sees it: sys_waitpid and release of kernel/exit.c (Lab 3), over
-- the task table of Sched. What the father's memory gets is part of the result.
pub mod Scan
pub mod Waited
pub mod Called
mod Tests
use hack_linux.Base.{
  ltb, leb, ◌==◌, if◌then◌else◌, ltb→lt, ltb_false→le, lt→ltb, le→ltb_false, leb→le, le→leb,
  lt→leb_false, ==_iff, ne→==_false, ==_false→ne, ==_refl, tests, Bool-cases, Option-cases, update,
  length, get_elem?, set, length-append, length-set, get_elem?-set_self, get_elem?-set_ne, get_or,
  take, drop, replicate, take-append-drop, length-take, length-drop, length-replicate, length-map,
  ℕ, zero, suc, ◌+◌, ◌-◌, ◌*◌, ◌/◌, ◌%◌, ◌^◌, ◌≤◌, ◌<◌, ◌≡◌, refl, sym, ap, ◌∙◌, subst, ◌≢◌, ◌↔◌,
  ◌⊎◌, inl, inr, Bool, true, false, not, ◌&&◌, ◌||◌, Option, none, some, List, [], ◌∷◌, ◌++◌, map,
  ap₂, fun_ext, add-zero, arith, ℕ_discrete, dec_lt,
}
use hack_linux.Base.Int.{
  ℤ, pos, negsuc, pos_part, neg_part, sub_ℕ, ◌+ℤ◌, ◌-ℤ◌, ◌*ℤ◌, ◌≤ℤ◌, ltb_ℤ, +ℤ_parts, -ℤ_parts,
  eq_of_parts, int_laws,
}
use hack_linux.Sched.{
  nr_tasks, last_task, hz, State, task_running, task_interruptible, task_uninterruptible,
  task_zombie, task_stopped, Signals, Task, Event, Tasks, Kernel, map_task, change, note, fprintk,
  is_running, is_interruptible, sigkill, sigalrm, sigstop, raise, unblocked, some_bit, ring, wakes,
  checked, woken_event, check_slots, above, consider, pick, recharged, recharge, is_nothing_left,
  choose, state_is_running, log_switch, switch_to, switched, map_option, schedule,
}

-- The tests on `pid` in the loop of sys_waitpid.
abbrev pub named_by : ℤ → Task → Task → Bool
named_by (pos zero) me t = t.pgrp == me.pgrp
named_by (pos (suc n)) me t = t.pid == suc n
named_by (negsuc zero) me t = true
named_by (negsuc (suc n)) me t = t.pgrp == suc (suc n)

-- What the body of the loop does with a slot: `continue`, set `flag`, or return.
pub data Look : Type 0 where
  skip : Look
  alive : Look
  stopped_child : Task → Look
  zombie_child : Task → Look

-- The switch on the child's state; `untraced` is `options & WUNTRACED`.
abbrev pub by_state : Bool → Task → State → Look
by_state untraced t task_running = alive
by_state untraced t task_interruptible = alive
by_state untraced t task_uninterruptible = alive
by_state untraced t task_zombie = zombie_child t
by_state untraced t task_stopped = if untraced then stopped_child t else skip

abbrev pub look_at : ℤ → Bool → ℕ → Task → ℕ → Option Task → Look
look_at pid untraced current me i none = skip
look_at pid untraced current me i (some t) =
    if i == current
    then skip
    else if not (t.father == me.pid)
    then skip
    else if not (named_by pid me t)
    then skip
    else by_state untraced t t.state

abbrev pub sets_flag : Look → Bool
sets_flag skip = false
sets_flag alive = true
sets_flag (stopped_child t) = false
sets_flag (zombie_child t) = false

-- Where the loop ends: at a slot with a child, or behind the last one, with `flag`.
pub data Found : Type 0 where
  nothing : Bool → Found
  stopped : ℕ → Task → Found
  zombie : ℕ → Task → Found

abbrev pub after_look : Look → ℕ → Found → Found
after_look skip i rest = rest
after_look alive i rest = rest
after_look (stopped_child t) i rest = stopped i t
after_look (zombie_child t) i rest = zombie i t

-- The loop over the slots from n down to 1, with `flag` so far.
unfoldable pub scan : ℕ → (ℕ → Look) → Bool → Found
scan zero look flag = nothing flag
scan (suc n) look flag =
    let rest = scan n look (sets_flag (look (suc n)) || flag) in
    after_look (look (suc n)) (suc n) rest

-- release(p) up to its schedule(): the slot is cleared and its page freed.
abbrev pub release : ℕ → Kernel → Kernel
release i k = record k { task = update k.task i none }

abbrev pub add_times : Task → Task → Task
add_times child t = record t { cutime = t.cutime + child.utime; cstime = t.cstime + child.stime }

-- How far sys_waitpid comes: it returns, with the status for `stat_addr` if it writes one, or it is
-- in the schedule() of release, with the result and the status that follow, or in its own.
pub data Round : Type 0 where
  returns : ℤ → Option ℕ → Kernel → Round
  releases : ℤ → ℕ → Kernel → Round
  sleeps : Kernel → Round

abbrev pub echild : ℤ
echild = negsuc 9

abbrev pub fall_asleep : Kernel → Kernel
fall_asleep k =
    fprintk b'W' k.current (change (λ t. record t { state = task_interruptible }) k.current k)

-- Behind the loop; `nohang` is `options & WNOHANG`.
abbrev pub finish : Bool → Kernel → Found → Round
finish nohang k (nothing true) = if nohang then returns (pos 0) none k else sleeps (fall_asleep k)
finish nohang k (nothing false) = returns echild none k
finish nohang k (stopped i t) = returns (pos t.pid) (some 0x7f) k
finish nohang k (zombie i t) =
    releases (pos t.pid) t.exit_code (release i (change (add_times t) k.current k))

-- sys_waitpid from `repeat` on, by the task `me` in slot `current`, up to a schedule().
unfoldable pub waitpid_round : ℤ → Bool → Bool → Task → Kernel → Round
unfolding scan
waitpid_round pid untraced nohang me k =
    finish nohang k (scan last_task (λ i. look_at pid untraced k.current me i (k.task i)) false)

abbrev pub eintr : ℤ
eintr = negsuc 3

abbrev pub sigchld : ℕ
sigchld = 17

-- `signal &= ~(1<<(SIGCHLD-1))`
abbrev pub clear_sigchld : Task → Task
clear_sigchld t = record t { signal = update t.signal sigchld false }

-- Behind the schedule() of sys_waitpid: `again` is the jump to `repeat`.
abbrev pub behind_schedule : (Task → Kernel → Round) → Task → Kernel → Round
behind_schedule again me k =
    let mine = clear_sigchld me in
    let cleared = change clear_sigchld k.current k in
    let round = again mine cleared in
    if some_bit 32 mine.signal then returns eintr none cleared else round

-- A round goes on when its schedule() comes back in the kernel `k`.
abbrev pub go_on : Round → Kernel → Round → Round
go_on (returns r status done) k next = returns r status done
go_on (releases r status asleep) k next = returns r (some status) k
go_on (sleeps asleep) k next = next

-- sys_waitpid: the list has the running task and the kernel for each time that schedule() comes
-- back to it, which what the other tasks do decides.
unfoldable pub sys_waitpid : ℤ → Bool → Bool → List (Task × Kernel) → Task → Kernel → Round
unfolding waitpid_round some_bit
sys_waitpid pid untraced nohang [] me k = waitpid_round pid untraced nohang me k
sys_waitpid pid untraced nohang ((t, w) ∷ later) me k =
    go_on (waitpid_round pid untraced nohang me k) w
      (behind_schedule (sys_waitpid pid untraced nohang later) t w)
