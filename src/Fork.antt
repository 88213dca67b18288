-- ===== src/Fork.antt =====
-- The choice of a pid and a slot: find_empty_process of kernel/fork.c (Lab 3).
pub mod Pids
pub mod Find
pub mod Verify
pub mod Process
pub mod Forked
mod Tests
use hack_linux.Base.{
  ltb, leb, ◌==◌, if◌then◌else◌, ltb→lt, ltb_false→le, lt→ltb, le→ltb_false, leb→le, le→leb,
  lt→leb_false, ==_iff, ne→==_false, ==_false→ne, ==_refl, tests, Bool-cases, Option-cases, update,
  length, get_elem?, set, length-append, length-set, get_elem?-set_self, get_elem?-set_ne, get_or,
  take, drop, replicate, take-append-drop, length-take, length-drop, length-replicate, length-map,
  ℕ, zero, suc, ◌+◌, ◌-◌, ◌*◌, ◌/◌, ◌%◌, ◌^◌, ◌≤◌, ◌<◌, ◌≡◌, refl, sym, ap, ◌∙◌, subst, ◌≢◌, ◌↔◌,
  ◌⊎◌, inl, inr, Bool, true, false, not, ◌&&◌, ◌||◌, Option, none, some, List, [], ◌∷◌, ◌++◌, map,
  ap₂, fun_ext, add-zero, arith, ℕ_discrete, dec_lt,
}
use hack_linux.Base.Int.{
  ℤ, pos, negsuc, pos_part, neg_part, sub_ℕ, ◌+ℤ◌, ◌-ℤ◌, ◌*ℤ◌, ◌≤ℤ◌, ltb_ℤ, +ℤ_parts, -ℤ_parts,
  eq_of_parts, int_laws,
}
use hack_linux.Sched.{
  nr_tasks, last_task, hz, State, task_running, task_interruptible, task_uninterruptible,
  task_zombie, task_stopped, Signals, Task, Event, Tasks, Kernel, map_task, change, note, fprintk,
  is_running, is_interruptible, sigkill, sigalrm, sigstop, raise, unblocked, some_bit, ring, wakes,
  checked, woken_event, check_slots, above, consider, pick, recharged, recharge, is_nothing_left,
  choose, state_is_running, log_switch, switch_to, switched, map_option, schedule,
}

-- A long is negative from here on.
abbrev pub long_max : ℕ
long_max = 2147483648

-- `if ((++last_pid)<0) last_pid=1;`
abbrev pub next_pid : ℕ → ℕ
next_pid last_pid = if last_pid + 1 == long_max then 1 else last_pid + 1

abbrev pub has_pid : ℕ → Option Task → Bool
has_pid pid none = false
has_pid pid (some t) = t.pid == pid

-- Some of the slots below n has the pid.
unfoldable pub pid_used : ℕ → ℕ → Tasks → Bool
pid_used zero pid task = false
pid_used (suc n) pid task = let rest = pid_used n pid task in rest || has_pid pid (task n)

-- `repeat`, for a number of rounds.
unfoldable pub find_pid : ℕ → ℕ → Tasks → Option ℕ
unfolding pid_used
find_pid zero last_pid task = none
find_pid (suc rounds) last_pid task =
    let pid = next_pid last_pid in
    let rest = find_pid rounds pid task in if pid_used nr_tasks pid task then rest else some pid

abbrev pub is_empty : Option Task → Bool
is_empty none = true
is_empty (some t) = false

-- The second loop, for n rounds from slot i on.
unfoldable pub first_empty : ℕ → ℕ → Tasks → Option ℕ
first_empty zero i task = none
first_empty (suc n) i task =
    let rest = first_empty n (i + 1) task in if is_empty (task i) then some i else rest

abbrev pub eagain : ℤ
eagain = negsuc 10

abbrev pub slot_or_error : Option ℕ → ℤ
slot_or_error none = eagain
slot_or_error (some i) = pos i

-- find_empty_process: the result and `last_pid`; none if the rounds are not enough.
unfoldable pub find_empty_process : ℕ → ℕ → Tasks → Option (ℤ × ℕ)
unfolding find_pid first_empty
find_empty_process rounds last_pid task =
    map_option (λ pid. (slot_or_error (first_empty last_task 1 task), pid))
      (find_pid rounds last_pid task)
