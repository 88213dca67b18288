-- ===== src/Exit.antt =====
-- Signals between tasks: send_sig, kill_session and sys_kill of kernel/exit.c (Lab 3), over the task
-- table of Sched.
pub mod Kill
pub mod Leave
pub mod Left
pub mod Father
pub mod Exited
mod Tests
use hack_linux.Base.{
  ltb, leb, ◌==◌, if◌then◌else◌, ltb→lt, ltb_false→le, lt→ltb, le→ltb_false, leb→le, le→leb,
  lt→leb_false, ==_iff, ne→==_false, ==_false→ne, ==_refl, tests, Bool-cases, Option-cases, update,
  length, get_elem?, set, length-append, length-set, get_elem?-set_self, get_elem?-set_ne, get_or,
  take, drop, replicate, take-append-drop, length-take, length-drop, length-replicate, length-map,
  ℕ, zero, suc, ◌+◌, ◌-◌, ◌*◌, ◌/◌, ◌%◌, ◌^◌, ◌≤◌, ◌<◌, ◌≡◌, refl, sym, ap, ◌∙◌, subst, ◌≢◌, ◌↔◌,
  ◌⊎◌, inl, inr, Bool, true, false, not, ◌&&◌, ◌||◌, Option, none, some, List, [], ◌∷◌, ◌++◌, map,
  ap₂, fun_ext, add-zero, arith, ℕ_discrete, dec_lt,
}
use hack_linux.Base.Int.{
  ℤ, pos, negsuc, pos_part, neg_part, sub_ℕ, ◌+ℤ◌, ◌-ℤ◌, ◌*ℤ◌, ◌≤ℤ◌, ltb_ℤ, +ℤ_parts, -ℤ_parts,
  eq_of_parts, int_laws,
}
use hack_linux.Sched.{
  nr_tasks, last_task, hz, State, task_running, task_interruptible, task_uninterruptible,
  task_zombie, task_stopped, Signals, Task, Event, Tasks, Kernel, map_task, change, note, fprintk,
  is_running, is_interruptible, sigkill, sigalrm, sigstop, raise, unblocked, some_bit, ring, wakes,
  checked, woken_event, check_slots, above, consider, pick, recharged, recharge, is_nothing_left,
  choose, state_is_running, log_switch, switch_to, switched, map_option, schedule,
}

abbrev pub eperm : ℤ
eperm = negsuc 0

abbrev pub bad_argument : ℤ
bad_argument = negsuc 21

abbrev pub sighup : ℕ
sighup = 1

-- `suser()` for the task `me`.
abbrev pub suser : Task → Bool
suser me = me.euid == 0

-- `sig<1 || sig>32`
abbrev pub bad_signal : ℤ → Bool
bad_signal sig = ltb_ℤ sig (pos 1) || ltb_ℤ (pos 32) sig

-- send_sig, called by the task `me`: the result and the slot of the receiver.
unfoldable pub send_sig : ℤ → Task → Bool → Option Task → ℤ × Option Task
send_sig sig me priv none = (bad_argument, none)
send_sig sig me priv (some t) =
    if bad_signal sig
    then (bad_argument, some t)
    else if priv || me.euid == t.euid || suser me
    then (pos 0, some (record t { signal = raise (pos_part sig) t.signal }))
    else (eperm, some t)

-- The loop of kill_session, over the slots from n down to 1.
unfoldable pub kill_session : ℕ → ℕ → Tasks → Tasks
kill_session zero session task = task
kill_session (suc n) session task = kill_session n session (
    update task (suc n) (
      map_task
        (λ t. if t.session == session then record t { signal = raise sighup t.signal } else t)
        (task (suc n))))

-- Which slots sys_kill tries: `pid` 0, positive, -1, and the other negative ones.
abbrev pub tries : ℤ → Task → Option Task → Bool
tries (pos zero) me none = false
tries (pos zero) me (some t) = t.pgrp == me.pid
tries (pos (suc n)) me none = false
tries (pos (suc n)) me (some t) = t.pid == suc n
tries (negsuc zero) me o = true
tries (negsuc (suc n)) me none = false
tries (negsuc (suc n)) me (some t) = t.pgrp == suc (suc n)

-- Only `kill(0, sig)` is privileged.
abbrev pub privileged : ℤ → Bool
privileged (pos n) = n == 0
privileged (negsuc n) = false

abbrev pub is_ok : ℤ → Bool
is_ok (pos n) = n == 0
is_ok (negsuc n) = false

-- What the body of a loop of sys_kill leaves in a slot, and `err`, 0 where it calls nothing.
unfoldable pub kill_slot : ℤ → ℤ → Task → Option Task → ℤ × Option Task
unfolding send_sig
kill_slot pid sig me o = if tries pid me o then send_sig sig me (privileged pid) o else (pos 0, o)

-- The loop over the slots from n down to 1, with `retval` so far.
unfoldable pub kill_slots : ℕ → ℤ → ℤ → Task → ℤ → Tasks → ℤ × Tasks
unfolding kill_slot
kill_slots zero pid sig me retval task = (retval, task)
kill_slots (suc n) pid sig me retval task =
    let (err, o) = kill_slot pid sig me (task (suc n)) in
    kill_slots n pid sig me (if is_ok err then retval else err) (update task (suc n) o)

-- sys_kill, called by the task `me`: a signal changes no field that the loop reads of it.
unfoldable pub sys_kill : ℤ → ℤ → Task → Tasks → ℤ × Tasks
unfolding kill_slots
sys_kill pid sig me task = kill_slots last_task pid sig me (pos 0) task
