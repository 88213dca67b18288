-- ===== src/Lib.antt =====
-- Verification of the kernel code that the labs of Hack-Linux-0.11 write or change, modelled as
-- functions on explicit states. Each lab is a directory of changed files over Linux 0.11; the
-- paths below are from the root of the repository, where `Lab 2/` stands for `Lab 2. Add system
-- calls/linux-0.11/`, `Lab 3/` for `Lab 3. Track process life cycle/linux-0.11/`, `Lab 6/` for
-- `Lab 6. Implement shared memory/linux-0.11/`, `Lab 7/` for `Lab 7. Obscure the letters output
-- to tty/linux-0.11/` and `Lab 8/` for `Lab 8. Implement the proc filesystem/linux-0.11/`.
--
-- The parts and their files:
--   * Base: names of the libraries passed on, Boolean tests on numbers, arrays and C strings as
--     functions, lists indexed by native numbers, signed integers.
--   * Mm: the memory manager, Lab 6/mm/memory.c, and shared memory, Lab 6/mm/shm.c. `Mm` is the
--     state (mem_map, sharedPages, the words of memory, what was printed) and an outcome is ok, a
--     panic, a killed process or a wild access. Mm.Frames has get_free_page, free_page,
--     release_shared_page_if_exists and mem_init; Mm.Tables has put_page, un_wp_page, do_wp_page,
--     write_verify, get_empty_page and try_to_share; Mm.Copy has copy_page_tables and
--     free_page_tables; Mm.Demand has share_page, do_no_page and calc_mem; Mm.Shm has sys_shmget
--     and sys_shmat. free_page asks sharedPages first, which is where the two parts meet.
--   * Sem: named semaphores, Lab 6/kernel/sem.c with include/semaphore.h and
--     include/string_fix.h. `Heap` is the memory of the blocks; sys_sem_open and sys_sem_unlink
--     walk and change the list. Sem.Wait has sys_sem_wait and sys_sem_post as steps of processes,
--     over sleep_on and wake_up of Lab 3/kernel/sched.c.
--   * Sched: the task table and schedule, Lab 3/kernel/sched.c with include/linux/sched.h.
--     `Kernel` is task, current, jiffies and the process log.
--   * Clock: add_timer, do_timer, sys_alarm and sys_nice, Lab 3/kernel/sched.c; do_timer calls
--     schedule of Sched.
--   * Exit and Wait: signals and sys_waitpid, Lab 3/kernel/exit.c. Exit has send_sig,
--     kill_session and sys_kill, and Exit.Leave has do_exit and tell_father; Wait has release and
--     sys_waitpid; what the kernel is whenever schedule() comes back to the task is an argument.
--     Both work on the task table of Sched.
--   * Fork: find_empty_process, verify_area, copy_mem and copy_process, Lab 3/kernel/fork.c, over
--     the task table of Sched and the memory of Mm.
--   * Who: sys_iam and sys_whoami, Lab 2/kernel/who.c.
--   * ProcDev: proc_read, Lab 8/fs/proc_dev.c, with the texts of the two devices as arguments.
--   * Console: the screen and the escape sequences of the console, Lab
--     7/kernel/chr_drv/console.c. `Screen` is the video memory, a word at each even address, with
--     origin, scr_end, the cursor and the scroll region; Console has scrup, scrdown and the
--     operations of the control sequences on it; Console.Write and Console.Sequences have
--     con_write as a machine over the states 0 to 4 of an escape sequence; Console.Start has
--     con_init. Console.Grid reads a screen as rows and columns, which is the view that the
--     specifications are on. The characters of the queue are a list, and ERASE_CHAR is an
--     argument; the ports of the controller are a log; a count that the code computes never
--     passes below 0 in a valid state.
--   * Sleep: sys_pause, sleep_on, interruptible_sleep_on and wake_up, Lab 3/kernel/sched.c, with
--     their lines in the process log. A function that calls schedule is cut there, and
--     Sleep.Steps puts the pieces together as steps of the running task.
--   * Floppy: ticks_to_floppy_on, floppy_on, floppy_off and do_floppy_timer, Lab
--     3/kernel/sched.c, over the kernel of Sched and the queues of Sleep.
--   * Namei: permission, match and find_entry, Lab 8/fs/namei.c. Reading a block of a directory
--     and the inode that a device is mounted on are arguments; an inode is a record of the fields
--     that the code reads, and a search gives an entry, NULL, or a read through a NULL pointer.
--
-- Bounds and fuel: the loops over tables, memory and task slots run a number of rounds that the
-- code fixes. The walk along the semaphores takes a number of rounds, and its theorems say that
-- more rounds than nodes suffice. schedule takes the rounds of its `while (1)`, and two are
-- proved to be enough. find_empty_process takes the rounds of its `repeat`, and 65 are proved to
-- be enough. verify_area takes as many rounds as bytes, each of which takes some away. Words of
-- memory and page addresses are the values of 32 bits that the code computes, with the
-- wrap-around where it can occur; mem_map counts and semaphore values wrap as their types do; the
-- counters of tasks do not wrap, since signed overflow is undefined in C.
--
-- Not modelled: the processor (page faults themselves, the flush of its tables, the switch of
-- registers), devices and the rest of the file systems, formatted printing, user programs, the
-- boot code. malloc, the access to user memory, bmap, bread and bread_page are not in the
-- repository: they or their results are arguments; sys_close and iput, which do_exit calls, are
-- left out for the same reason.
pub mod Base
pub mod Mm
pub mod Sem
pub mod Sched
pub mod Clock
pub mod Who
pub mod Exit
pub mod Wait
pub mod ProcDev
pub mod Fork
pub mod Console
pub mod Sleep
pub mod Floppy
pub mod Namei
