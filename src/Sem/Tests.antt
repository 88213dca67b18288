-- ===== src/Sem/Tests.antt =====
-- Semaphores on a small heap: the head at 1 and the semaphore "ab" at 2; block 3 is clear, and
-- block 4 still has the bytes of an old name.
use hack_linux.Base.{◌==◌, if◌then◌else◌, ℕ, ◌≡◌, refl, ◌↔◌, true, [], ◌∷◌, arith}
use hack_linux.Base.Int.{pos}
use hack_linux.Sem.{
  max_sem_name, Chars, Semaphore, Heap, chars_of, head_name, same_name, str_len, find_sem,
  name_from_user, copy_name, sys_sem_open, sys_sem_unlink,
}
use hack_linux.Sem.Chain.{IsTable}
use hack_linux.Sem.Names.{Agree, Ends, stop, go_on, Length, same_name-Agree, same_name-copy}
use hack_linux.Sem.Open.{Opened, sys_sem_open-Opened}
use hack_linux.Sem.Again.{sys_sem_open-twice}
use hack_linux.Sem.Unlink.{Unlinked, sys_sem_unlink-Unlinked}
use hack_linux.Sem.Wait
use hack_linux.Sem.Wait.{
  World, Reach, opened, asleep, woken, here, then_step, wait_loop, resume, sem_post, Place, outside,
  wake, wake_task, sleep, wake_up, Step, wait, scheduled, post, word,
}
use hack_linux.Sem.Wait.Safety.{Balanced, Reach-Balanced}
use hack_linux.Sem.Wait.Wakeups.{Reach-no_lost_wakeup}

abbrev ab : Chars
ab = chars_of (b'a' ∷ b'b' ∷ [])

abbrev cd : Chars
cd i = if i == 0 then b'c' else if i == 1 then b'd' else 0

abbrev node : Chars → ℕ → ℕ → Semaphore
node name back fore = record {
  m_name = name;
  m_value = 1;
  m_prev = back;
  m_next = fore;
  m_wait = 0;
}

abbrev heap : Heap
heap a =
    if a == 1
    then node head_name 0 2
    else if a == 2
    then node ab 1 0
    else if a == 4
    then node (chars_of (b'w' ∷ b'x' ∷ b'y' ∷ b'z' ∷ [])) 0 0
    else node (λ i. 0) 0 0

heap-IsTable : IsTable heap (2 ∷ [])
heap-IsTable = record {
  links = (refl, omega arith, refl, refl);
  distinct = ((omega arith, tt), (tt, tt));
  head = refl;
}

opens : (sys_sem_open 9 cd 5 3 heap).0 ≡ pos 3
unfolding sys_sem_open name_from_user same_name find_sem str_len
opens = refl

-- With a block that keeps an old name, a second call makes a second semaphore.
opens_twice : (sys_sem_open 9 cd 5 3 (sys_sem_open 9 cd 5 4 heap).1).0 ≡ pos 3
unfolding sys_sem_open name_from_user same_name find_sem str_len
opens_twice = refl

sys_sem_open-Opened_example : Opened heap (2 ∷ []) cd 5 3 (sys_sem_open 9 cd 5 3 heap)
sys_sem_open-Opened_example =
    sys_sem_open-Opened 9 heap (2 ∷ []) cd 5 3 heap-IsTable (omega arith, (omega arith, tt))
      (omega arith)

sys_sem_unlink-Unlinked_example : Unlinked heap (2 ∷ []) ab (sys_sem_unlink 9 ab heap)
sys_sem_unlink-Unlinked_example =
    sys_sem_unlink-Unlinked 9 heap (2 ∷ []) ab heap-IsTable (omega arith)

cd-Length : Length (name_from_user cd).0 2
unfolding name_from_user
cd-Length = record { short = omega arith; ends = refl; before = λ i p. ground arith }

same_name-copy_example : same_name (copy_name (heap 4).m_name cd) cd ≡ ((heap 4).m_name 2 == 0)
same_name-copy_example =
    same_name-copy cd 2 (record { short = omega arith; ends = refl; before = λ i p. ground arith })
      (heap 4).m_name

cd-Ends : Ends cd max_sem_name 0
cd-Ends = go_on (omega arith) (go_on (omega arith) (stop refl))

same_name-Agree_example : (same_name cd ab ≡ true) ↔ Agree cd ab max_sem_name 0
same_name-Agree_example = same_name-Agree cd ab cd-Ends

sys_sem_open-twice_example :
    let (p, g) = sys_sem_open 9 cd 5 3 heap in (p ≡ pos 3) × (sys_sem_open 9 cd 7 4 g ≡ (pos 3, g))
unfolding name_from_user same_name find_sem
sys_sem_open-twice_example =
    sys_sem_open-twice 9 heap (2 ∷ []) cd 5 7 3 4 2 heap-IsTable (omega arith, (omega arith, tt))
      (omega arith) (omega arith) refl refl cd-Length refl refl

-- Processes 1 and 2 wait at a semaphore of value 0, and then there is a post.
abbrev both_wait : World
both_wait = wait_loop 2 (wait_loop 1 (opened 0))

waiting : Reach (opened 0) (sem_post both_wait)
unfolding wait_loop
waiting =
    then_step
      (then_step (then_step here (Wait.Step.wait 1 (omega arith) refl))
        (Wait.Step.wait 2 (omega arith) refl))
      Wait.Step.post

Reach-Balanced_example : Balanced 0 (sem_post both_wait)
unfolding sem_post wait_loop
Reach-Balanced_example = Reach-Balanced 0 waiting (omega arith)

Reach-no_lost_wakeup_example : (p : ℕ) × ((sem_post both_wait).place p ≡ woken)
unfolding sem_post wait_loop
Reach-no_lost_wakeup_example = Reach-no_lost_wakeup 0 1 waiting refl (omega arith)
