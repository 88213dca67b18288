-- ===== src/Sem/Wait/Safety.antt =====
-- The value of a semaphore accounts for all calls.
use hack_linux.Base.{update, ℕ, ◌+◌, ◌≤◌, ◌<◌, ◌≡◌, arith}
use hack_linux.Sem.Wait.{
  outside, World, wake_task, wait_loop, resume, word, sem_post, Step, wait, scheduled, post, Reach,
  here, then_step, opened,
}

-- The value is what was there at first, plus the posts, minus the waits that have ended.
abbrev pub Balanced : ℕ → World → Type 0
Balanced value w = w.m_value + w.waits ≡ value + w.posts

wait_loop-posts : (p : ℕ) (w : World) → (wait_loop p w).posts ≡ w.posts
unfolding wait_loop
wait_loop-posts p w = ground arith

wait_loop-Balanced : (value p : ℕ) (w : World) → Balanced value w → Balanced value (wait_loop p w)
unfolding wait_loop
wait_loop-Balanced value p w h = ground arith

Step-posts : {w u : World} → Step w u → w.posts ≤ u.posts
unfolding resume sem_post
Step-posts {w} (wait p nz out) = omega (arith, wait_loop-posts p w)
Step-posts {w} (scheduled p nz awake) =
    omega (
      arith,
      wait_loop-posts p (record w { place = wake_task (w.tmp p) (update w.place p outside) }),
    )
Step-posts post = omega arith

Step-Balanced :
    {w u : World} (value : ℕ)
    → Step w u
    → value + u.posts < word
    → Balanced value w
    → Balanced value u
unfolding resume sem_post
Step-Balanced {w} value (wait p nz out) b h = wait_loop-Balanced value p w h
Step-Balanced {w} value (scheduled p nz out) b h = wait_loop-Balanced value p _ h
Step-Balanced value post b h = omega arith

-- While the initial value plus the number of posts is below 2^32, in every state that is reached
-- from an opened semaphore the value plus the number of waits that have ended is the initial value
-- plus the number of posts: no more processes get past sys_sem_wait than the value allows.
pub Reach-Balanced :
    (value : ℕ) {w : World} → Reach (opened value) w → value + w.posts < word → Balanced value w
Reach-Balanced value here b = omega arith
Reach-Balanced value (then_step r s) b =
    Step-Balanced value s b (Reach-Balanced value r (omega (arith, Step-posts s)))
