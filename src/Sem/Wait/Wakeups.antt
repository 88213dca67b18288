-- ===== src/Sem/Wait/Wakeups.antt =====
-- No wake-up is lost: the tasks that sleep hang together by `m_wait` and the local variables `tmp`.
use hack_linux.Base.{
  ◌==◌, ne→==_false, ==_refl, Bool-cases, update, ℕ, ◌≡◌, refl, sym, ◌∙◌, subst, ◌≢◌, ◌⊎◌, inl, inr,
  arith, ℕ_discrete, ap,
}
use hack_linux.Sem.Wait.{
  outside, asleep, woken, World, sleep, wait_loop, Place, wake, wake_task, resume, sem_post, Step,
  wait, scheduled, post, Reach, here, then_step, opened,
}

-- Process `q` is named by `m_wait`, or by the `tmp` of a process that is woken, or of a process that
-- sleeps and is itself reached so.
pub data Chained (w : World) : ℕ → Type 0 where
  head : {q : ℕ} → w.m_wait ≡ q → Chained w q
  after_woken : {q : ℕ} (p : ℕ) → w.place p ≡ woken → w.tmp p ≡ q → Chained w q
  after_asleep : {q : ℕ} (p : ℕ) → w.place p ≡ asleep → w.tmp p ≡ q → Chained w p → Chained w q

pub record Linked (w : World) : Type 0 where
  pub no_null : w.place 0 ≡ outside
  -- While a process is queued the value is 0.
  pub queue : (w.m_wait ≡ 0) ⊎ (w.m_value ≡ 0)
  pub chained : (q : ℕ) → w.place q ≡ asleep → Chained w q

asleep-ne : (w : World) (q : ℕ) → Linked w → w.place q ≡ asleep → q ≢ 0
asleep-ne w q l a e = absurd (clash (sym l.no_null ∙ subst (λ r. w.place r ≡ asleep) e a))
  where
    clash : outside ≡ asleep → ⊥
    clash x = cc

-- A process outside goes to sleep: the old head hangs on its `tmp`.
module _ (w : World) (p : ℕ) (out : w.place p ≡ outside) where
  Chained-sleep : {q : ℕ} → Chained w q → Chained (sleep p w) q
  Chained-sleep (head e) = after_asleep p (rw (==_refl p)) (rw (==_refl p) e) (head refl)
  Chained-sleep (after_woken r a e) =
      let ne : r ≢ p = λ x. clash (sym out ∙ subst (λ y. w.place y ≡ woken) x a) in
      after_woken r (rw (ne→==_false r p ne) a) (rw (ne→==_false r p ne) e)
    where
      clash : outside ≡ woken → ⊥
      clash x = cc
  Chained-sleep (after_asleep r a e c) =
      let ne : r ≢ p = λ x. clash (sym out ∙ subst (λ y. w.place y ≡ asleep) x a) in
      after_asleep r (rw (ne→==_false r p ne) a) (rw (ne→==_false r p ne) e) (Chained-sleep c)
    where
      clash : outside ≡ asleep → ⊥
      clash x = cc

  Linked-sleep : p ≢ 0 → w.m_value ≡ 0 → Linked w → Linked (sleep p w)
  Linked-sleep nz z l = record {
    no_null = rw (ne→==_false 0 p (λ e. nz (sym e))) l.no_null;
    queue = inr z;
    chained = λ q. elim (ℕ_discrete q p) [
      | yes at ↦ λ a. head (sym at)
      | no ne ↦ rw (ne→==_false q p ne) (λ a. Chained-sleep (l.chained q a))
    ];
  }

-- The places and pointers are what they were.
Chained-same :
    (w u : World)
    → w.m_wait ≡ u.m_wait
    → ((r : ℕ) → w.place r ≡ u.place r)
    → ((r : ℕ) → w.tmp r ≡ u.tmp r)
    → {q : ℕ} → Chained w q
    → Chained u q
Chained-same w u m p t (head e) = head (sym m ∙ e)
Chained-same w u m p t (after_woken r a e) = after_woken r (sym (p r) ∙ a) (sym (t r) ∙ e)
Chained-same w u m p t (after_asleep r a e c) =
    after_asleep r (sym (p r) ∙ a) (sym (t r) ∙ e) (Chained-same w u m p t c)

Linked-wait_loop :
    (w : World) (p : ℕ) → p ≢ 0 → w.place p ≡ outside → Linked w → Linked (wait_loop p w)
unfolding wait_loop
Linked-wait_loop w p nz out l = elim (Bool-cases (w.m_value == 0)) [
  | inl z ↦ rw z (Linked-sleep w p out nz (ground arith) l)
  | inr more ↦ rw more (record {
    no_null = rw (ne→==_false 0 p (λ e. nz (sym e))) l.no_null;
    queue = ground (arith, l.queue);
    chained = λ q a.
        Chained-same w _ refl (λ r. sym (same r)) (λ r. refl) (l.chained q (sym (same q) ∙ a));
  })
]
  where
    same : (r : ℕ) → (update w.place p outside) r ≡ w.place r
    same r = elim (Bool-cases (r == p)) [
      | inl e ↦ let at : r ≡ p = ground arith in rw (at, ==_refl p) (sym out)
      | inr n ↦ rw n
    ]

-- After task `t` is made runnable, a process that sleeps is chained still, or is that task.
module _ (w u : World) (l : Linked w) (tmp : (r : ℕ) → w.tmp r ≡ u.tmp r)
    (stays : (r : ℕ) → w.place r ≡ asleep → (u.place r ≡ woken) ⊎ (u.place r ≡ asleep))
    (at_head : (q : ℕ) → w.place q ≡ asleep → w.m_wait ≡ q → (u.place q ≡ woken) ⊎ (u.m_wait ≡ q))
    (still : (r q : ℕ)
      → w.place q ≡ asleep
      → w.place r ≡ woken
      → w.tmp r ≡ q
      → (u.place q ≡ woken) ⊎ (u.place r ≡ woken)) where
  Chained-woken : {q : ℕ} → w.place q ≡ asleep → Chained w q → (u.place q ≡ woken) ⊎ Chained u q
  Chained-woken {q} a (head e) = elim (at_head q a e) [ inl x ↦ inl x | inr x ↦ inr (head x) ]
  Chained-woken {q} a (after_woken r b e) = elim (still r q a b e) [
    | inl x ↦ inl x
    | inr x ↦ inr (after_woken r x (sym (tmp r) ∙ e))
  ]
  Chained-woken {q} a (after_asleep r b e c) = elim (Chained-woken b c) [
    | inl x ↦ inr (after_woken r x (sym (tmp r) ∙ e))
    | inr x ↦ elim (stays r b) [
      | inl y ↦ inr (after_woken r y (sym (tmp r) ∙ e))
      | inr y ↦ inr (after_asleep r y (sym (tmp r) ∙ e) x)
    ]
  ]

  Chained-still :
      ((r : ℕ) → u.place r ≡ asleep → w.place r ≡ asleep)
      → (q : ℕ) → u.place q ≡ asleep
      → Chained u q
  Chained-still before q a = elim (Chained-woken (before q a) (l.chained q (before q a))) [
    | inl x ↦ absurd (clash (sym a ∙ x))
    | inr x ↦ x
  ]
    where
      clash : asleep ≡ woken → ⊥
      clash x = cc

-- What `tmp->state = 0` does to each place.
wake_task_self : (t : ℕ) (f : ℕ → Place) → t ≢ 0 → wake_task t f t ≡ wake (f t)
wake_task_self t f nz = rw (ne→==_false t 0 nz, ==_refl t)

wake_task-ne : (t r : ℕ) (f : ℕ → Place) → r ≢ t → wake_task t f r ≡ f r
wake_task-ne t r f ne = ground (arith, ne)

wake_task-woken : (t r : ℕ) (f : ℕ → Place) → f r ≡ woken → wake_task t f r ≡ woken
wake_task-woken t r f e = ground arith

wake_task-asleep :
    (t r : ℕ) (f : ℕ → Place)
    → f r ≡ asleep
    → (wake_task t f r ≡ woken) ⊎ (wake_task t f r ≡ asleep)
wake_task-asleep t r f e = ground arith

asleep-wake_task : (t r : ℕ) (f : ℕ → Place) → wake_task t f r ≡ asleep → f r ≡ asleep
asleep-wake_task t r f e = ground arith

wake_task-outside : (t r : ℕ) (f : ℕ → Place) → f r ≡ outside → wake_task t f r ≡ outside
wake_task-outside t r f e = ground arith

-- The end of sleep_on.
module _ (w : World) (p : ℕ) (nz : p ≢ 0) (awake : w.place p ≡ woken) (l : Linked w) where
  abbrev back : World
  back = record w { place = wake_task (w.tmp p) (update w.place p outside) }

  out_of : (r : ℕ) → r ≢ p → update w.place p outside r ≡ w.place r
  out_of r ne = rw (ne→==_false r p ne)

  asleep-not : (r : ℕ) → w.place r ≡ asleep → r ≢ p
  asleep-not r a e = clash (sym awake ∙ subst (λ x. w.place x ≡ asleep) e a)
    where
      clash : woken ≡ asleep → ⊥
      clash x = cc

  back_stays : (r : ℕ) → w.place r ≡ asleep → (back.place r ≡ woken) ⊎ (back.place r ≡ asleep)
  back_stays r a =
      wake_task-asleep (w.tmp p) r (update w.place p outside) (out_of r (asleep-not r a) ∙ a)

  back_still :
      (r q : ℕ)
      → w.place q ≡ asleep
      → w.place r ≡ woken
      → w.tmp r ≡ q
      → (back.place q ≡ woken) ⊎ (back.place r ≡ woken)
  back_still r q a b e = elim (ℕ_discrete r p) [
    | yes at ↦
        let named : w.tmp p ≡ q = subst (λ x. w.tmp x ≡ q) at e in
        inl (
          subst (λ t. wake_task t (update w.place p outside) q ≡ woken) (sym named)
            (wake_task_self q (update w.place p outside) (asleep-ne w q l a)
              ∙ ap wake (out_of q (asleep-not q a) ∙ a)))
    | no ne ↦ inr (wake_task-woken (w.tmp p) r (update w.place p outside) (out_of r ne ∙ b))
  ]

  back_before : (r : ℕ) → back.place r ≡ asleep → w.place r ≡ asleep
  back_before r a = elim (ℕ_discrete r p) [
    | yes at ↦ absurd (
        clash
          (sym (asleep-wake_task (w.tmp p) r (update w.place p outside) a) ∙ rw (at, ==_refl p)))
    | no ne ↦ sym (out_of r ne) ∙ asleep-wake_task (w.tmp p) r (update w.place p outside) a
  ]
    where
      clash : asleep ≡ outside → ⊥
      clash x = cc

  Linked-back : Linked back
  Linked-back = record {
    no_null =
        wake_task-outside (w.tmp p) 0 (update w.place p outside)
          (out_of 0 (λ e. nz (sym e)) ∙ l.no_null);
    queue = l.queue;
    chained = Chained-still w back l (λ r. refl) back_stays (λ q a e. inr e) back_still back_before;
  }

  back_outside : back.place p ≡ outside
  back_outside = wake_task-outside (w.tmp p) p (update w.place p outside) (rw (==_refl p))

  Linked-resume : Linked (resume p w)
  unfolding resume
  Linked-resume = Linked-wait_loop back p nz back_outside Linked-back

Linked-post : (w : World) → Linked w → Linked (sem_post w)
unfolding sem_post
Linked-post w l = record {
  no_null = wake_task-outside w.m_wait 0 w.place l.no_null;
  queue = inl refl;
  chained =
      Chained-still w (sem_post w) l (λ r. refl) (λ r a. wake_task-asleep w.m_wait r w.place a)
        (λ q a e. inl (
          subst (λ t. wake_task t w.place q ≡ woken) (sym e)
            (wake_task_self q w.place (asleep-ne w q l a) ∙ ap wake a)))
        (λ r q a b e. inr (wake_task-woken w.m_wait r w.place b))
        (λ r a. asleep-wake_task w.m_wait r w.place a);
}

Step-Linked : {w u : World} → Step w u → Linked w → Linked u
Step-Linked {w} (wait p nz out) l = Linked-wait_loop w p nz out l
Step-Linked {w} (scheduled p nz awake) l = Linked-resume w p nz awake l
Step-Linked {w} post l = Linked-post w l

Reach-Linked : (value : ℕ) {w : World} → Reach (opened value) w → Linked w
Reach-Linked value here = record {
  no_null = refl;
  queue = inl refl;
  chained = λ q a. absurd (clash a);
}
  where
    clash : outside ≡ asleep → ⊥
    clash x = cc
Reach-Linked value (then_step r s) = Step-Linked s (Reach-Linked value r)

-- At the end of a chain stands a woken process, unless it ends at `m_wait`.
woken_behind :
    (w : World)
    → Linked w
    → w.m_wait ≡ 0
    → (q : ℕ) → q ≢ 0
    → Chained w q
    → (p : ℕ) × (w.place p ≡ woken)
woken_behind w l empty q nz (head e) = absurd (nz (sym e ∙ empty))
woken_behind w l empty q nz (after_woken p a e) = (p, a)
woken_behind w l empty q nz (after_asleep p a e c) = woken_behind w l empty p (asleep-ne w p l a) c

-- No wake-up is lost: in every state that is reached from an opened semaphore, if the value is not
-- 0 while some process sleeps in sys_sem_wait, then some process is woken, so that the scheduler
-- can run it.
pub Reach-no_lost_wakeup :
    (value : ℕ) {w : World} (q : ℕ)
    → Reach (opened value) w
    → w.place q ≡ asleep
    → w.m_value ≢ 0
    → (p : ℕ) × (w.place p ≡ woken)
Reach-no_lost_wakeup value {w} q r a open_value = elim l.queue [
  | inl empty ↦ woken_behind w l empty q (asleep-ne w q l a) (l.chained q a)
  | inr z ↦ absurd (open_value z)
]
  where
    l : Linked w
    l = Reach-Linked value r
