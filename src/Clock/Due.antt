-- ===== src/Clock/Due.antt =====
-- When the timers of the list are due.
use hack_linux.Base.{
  ltb, leb, ◌==◌, ltb→lt, ltb_false→le, leb→le, ==_false→ne, Bool-cases, length, ℕ, ◌+◌, ◌-◌, ◌≤◌,
  ◌<◌, ◌≡◌, refl, ap, ◌∙◌, ◌≢◌, inl, inr, true, Option, none, some, List, [], ◌∷◌, ◌++◌, arith,
}
use hack_linux.Base.Int.{ℤ, pos, negsuc, pos_part, ◌≤ℤ◌, ltb_ℤ}
use hack_linux.Clock.{time_requests, Timer, Call, timer_fn, insert, add_timer}

-- The ticks until each timer, after `base` ticks, and its function.
abbrev pub due : ℕ → List Timer → List (ℕ × ℕ)
due base [] = []
due base (t ∷ ts) = (base + t.jiffies, t.fn) ∷ due (base + t.jiffies) ts

-- The ticks of a list of timers in all.
abbrev pub total : List Timer → ℕ
total [] = 0
total (t ∷ ts) = t.jiffies + total ts

-- The first timer, after `base` ticks, is not due before tick n.
pub data NotBefore (n base : ℕ) : List Timer → Type 0 where
  no_timer : NotBefore n base []
  first : {t : Timer} {ts : List Timer} → n ≤ base + t.jiffies → NotBefore n base (t ∷ ts)

NotBefore-shift :
    (n base more : ℕ) (ts : List Timer)
    → more ≤ n
    → NotBefore (n - more) base ts
    → NotBefore n (more + base) ts
NotBefore-shift n base more _ h no_timer = no_timer
NotBefore-shift n base more _ h (first p) = first (omega arith)

-- A list of timers with a new one, which is due after `jiffies` ticks.
pub data Inserted (base jiffies fn : ℕ) (timers : List Timer) : List Timer → Type 0 where
  between :
      {result : List Timer} (before after : List Timer)
      → timers ≡ before ++ after
      → total before < jiffies
      → NotBefore jiffies (total before) after
      → due base result ≡ due base before ++ ((base + jiffies, fn) ∷ due (base + jiffies) after)
      → Inserted base jiffies fn timers result

insert-Inserted :
    (base jiffies fn : ℕ) (ts : List Timer)
    → 0 < jiffies
    → Inserted base jiffies fn ts (insert jiffies fn ts)
unfolding insert
insert-Inserted base jiffies fn [] p = between [] [] refl p no_timer refl
insert-Inserted base jiffies fn (t ∷ ts) p = elim (Bool-cases (ltb t.jiffies jiffies)) [
  | inr last ↦
      rw last (
        between [] (t ∷ ts) refl p (first (omega (arith, ltb_false→le t.jiffies jiffies last)))
          refl)
  | inl more ↦
      let less = ltb→lt t.jiffies jiffies more in
      rw more
        (behind less (insert-Inserted (base + t.jiffies) (jiffies - t.jiffies) fn ts (omega arith)))
]
  where
    behind :
        {r : List Timer}
        → t.jiffies < jiffies
        → Inserted (base + t.jiffies) (jiffies - t.jiffies) fn ts r
        → Inserted base jiffies fn (t ∷ ts) (t ∷ r)
    behind less (between before after e small late d) =
        let sum : base + t.jiffies + (jiffies - t.jiffies) ≡ base + jiffies = omega arith in
        between (t ∷ before) after (ap (λ l. t ∷ l) e) (omega arith)
          (NotBefore-shift jiffies (total before) t.jiffies after (omega arith) late)
          (ap (λ l. (base + t.jiffies, t.fn) ∷ l)
            (d ∙ ap (λ n. due (base + t.jiffies) before ++ ((n, fn) ∷ due n after)) sum))

-- What add_timer does with the list and the calls.
pub data Added (jiffies : ℤ) (fn : ℕ) (timers : List Timer) (calls : List Call)
    : Option (List Timer × List Call) → Type 0 where
  no_function : fn ≡ 0 → Added jiffies fn timers calls (some (timers, calls))
  at_once :
      fn ≢ 0 → jiffies ≤ℤ pos 0 → Added jiffies fn timers calls (some (timers, timer_fn fn ∷ calls))
  panics :
      fn ≢ 0 → pos 1 ≤ℤ jiffies → time_requests ≤ length timers → Added jiffies fn timers calls none
  added :
      {result : List Timer}
      → fn ≢ 0
      → pos 1 ≤ℤ jiffies
      → length timers < time_requests
      → Inserted 0 (pos_part jiffies) fn timers result
      → Added jiffies fn timers calls (some (result, calls))

-- add_timer does nothing without a function, calls it at once for a delay that is not positive, and
-- panics when all elements are in use. Otherwise the new timer is due after exactly its delay;
-- the timers due earlier are due when they were; each timer behind it is due its own ticks after
-- the timer before it, which for the first is now the new one: the code does not take the new
-- timer's ticks from it.
pub add_timer-Added :
    (jiffies : ℤ) (fn : ℕ) (timers : List Timer) (calls : List Call)
    → Added jiffies fn timers calls (add_timer jiffies fn timers calls)
unfolding add_timer
add_timer-Added jiffies fn timers calls = elim (Bool-cases (fn == 0)) [
  | inl null ↦ rw null (no_function (ground arith))
  | inr full ↦ elim (Bool-cases (ltb_ℤ (pos 0) jiffies)) [
    | inr now ↦ rw (full, now) (at_once (==_false→ne fn 0 full) (ltb_false→le _ _ now))
    | inl later ↦ elim (Bool-cases (leb time_requests (length timers))) [
      | inl out ↦
          rw (full, later, out)
            (panics (==_false→ne fn 0 full) (positive jiffies later) (leb→le _ _ out))
      | inr room ↦
          let p = positive jiffies later in
          rw (full, later, room)
            (added (==_false→ne fn 0 full) p (ground arith)
              (insert-Inserted 0 (pos_part jiffies) fn timers (part jiffies p)))
    ]
  ]
]
  where
    positive : (j : ℤ) → ltb_ℤ (pos 0) j ≡ true → pos 1 ≤ℤ j
    positive j h = ground arith

    part : (j : ℤ) → pos 1 ≤ℤ j → 0 < pos_part j
    part (pos n) h = omega arith
    part (negsuc n) h = omega arith
