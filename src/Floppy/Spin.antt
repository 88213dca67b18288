-- ===== src/Floppy/Spin.antt =====
-- How long floppy_on waits and when floppy_off stops the motor: kernel/sched.c (Lab 3).
use hack_linux.Base.{
  leb, ◌==◌, if◌then◌else◌, le→ltb_false, le→leb, ==_iff, ne→==_false, ==_refl, Bool-cases, update,
  ℕ, zero, suc, ◌+◌, ◌-◌, ◌*◌, ◌/◌, ◌≤◌, ◌<◌, ◌≡◌, refl, ap, ◌∙◌, inl, inr, Bool, true, false,
  Option, none, some, ◌∷◌, arith, dec_lt,
}
use hack_linux.Sched.{hz, task_uninterruptible, Kernel, fprintk}
use hack_linux.Sleep.{set_state, sleep_on}
use hack_linux.Floppy.{
  Floppy, mask_for, ticks_to_floppy_on, spinning, sleeps, floppy_on, floppy_off, timer_slot,
  timer_slots, do_floppy_timer,
}
use hack_linux.Floppy.Drive.{Drive, drive, drive_tick, do_floppy_timer-drive}
use hack_linux.Floppy.Wakes.{Filled, Runs, timer_slots-Filled, starting, slots_wake}

-- n ticks with some motor on.
unfoldable pub floppy_ticks : ℕ → Floppy → Floppy
unfolding timer_slots
floppy_ticks zero f = f
floppy_ticks (suc n) f = floppy_ticks n (do_floppy_timer f)

ticks_more : (n : ℕ) (f : Floppy) → floppy_ticks (suc n) f ≡ do_floppy_timer (floppy_ticks n f)
unfolding floppy_ticks
ticks_more zero f = refl
ticks_more (suc n) f = ticks_more n (do_floppy_timer f)

module _ (nr p stops : ℕ) (low : nr ≤ 3) where
  still_starting :
      (n left : ℕ) (f : Floppy)
      → drive nr f ≡ starting (n + suc left) stops p
      → drive nr (floppy_ticks n f) ≡ starting (suc left) stops p
  unfolding floppy_ticks
  still_starting zero left f d =
      let sum : 0 + suc left ≡ suc left = omega arith in d ∙ ap (λ (m : ℕ). starting m stops p) sum
  still_starting (suc n) left f d =
      let sum : suc n + suc left - 1 ≡ n + suc left = omega arith in
      let more : (suc n + suc left == 0) ≡ false = ne→==_false (suc n + suc left) 0 (omega arith) in
      let later : (suc n + suc left - 1 == 0) ≡ false =
        ne→==_false (suc n + suc left - 1) 0 (omega arith) in
      still_starting n left (do_floppy_timer f)
        (do_floppy_timer-drive nr f low ∙ (ap drive_tick d ∙ rw (more, later, sum) refl))

  ticks-Filled : (n : ℕ) (f : Floppy) → Filled p f.kernel → Filled p (floppy_ticks n f).kernel
  unfolding floppy_ticks
  ticks-Filled zero f h = h
  ticks-Filled (suc n) f h = ticks-Filled n (do_floppy_timer f) (timer_slots-Filled p 4 0 f h)

  up_to_speed :
      (n : ℕ) (f : Floppy)
      → Filled p f.kernel
      → drive nr f ≡ starting (suc n) stops p
      → (drive nr (floppy_ticks (suc n) f)
          ≡ record { on = true; starts_in = 0; stops_in = stops; queue = none })
        × Runs p (floppy_ticks (suc n) f).kernel
  up_to_speed n f filled d =
      let sum : suc n ≡ n + 1 = omega arith in
      let last = still_starting n 0 f (d ∙ ap (λ (m : ℕ). starting m stops p) sum) in
      let g = floppy_ticks n f in
      rw (ticks_more n f) (
        do_floppy_timer-drive nr g low ∙ ap drive_tick last,
        slots_wake 4 0 nr p stops g (omega arith) (omega arith) (ticks-Filled n f filled) last,
      )

timer_slot_low :
    (i : ℕ) (f : Floppy)
    → ((timer_slot i f).current_dor.low ≡ f.current_dor.low)
      × ((timer_slot i f).selected ≡ f.selected)
unfolding timer_slot
timer_slot_low i f = elim (Bool-cases (f.current_dor.motor i)) [
  | inr off ↦ rw off (refl, refl)
  | inl on ↦ elim (Bool-cases (f.mon_timer i == 0)) [
    | inl started ↦ elim (Bool-cases (f.moff_timer i == 0)) [
      | inl over ↦ rw (on, started, over) (refl, refl)
      | inr runs ↦ rw (on, started, runs) (refl, refl)
    ]
    | inr starts ↦ elim (Bool-cases (f.mon_timer i - 1 == 0)) [
      | inl now ↦ rw (on, starts, now) (refl, refl)
      | inr later ↦ rw (on, starts, later) (refl, refl)
    ]
  ]
]

timer_slots_low :
    (n i : ℕ) (f : Floppy)
    → ((timer_slots n i f).current_dor.low ≡ f.current_dor.low)
      × ((timer_slots n i f).selected ≡ f.selected)
unfolding timer_slots
timer_slots_low zero i f = (refl, refl)
timer_slots_low (suc n) i f =
    let rest = timer_slots_low n (i + 1) (timer_slot i f) in
    let one = timer_slot_low i f in (rest.0 ∙ one.0, rest.1 ∙ one.1)

ticks_low :
    (n : ℕ) (f : Floppy)
    → ((floppy_ticks n f).current_dor.low ≡ f.current_dor.low)
      × ((floppy_ticks n f).selected ≡ f.selected)
unfolding floppy_ticks
ticks_low zero f = (refl, refl)
ticks_low (suc n) f =
    let rest = ticks_low n (do_floppy_timer f) in
    let one = timer_slots_low 4 0 f in (rest.0 ∙ one.0, rest.1 ∙ one.1)

-- The state in which floppy_on sleeps, for a motor that was off.
abbrev pub asleep : ℕ → Floppy → Floppy
asleep nr f = record f {
  moff_timer = update f.moff_timer nr 10000;
  mon_timer = update f.mon_timer nr (hz / 2);
  current_dor = mask_for nr f.selected f.current_dor;
  sent = mask_for nr f.selected f.current_dor ∷ f.sent;
  wait_motor = update f.wait_motor nr (some f.kernel.current);
  kernel = fprintk b'W' f.kernel.current (set_state task_uninterruptible f.kernel.current f.kernel);
}

floppy_on-asleep :
    (nr : ℕ) (f : Floppy)
    → nr ≤ 3
    → f.current_dor.motor nr ≡ false
    → floppy_on nr f ≡ some (sleeps (f.wait_motor nr) (asleep nr f))
unfolding floppy_on ticks_to_floppy_on sleep_on
floppy_on-asleep nr f low off = rw (le→ltb_false 3 nr low, off) refl

floppy_on_again :
    (nr : ℕ) (f : Floppy)
    → nr ≤ 3
    → f.current_dor.motor nr ≡ true
    → f.mon_timer nr ≡ 0
    → (mask_for nr f.selected f.current_dor).low ≡ f.current_dor.low
    → floppy_on nr f ≡ some (spinning (record f { moff_timer = update f.moff_timer nr 10000 }))
unfolding floppy_on ticks_to_floppy_on
floppy_on_again nr f low on timer same =
    rw (le→ltb_false 3 nr low, on, (==_iff _ f.current_dor.low).1 same, timer) refl

-- `p` sleeps for 50 ticks, and then it can run and floppy_on is done.
pub record Spun (nr p : ℕ) (f g : Floppy) : Type 0 where
  pub sleeps_first : floppy_on nr f ≡ some (sleeps (f.wait_motor nr) g)
  pub waits : (n : ℕ) → n < 50 → drive nr (floppy_ticks n g) ≡ starting (50 - n) 10000 p
  pub queue : (floppy_ticks 50 g).wait_motor nr ≡ none
  pub runs : Runs p (floppy_ticks 50 g).kernel
  pub ends : (h : Floppy) × (floppy_on nr (floppy_ticks 50 g) ≡ some (spinning h))

low_again :
    (nr low : ℕ) (selected : Bool)
    → nr ≤ 3
    → (if selected
        then (if selected then low else low / 4 * 4 + nr)
        else (if selected then low else low / 4 * 4 + nr) / 4 * 4 + nr)
      ≡ (if selected then low else low / 4 * 4 + nr)
low_again nr low true h = refl
low_again nr low false h = omega arith

-- floppy_on for a drive from 0 to 3 whose motor is off: it starts the motor and sleeps. With no
-- other call in between, the task is alone in the queue for the next 49 ticks; the 50th tick makes
-- it runnable and empties the queue, and then floppy_on finds the motor up to speed and ends.
pub floppy_on-Spun :
    (nr : ℕ) (f : Floppy)
    → nr ≤ 3
    → f.current_dor.motor nr ≡ false
    → Filled f.kernel.current f.kernel
    → Spun nr f.kernel.current f (asleep nr f)
floppy_on-Spun nr f low off filled =
    let p = f.kernel.current in
    let g = asleep nr f in
    let kept = wake_filled p f.kernel filled in
    let first : drive nr g ≡ starting 50 10000 p = rw (==_refl nr) refl in
    let after = up_to_speed nr p 10000 low 49 g kept first in
    let dor = ticks_low 50 g in
    record {
      sleeps_first = floppy_on-asleep nr f low off;
      waits = λ n h.
          let sum : 50 ≡ n + suc (49 - n) = omega arith in
          let left : suc (49 - n) ≡ 50 - n = omega arith in
          still_starting nr p 10000 low n (49 - n) g
            (first ∙ ap (λ (m : ℕ). starting m 10000 p) sum)
          ∙ ap (λ (m : ℕ). starting m 10000 p) left;
      queue = ap (λ (d : Drive). d.queue) after.0;
      runs = after.1;
      ends = (
        _,
        floppy_on_again nr (floppy_ticks 50 g) low (ap (λ (d : Drive). d.on) after.0)
            (ap (λ (d : Drive). d.starts_in) after.0)
            (rw (dor.0, dor.1) (low_again nr f.current_dor.low f.selected low)),
      );
    }
  where
    wake_filled :
        (p : ℕ) (k : Kernel)
        → Filled p k
        → Filled p (fprintk b'W' p (set_state task_uninterruptible p k))
    wake_filled p k (t, h) = (record t { state = task_uninterruptible }, rw (==_refl p, h) refl)

module _ (nr : ℕ) (queue : Option ℕ) (low : nr ≤ 3) where
  still_running :
      (n left : ℕ) (f : Floppy)
      → drive nr f ≡ record { on = true; starts_in = 0; stops_in = n + left; queue = queue }
      → drive nr (floppy_ticks n f)
        ≡ record { on = true; starts_in = 0; stops_in = left; queue = queue }
  unfolding floppy_ticks
  still_running zero left f d =
      let sum : 0 + left ≡ left = omega arith in
      d ∙ ap (λ (m : ℕ). record { on = true; starts_in = 0; stops_in = m; queue = queue }) sum
  still_running (suc n) left f d =
      let sum : suc n + left - 1 ≡ n + left = omega arith in
      let more : (suc n + left == 0) ≡ false = ne→==_false (suc n + left) 0 (omega arith) in
      still_running n left (do_floppy_timer f)
        (do_floppy_timer-drive nr f low ∙ (ap drive_tick d ∙ rw (more, sum) refl))

-- floppy_off for a motor that is up to speed: with no other call in between, it is on for the next
-- 300 ticks and off after the 301st.
pub floppy_off-stops :
    (nr n : ℕ) (f : Floppy)
    → nr ≤ 3
    → f.current_dor.motor nr ≡ true
    → f.mon_timer nr ≡ 0
    → n ≤ 301
    → (floppy_ticks n (floppy_off nr f)).current_dor.motor nr ≡ leb n 300
floppy_off-stops nr n f low on timer h =
    let g = floppy_off nr f in
    let start : drive nr g
        ≡ record { on = true; starts_in = 0; stops_in = 300; queue = f.wait_motor nr } =
      rw (on, timer, ==_refl nr) refl in
    let ran = λ (m : ℕ) (left : ℕ) (e : 300 ≡ m + left).
      still_running nr (f.wait_motor nr) low m left g (
        start
        ∙ ap (λ (s : ℕ). record { on = true; starts_in = 0; stops_in = s; queue = f.wait_motor nr })
            e) in
    elim (dec_lt 300 n) [
      | no within ↦
          rw (le→leb n 300 (omega arith)) (ap (λ (d : Drive). d.on) (ran n (300 - n) (omega arith)))
      | yes past ↦
          let last : n ≡ suc 300 = omega arith in
          let stopped = ap drive_tick (ran 300 0 (omega arith)) in
          rw (last, ticks_more 300 g)
            (ap (λ (d : Drive). d.on) (do_floppy_timer-drive nr (floppy_ticks 300 g) low ∙ stopped))
    ]
