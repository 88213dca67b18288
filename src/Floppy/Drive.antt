-- ===== src/Floppy/Drive.antt =====
-- One drive under the timer: kernel/sched.c (Lab 3).
use hack_linux.Base.{
  ◌==◌, if◌then◌else◌, ne→==_false, ==_refl, Bool-cases, ℕ, zero, suc, ◌+◌, ◌-◌, ◌≤◌, ◌<◌, ◌≡◌,
  refl, sym, ap, ◌∙◌, subst, ◌≢◌, ◌⊎◌, inl, inr, Bool, false, not, Option, none, some, arith,
  ℕ_discrete,
}
use hack_linux.Sched.{Kernel}
use hack_linux.Sleep.{wake_up}
use hack_linux.Floppy.{Floppy, timer_slot, timer_slots, do_floppy_timer}

pub record Drive : Type 0 where
  pub on : Bool
  pub starts_in : ℕ
  pub stops_in : ℕ
  pub queue : Option ℕ

abbrev pub drive : ℕ → Floppy → Drive
drive i f = record {
  on = f.current_dor.motor i;
  starts_in = f.mon_timer i;
  stops_in = f.moff_timer i;
  queue = f.wait_motor i;
}

-- A tick of a drive by itself: a motor that starts counts down and lets its queue go at 0; one that
-- runs counts down to its stop.
abbrev pub drive_tick : Drive → Drive
drive_tick d =
    if not d.on
    then d
    else if d.starts_in == 0
    then if d.stops_in == 0 then record d { on = false } else record d { stops_in = d.stops_in - 1 }
    else record d {
      starts_in = d.starts_in - 1;
      queue = if d.starts_in - 1 == 0 then none else d.queue;
    }

wake_up_empty : (q : Option ℕ) (k : Kernel) → (wake_up q k).0 ≡ none
unfolding wake_up
wake_up_empty none k = refl
wake_up_empty (some i) k = refl

timer_slot_self : (i : ℕ) (f : Floppy) → drive i (timer_slot i f) ≡ drive_tick (drive i f)
unfolding timer_slot
timer_slot_self i f =
    let empty = wake_up_empty (f.wait_motor i) f.kernel in
    elim (Bool-cases (f.current_dor.motor i)) [
      | inr off ↦ rw off (rw off refl)
      | inl on ↦ elim (Bool-cases (f.mon_timer i == 0)) [
        | inl started ↦ elim (Bool-cases (f.moff_timer i == 0)) [
          | inl over ↦ rw (on, started, over, ==_refl i) refl
          | inr runs ↦ rw (on, started, runs, ==_refl i) (rw on refl)
        ]
        | inr starts ↦ elim (Bool-cases (f.mon_timer i - 1 == 0)) [
          | inl now ↦ rw (on, starts, now, ==_refl i, empty) (rw on refl)
          | inr later ↦ rw (on, starts, later, ==_refl i) (rw on refl)
        ]
      ]
    ]

pub timer_slot_other : (i j : ℕ) (f : Floppy) → j ≢ i → drive j (timer_slot i f) ≡ drive j f
unfolding timer_slot
timer_slot_other i j f ne =
    let apart = ne→==_false j i ne in
    elim (Bool-cases (f.current_dor.motor i)) [
      | inr off ↦ rw off refl
      | inl on ↦ elim (Bool-cases (f.mon_timer i == 0)) [
        | inl started ↦ elim (Bool-cases (f.moff_timer i == 0)) [
          | inl over ↦ rw (on, started, over, apart) refl
          | inr runs ↦ rw (on, started, runs, apart) refl
        ]
        | inr starts ↦ elim (Bool-cases (f.mon_timer i - 1 == 0)) [
          | inl now ↦ rw (on, starts, now, apart) refl
          | inr later ↦ rw (on, starts, later, apart) refl
        ]
      ]
    ]

timer_slots_outside :
    (n i j : ℕ) (f : Floppy) → (j < i) ⊎ (i + n ≤ j) → drive j (timer_slots n i f) ≡ drive j f
unfolding timer_slots
timer_slots_outside zero i j f h = refl
timer_slots_outside (suc n) i j f h =
    timer_slots_outside n (i + 1) j (timer_slot i f) (further h) ∙ timer_slot_other i j f (apart h)
  where
    further : (j < i) ⊎ (i + suc n ≤ j) → (j < i + 1) ⊎ (i + 1 + n ≤ j)
    further (inl p) = inl (omega arith)
    further (inr p) = inr (omega arith)

    apart : (j < i) ⊎ (i + suc n ≤ j) → j ≢ i
    apart (inl p) = omega arith
    apart (inr p) = omega arith

timer_slots_inside :
    (n i j : ℕ) (f : Floppy)
    → i ≤ j
    → j < i + n
    → drive j (timer_slots n i f) ≡ drive_tick (drive j f)
unfolding timer_slots
timer_slots_inside zero i j f low high = absurd (omega arith)
timer_slots_inside (suc n) i j f low high = elim (ℕ_discrete j i) [
  | yes here ↦
      timer_slots_outside n (i + 1) j (timer_slot i f) (inl (omega arith))
      ∙ subst (λ (k : ℕ). drive k (timer_slot i f) ≡ drive_tick (drive k f)) (sym here)
          (timer_slot_self i f)
  | no later ↦
      timer_slots_inside n (i + 1) j (timer_slot i f) (omega arith) (omega arith)
      ∙ ap drive_tick (timer_slot_other i j f later)
]

-- do_floppy_timer does to each of the four drives what its own tick does, whatever the others do.
pub do_floppy_timer-drive :
    (i : ℕ) (f : Floppy) → i ≤ 3 → drive i (do_floppy_timer f) ≡ drive_tick (drive i f)
do_floppy_timer-drive i f h = timer_slots_inside 4 0 i f (omega arith) (omega arith)
