-- ===== src/Floppy.antt =====
-- The motor timers of the floppy drives: ticks_to_floppy_on, floppy_on, floppy_off and
-- do_floppy_timer of kernel/sched.c (Lab 3).
pub mod Drive
pub mod Wakes
pub mod Spin
mod Tests
use hack_linux.Base.{
  ltb, ◌==◌, if◌then◌else◌, update, ℕ, zero, suc, ◌+◌, ◌-◌, ◌*◌, ◌/◌, Bool, not, Option, none, some,
  List, ◌∷◌, true, false, ◌||◌,
}
use hack_linux.Sched.{hz, Kernel, map_option}
use hack_linux.Sleep.{wake_up, sleep_on}

-- A byte for FD_DOR: bit 4 + i is the motor of drive i, and `low` is the other four bits.
pub record Dor : Type 0 where
  pub motor : ℕ → Bool
  pub low : ℕ

-- `mon_timer`, `moff_timer`, `current_DOR`, `wait_motor`, what was sent to FD_DOR, the newest first,
-- and `selected` of the driver.
pub record Floppy : Type 0 where
  pub mon_timer : ℕ → ℕ
  pub moff_timer : ℕ → ℕ
  pub current_dor : Dor
  pub wait_motor : ℕ → Option ℕ
  pub selected : Bool
  pub sent : List Dor
  pub kernel : Kernel

-- `mask` before the comparison: the motor is added, and a drive that is not selected by the driver
-- is selected.
abbrev pub mask_for : ℕ → Bool → Dor → Dor
mask_for nr selected dor = record dor {
  motor = update dor.motor nr true;
  low = if selected then dor.low else dor.low / 4 * 4 + nr;
}

-- `mask != current_DOR`, where only the bit of the motor and the low bits can differ.
abbrev pub differs : ℕ → Dor → Dor → Bool
differs nr mask dor = not (dor.motor nr) || not (mask.low == dor.low)

-- `mon_timer[nr]` when the byte changes; `was_on` is `!((mask ^ current_DOR) & 0xf0)`.
abbrev pub spin_up : Bool → ℕ → ℕ
spin_up was_on timer = if not was_on then hz / 2 else if ltb timer 2 then 2 else timer

-- ticks_to_floppy_on: the result and the state; none is the panic "floppy_on: nr>3".
unfoldable pub ticks_to_floppy_on : ℕ → Floppy → Option (ℕ × Floppy)
ticks_to_floppy_on nr f =
    let kept = record f { moff_timer = update f.moff_timer nr 10000 } in
    let mask = mask_for nr f.selected f.current_dor in
    let ticks = spin_up (f.current_dor.motor nr) (f.mon_timer nr) in
    let changed = record kept {
      mon_timer = update f.mon_timer nr ticks;
      current_dor = mask;
      sent = mask ∷ f.sent;
    } in
    if ltb 3 nr
    then none
    else if differs nr mask f.current_dor
    then some (ticks, changed)
    else some (f.mon_timer nr, kept)

-- A round of floppy_on ends, or sleeps with the `tmp` of sleep_on until this task runs again.
pub data FloppyOn : Type 0 where
  spinning : Floppy → FloppyOn
  sleeps : Option ℕ → Floppy → FloppyOn

abbrev pub wait_for_motor : ℕ → ℕ × Floppy → FloppyOn
wait_for_motor nr (ticks, f) =
    if ticks == 0
    then spinning f
    else let (tmp, (queue, kernel)) = sleep_on (f.wait_motor nr) f.kernel in
      sleeps tmp (record f { wait_motor = update f.wait_motor nr queue; kernel = kernel })

-- One round of floppy_on; none is the panic of ticks_to_floppy_on.
unfoldable pub floppy_on : ℕ → Floppy → Option FloppyOn
unfolding ticks_to_floppy_on sleep_on
floppy_on nr f = map_option (wait_for_motor nr) (ticks_to_floppy_on nr f)

abbrev pub floppy_off : ℕ → Floppy → Floppy
floppy_off nr f = record f { moff_timer = update f.moff_timer nr (3 * hz) }

-- `if (!--mon_timer[i]) wake_up(i+wait_motor);`
abbrev pub count_on : ℕ → Floppy → Floppy
count_on i f =
    let left = record f { mon_timer = update f.mon_timer i (f.mon_timer i - 1) } in
    let (queue, kernel) = wake_up (f.wait_motor i) f.kernel in
    if f.mon_timer i - 1 == 0
    then record left { wait_motor = update f.wait_motor i queue; kernel = kernel }
    else left

-- The time before the motor is turned off, and the turn.
abbrev pub count_off : ℕ → Floppy → Floppy
count_off i f =
    let dor = record f.current_dor { motor = update f.current_dor.motor i false } in
    if f.moff_timer i == 0
    then record f { current_dor = dor; sent = dor ∷ f.sent }
    else record f { moff_timer = update f.moff_timer i (f.moff_timer i - 1) }

-- One round of the loop of do_floppy_timer.
unfoldable pub timer_slot : ℕ → Floppy → Floppy
unfolding wake_up
timer_slot i f =
    if not (f.current_dor.motor i)
    then f
    else if f.mon_timer i == 0
    then count_off i f
    else count_on i f

-- The loop, for n rounds from drive i on.
unfoldable pub timer_slots : ℕ → ℕ → Floppy → Floppy
unfolding timer_slot
timer_slots zero i f = f
timer_slots (suc n) i f = timer_slots n (i + 1) (timer_slot i f)

abbrev pub do_floppy_timer : Floppy → Floppy
do_floppy_timer f = timer_slots 4 0 f
