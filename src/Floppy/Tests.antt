-- ===== src/Floppy/Tests.antt =====
-- Drive 1 for a worker of the small task table.
use hack_linux.Base.{◌==◌, ◌≡◌, refl, false, none, [], arith}
use hack_linux.Sched.Samples.{worker, small_kernel}
use hack_linux.Floppy.{Floppy}
use hack_linux.Floppy.Spin.{asleep, Spun, floppy_on-Spun}

abbrev stopped : Floppy
stopped = record {
  mon_timer = λ i. 0;
  moff_timer = λ i. 0;
  current_dor = record { motor = λ i. i == 3; low = 12 };
  wait_motor = λ i. none;
  selected = false;
  sent = [];
  kernel = small_kernel 9;
}

-- The byte 0x2d starts drive 1 and selects it.
selects : (asleep 1 stopped).current_dor.low ≡ 13
selects = refl

floppy_on-Spun_example : Spun 1 2 stopped (asleep 1 stopped)
floppy_on-Spun_example = floppy_on-Spun 1 stopped (omega arith) refl (worker, refl)
