-- ===== src/Mm/Tests.antt =====
-- The memory manager on a small machine: a page table in page 0, a data page in page 1 that two
-- processes have read-only and slot 5 shares with two users, and two free pages.
use hack_linux.Base.{
  ltb, leb, ◌==◌, if◌then◌else◌, Bool-cases, update, ℕ, ◌+◌, ◌*◌, ◌≤◌, ◌<◌, ◌≡◌, refl, ◌⊎◌, inl,
  inr, ◌&&◌, List, [], ◌∷◌, arith, le→ltb_false, leb→le, some, none,
}
use hack_linux.Mm.{SharedPage, Mm, ok, zero_page}
use hack_linux.Mm.Frames.{scan, get_free_page, find_shared, free_page}
use hack_linux.Mm.Frames.Alloc.{Taken, NoPage, get_free_page-total}
use hack_linux.Mm.Frames.Release.{attached, refs}
use hack_linux.Mm.Frames.Valid.{Held, idle, holds, Valid, Freed, free_page-Freed}
use hack_linux.Mm.Frames.Init.{Initial, mem_init-Initial}
use hack_linux.Mm.Tables.{put_page, un_wp_page}
use hack_linux.Mm.Tables.Put.{Sound, Put, put_page-Put}
use hack_linux.Mm.Tables.CopyOnWrite.{Protected, UnWp, un_wp_page-UnWp}
use hack_linux.Mm.Copy.Entries.{count_refs, Covered, CopiedTable, copy_entries-CopiedTable}
use hack_linux.Mm.Copy.Release.{FreedTable, free_entries-FreedTable}
use hack_linux.Mm.Copy.RoundTrip.{RoundTrip, copy-free}
use hack_linux.Mm.Demand.{Program, do_no_page}
use hack_linux.Mm.Demand.Page.{ReadsPage, Demanded, do_no_page-Demanded}
use hack_linux.Mm.Shm.{sys_shmget, sys_shmat}
use hack_linux.Mm.Shm.Get.{Shmget, sys_shmget-Shmget}
use hack_linux.Mm.Shm.Attach.{Shmat, sys_shmat-Shmat}

abbrev bytes : ℕ → ℕ
bytes i = if i == 0 then 1 else if i == 1 then 2 else if ltb i 4 then 0 else 100

-- The directory entry of 64 MB names the table at 0x100000, whose first entry names 0x101000.
abbrev memory : ℕ → ℕ
memory a = if a == 64 then 0x100007 else if a == 0x100000 then 0x101005 else 0

abbrev slots : ℕ → SharedPage
slots k =
    if k == 5
    then record { count = 2; physical_address = 0x101000 }
    else record { count = 0; physical_address = 0 }

abbrev machine : Mm
machine = record {
  mem_map = bytes;
  word = memory;
  high_memory = 0x104000;
  shared_pages = slots;
  brk = 0x5000;
  ldt_base = 0x4000000;
  log = [];
}

slot-Held : (k : ℕ) → Held machine k
slot-Held k = elim (Bool-cases (k == 5)) [
  | inl five ↦ holds 1 (omega arith) (rw five) (omega arith)
  | inr other ↦ idle (rw other)
]

machine-Valid : Valid machine
machine-Valid = record {
  high = omega arith;
  byte = λ j. ground arith;
  unique = λ a i j p q h h'. ground arith;
  above = λ j p q. ground arith;
  held = λ k p. slot-Held k;
}

machine-Sound : Sound machine
machine-Sound = record {
  valid = machine-Valid;
  tables = record { off_dir = λ a h. ground arith; distinct = λ a b h k e. ground arith };
  marked = λ b i h e. ground arith;
}

allocates :
    get_free_page machine
    ≡ ok 0x103000 (record machine { mem_map = update bytes 3 1; word = zero_page memory 0x103000 })
unfolding get_free_page scan
allocates = refl

get_free_page-total_example :
    (a : ℕ) × (t : Mm) × (get_free_page machine ≡ ok a t) × (Taken machine a t ⊎ NoPage machine a t)
get_free_page-total_example = get_free_page-total machine

free_page-Freed_example : Freed machine 0x101000 (free_page 0x101000 machine)
free_page-Freed_example = free_page-Freed machine 0x101000 machine-Valid

-- Before mem_init no slot is in use.
abbrev booting : Mm
booting = record machine { shared_pages = λ k. record { count = 0; physical_address = 0 } }

mem_init-Initial_example : (t : Mm) × Initial booting 0x200000 0x1000000 t
mem_init-Initial_example =
    mem_init-Initial booting 0x200000 0x1000000 (omega arith) (omega arith) (omega arith)
      (λ j. ground arith) (λ k. refl)

put_page-Put_example : Put machine 0x103000 0x8000000 (put_page 0x103000 0x8000000 machine)
put_page-Put_example = put_page-Put machine 0x103000 0x8000000 machine-Sound (omega arith)

first-Protected : Protected machine 0x100000
first-Protected = record {
  table_used = λ i e. ground arith;
  page_used = λ i e. ground arith;
  in_memory = omega arith;
  apart = omega arith;
}

un_wp_page-UnWp_example : UnWp machine 0x100000 (un_wp_page 0x100000 machine)
un_wp_page-UnWp_example = un_wp_page-UnWp machine 0x100000 machine-Valid first-Protected

copied_first : (i : ℕ) → i < 2 → Covered (memory (0x100000 + 4 * i))
copied_first i p = ground arith

copy_entries-CopiedTable_example : (t : Mm) × CopiedTable machine 2 0x100000 0x102000 t
copy_entries-CopiedTable_example =
    copy_entries-CopiedTable machine 2 0x100000 0x102000 (inl (omega arith)) copied_first
      (λ j. ground arith)

one_reference : (j : ℕ) → count_refs memory 2 0x100000 j ≤ refs machine j
unfolding count_refs attached find_shared
one_reference j = ground arith

free_entries-FreedTable_example : (t : Mm) × FreedTable machine 2 0x100000 t
free_entries-FreedTable_example =
    free_entries-FreedTable machine 2 0x100000 machine-Valid (λ i p. ground arith) one_reference

room_for_copy : (j : ℕ) → bytes j + count_refs memory 2 0x100000 j < 256
unfolding count_refs
room_for_copy j = ground arith

copy-free_example : (u : Mm) × RoundTrip machine 2 0x100000 0x102000 u
copy-free_example =
    copy-free machine 2 0x100000 0x102000 machine-Valid (inl (omega arith)) (λ i p. ground arith)
      (λ i p. ground arith) room_for_copy

sys_shmget-Shmget_example : Shmget machine 5 4096 (sys_shmget 5 4096 machine)
sys_shmget-Shmget_example = sys_shmget-Shmget machine 5 4096 machine-Valid (omega arith)

sys_shmat-Shmat_example : Shmat machine 5 (sys_shmat 5 machine)
sys_shmat-Shmat_example = sys_shmat-Shmat machine 5 machine-Sound

-- A file whose blocks are numbered from 9, and a disk with the number of the block in every word.
abbrev disk : ℕ → ℕ → List ℕ → (ℕ → ℕ) → ℕ → ℕ
disk page inode [] word = word
disk page inode (block ∷ rest) word =
    λ a. if leb page a && ltb a (page + 4096) then block else word a

disk-ReadsPage : ReadsPage (λ inode block. block + 8) disk
disk-ReadsPage page inode [] word b at out = refl
disk-ReadsPage page inode (block ∷ rest) word b at out = elim (Bool-cases (leb page b)) [
  | inl low ↦ rw (low, le→ltb_false b (page + 4096) (omega (arith, leb→le _ _ low)))
  | inr before ↦ rw before
]

-- A task whose file ends in the page after 5000 bytes of data, with no other task.
abbrev program : Program
program = record { executable = some 3; start_code = 0x4000000; end_data = 5000 }

do_no_page-Demanded_example :
    Demanded
      (λ inode block. block + 8)
      disk
      1
      program
      (λ i. none)
      (λ i. 1)
      0x4001234
      machine
      (do_no_page (λ inode block. block + 8) disk 1 program (λ i. none) (λ i. 1) 0x4001234 machine)
do_no_page-Demanded_example =
    do_no_page-Demanded (λ inode block. block + 8) disk disk-ReadsPage 1 program (λ i. none)
      (λ i. 1) 0x4001234 machine machine-Sound
