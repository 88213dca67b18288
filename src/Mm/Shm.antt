-- ===== src/Mm/Shm.antt =====
-- Shared memory, mm/shm.c (Lab 6): sys_shmget and sys_shmat. The errors are the numbers of
-- include/errno.h: EINVAL 22, ENOMEM 12.
pub mod Attach
pub mod Get
use hack_linux.Base.{ltb, leb, ◌==◌, if◌then◌else◌, update, ℕ, ◌+◌, ◌%◌, ◌^◌, Bool, not, ◌&&◌, ◌||◌}
use hack_linux.Base.Int.{ℤ, pos, negsuc}
use hack_linux.Mm.{
  page_size, max_shared_pages_num, SharedPage, shmget_size, shmget_key, shmget_no_page,
  shmat_refused, shmat_no_put, ok, M, pure, ◌>>=◌, ◌>>◌, printk,
}
use hack_linux.Mm.Frames.{get_free_page}
use hack_linux.Mm.Tables.{put_page}

-- `-EINVAL` and `-ENOMEM`
abbrev pub einval : ℤ
einval = negsuc 21

abbrev pub enomem : ℤ
enomem = negsuc 11

abbrev pub set_slot : ℕ → SharedPage → M (Unit {0})
set_slot key p s = ok tt (record s { shared_pages = update s.shared_pages key p })

-- `physicalAddress && count`
abbrev pub in_use : SharedPage → Bool
in_use p = not (p.physical_address == 0) && not (p.count == 0)

-- `count++` on an unsigned int
abbrev pub one_more : SharedPage → SharedPage
one_more p = record p { count = (p.count + 1) % 2 ^ 32 }

unfoldable pub sys_shmget : ℕ → ℕ → M ℤ
sys_shmget key size s =
    if ltb page_size size
    then (do printk shmget_size; pure einval) s
    else if leb max_shared_pages_num key
    then (do printk shmget_key; pure enomem) s
    else if in_use (s.shared_pages key)
    then (do set_slot key (one_more (s.shared_pages key)); pure (pos key)) s
    else (do
      page ← get_free_page
      if page == 0 then (do printk shmget_no_page; pure enomem) else do
        set_slot key (one_more (record (s.shared_pages key) { physical_address = page }))
        pure (pos key))
        s

-- `shmid` as an unsigned int; the result is the address before `brk` grew.
unfoldable pub sys_shmat : ℕ → M ℤ
sys_shmat key s =
    let slot = s.shared_pages key in
    if leb max_shared_pages_num key || slot.count == 0 || slot.physical_address == 0
    then (do printk (shmat_refused key); pure einval) s
    else (do
      put ← put_page slot.physical_address ((s.ldt_base + s.brk) % 2 ^ 32)
      if put == 0
          then (do printk shmat_no_put; pure einval)
          else do (λ t. ok tt (record t { brk = (t.brk + page_size) % 2 ^ 32 })); pure (pos s.brk))
        s
