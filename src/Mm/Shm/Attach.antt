-- ===== src/Mm/Shm/Attach.antt =====
-- sys_shmat: the shared page is mapped at the end of the data segment, which grows by a page.
use hack_linux.Base.{
  leb, ◌==◌, if◌then◌else◌, ne→==_false, Bool-cases, ℕ, ◌+◌, ◌%◌, ◌^◌, ◌≤◌, ◌<◌, ◌≡◌, refl, sym,
  ◌≢◌, ◌⊎◌, inl, inr, Bool, true, false, ◌||◌, ◌∷◌, arith,
}
use hack_linux.Base.Int.{ℤ, pos}
use hack_linux.Mm.{
  paging_pages, page_size, max_shared_pages_num, shmat_refused, shmat_no_put, Mm, Outcome, ok, M,
  pure, and_then, ◌>>◌, printk, present, or_seven, dir_entry, map_nr,
}
use hack_linux.Mm.Frames.Valid.{Held, idle, holds, Valid-congr}
use hack_linux.Mm.Tables.Entry.{entry, same_page, slot}
use hack_linux.Mm.Tables.Put.{Sound, TableFor, OnlyTable, Put, mapped, no_table, put_page-Put}
use hack_linux.Mm.Shm.{einval, sys_shmat}

-- The linear address that sys_shmat maps.
abbrev pub end_of_data : Mm → ℕ
end_of_data s = (s.ldt_base + s.brk) % 2 ^ 32

abbrev pub refuses : Mm → ℕ → Bool
refuses s key =
    leb max_shared_pages_num key
    || (s.shared_pages key).count == 0
    || (s.shared_pages key).physical_address == 0

-- What sys_shmat returns.
pub data Shmat (s : Mm) (key : ℕ) : Outcome ℤ → Type 0 where
  refused :
      (max_shared_pages_num ≤ key)
        ⊎ ((s.shared_pages key).count ≡ 0)
        ⊎ ((s.shared_pages key).physical_address ≡ 0)
      → (t : Mm) → t ≡ record s { log = shmat_refused key ∷ s.log }
      → Shmat s key (ok einval t)
  attached_at :
      key < max_shared_pages_num
      → 0 < (s.shared_pages key).count
      → (t : Mm)
      → ((b : ℕ)
          → entry t.word b ≡ (
              if same_page (end_of_data s) b
              then or_seven (s.shared_pages key).physical_address
              else entry s.word b))
      → t.shared_pages ≡ s.shared_pages
      → TableFor s.word s.mem_map (end_of_data s) t.word t.mem_map
      → OnlyTable s.word (end_of_data s) t.word
      → t.brk ≡ (s.brk + page_size) % 2 ^ 32
      → Sound t
      → Shmat s key (ok (pos s.brk) t)
  out_of_pages :
      key < max_shared_pages_num
      → 0 < (s.shared_pages key).count
      → present (s.word (dir_entry (end_of_data s))) ≡ false
      → ((j : ℕ) → j < paging_pages → s.mem_map j ≢ 0)
      → (t : Mm) → t.word ≡ s.word
      → t.mem_map ≡ s.mem_map
      → t.shared_pages ≡ s.shared_pages
      → Shmat s key (ok einval t)

-- The part of sys_shmat behind its test, by the result of put_page.
after_put : ℕ → ℕ → M ℤ
after_put brk put =
    if put == 0
    then (do printk shmat_no_put; pure einval)
    else do (λ t. ok tt (record t { brk = (t.brk + page_size) % 2 ^ 32 })); pure (pos brk)

module _ (s : Mm) (key : ℕ) (small : key < max_shared_pages_num)
    (busy : 0 < (s.shared_pages key).count) where
  after_put-Shmat :
      {page address : ℕ} {o : Outcome ℕ}
      → page ≡ (s.shared_pages key).physical_address
      → address ≡ end_of_data s
      → page ≢ 0
      → Put s page address o
      → Shmat s key (and_then o (after_put s.brk))
  unfolding after_put
  after_put-Shmat {page} e at ne (mapped t m) = rw (ne→==_false page 0 ne) (
      attached_at small busy _ (rw (sym e, sym at) m.entries) m.slots (rw (sym at) m.table)
        (rw (sym at) m.words) (rw m.brk)
        (record {
          valid = Valid-congr refl refl refl m.sound.valid;
          tables = m.sound.tables;
          marked = m.sound.marked;
        }))
  after_put-Shmat e at ne (no_table t absent full w m f h) =
      out_of_pages small busy (rw (sym at) absent) full _ w m f

-- In a sound state sys_shmat always returns, as `Shmat` lists. A key that names no slot in use
-- gives -EINVAL with nothing changed but the log. Otherwise either the address of the end of the
-- data segment is mapped to the slot's page, the entries of all other pages and all slots stay as
-- they were, `mem_map` stays if the table of the address was there and otherwise the highest free
-- page becomes the table, no word outside the table and its directory entry changes, `brk` grows by
-- a page, its old value is returned and the state is sound; or the table was not there and no page
-- is free for it, and -EINVAL is
-- returned with no word, byte of `mem_map` or slot changed.
pub sys_shmat-Shmat : (s : Mm) (key : ℕ) → Sound s → Shmat s key (sys_shmat key s)
unfolding sys_shmat after_put
sys_shmat-Shmat s key sound = elim (Bool-cases (refuses s key)) [
  | inl no_slot ↦ rw no_slot (refused (reason no_slot) _ refl)
  | inr slot ↦
      let small : key < max_shared_pages_num = ground arith in
      let busy : 0 < (s.shared_pages key).count = ground arith in
      rw slot (
        after_put-Shmat s key small busy refl refl (ground arith) (
          put_page-Put s (s.shared_pages key).physical_address (end_of_data s) sound
            (covered small busy (sound.valid.held key small))))
]
  where
    reason :
        refuses s key ≡ true
        → (max_shared_pages_num ≤ key)
          ⊎ ((s.shared_pages key).count ≡ 0)
          ⊎ ((s.shared_pages key).physical_address ≡ 0)
    reason h = ground arith

    covered :
        key < max_shared_pages_num
        → 0 < (s.shared_pages key).count
        → Held s key
        → map_nr (s.shared_pages key).physical_address < paging_pages
    covered small busy (idle z) = absurd (omega arith)
    covered small busy (holds i p e ne) = omega arith
