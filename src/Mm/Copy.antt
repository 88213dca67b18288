-- ===== src/Mm/Copy.antt =====
-- copy_page_tables and free_page_tables of mm/memory.c (Lab 6), which fork and exit call.
pub mod Entries
pub mod Release
pub mod RoundTrip
use hack_linux.Base.{
  ltb, ◌==◌, if◌then◌else◌, ℕ, zero, suc, ◌+◌, ◌-◌, ◌/◌, ◌%◌, ◌^◌, Bool, not, ◌||◌, leb, ltb→lt,
  ltb_false→le, lt→ltb, le→ltb_false, leb→le, le→leb, lt→leb_false, ==_iff, ne→==_false,
  ==_false→ne, ==_refl, tests, Bool-cases, Option-cases, update, length, get_elem?, set,
  length-append, length-set, get_elem?-set_self, get_elem?-set_ne, get_or, take, drop, replicate,
  take-append-drop, length-take, length-drop, length-replicate, length-map, ◌*◌, ◌≤◌, ◌<◌, ◌≡◌,
  refl, sym, ap, ◌∙◌, subst, ◌≢◌, ◌↔◌, ◌⊎◌, inl, inr, true, false, ◌&&◌, Option, none, some, List,
  [], ◌∷◌, ◌++◌, map, ap₂, fun_ext, add-zero, arith, ℕ_discrete, dec_lt,
}
use hack_linux.Base.Int.{
  ℤ, pos, negsuc, pos_part, neg_part, sub_ℕ, ◌+ℤ◌, ◌-ℤ◌, ◌*ℤ◌, ◌≤ℤ◌, ltb_ℤ, +ℤ_parts, -ℤ_parts,
  eq_of_parts, int_laws,
}
use hack_linux.Mm.{
  low_mem, free_alignment, free_swapper, copy_alignment, copy_exists, M, pure, ◌>>=◌, ◌>>◌,
  stop_panic, load, store, present, frame, or_seven, clear_rw, dir_entry, paging_pages, used,
  page_size, max_shared_pages_num, SharedPage, Message, out_of_memory, trying_to_put,
  mem_map_disagrees, shmget_size, shmget_key, shmget_no_page, shmat_refused, shmat_no_put, Mm,
  Panic, nonexistent_page, free_page_twice, share_exists, Outcome, ok, panic, killed, wild,
  and_then, printk, oom, map_get, map_set, set_rw, table_offset, map_nr, zero_page, copy_words,
}
use hack_linux.Mm.Frames.{
  get_free_page, free_page, scan, page_addr, live, find_shared, drop_count,
  release_shared_page_if_exists, map_dec, fill, mem_init,
}
use hack_linux.Mm.Tables.{
  map_inc, when, put_checks, put_entry, put_page, sole_owner, copy_page, un_wp_page, do_wp_page,
  read_only, write_verify, give_up, get_empty_page, clean, target_table, share_entry, try_to_share,
}

-- The body of the loop over a table, at one entry.
abbrev pub copy_entry : ℕ → ℕ → ℕ → M (Unit {0})
copy_entry this_page from to = if not (present this_page) then pure tt else do
  store to (clear_rw this_page)
  if not (ltb low_mem (clear_rw this_page))
      then pure tt
      else do store from (clear_rw this_page); map_inc ((clear_rw this_page - low_mem) / 2 ^ 12)

-- `n` rounds of the loop over a table.
unfoldable pub copy_entries : ℕ → ℕ → ℕ → M (Unit {0})
copy_entries zero from to = pure tt
copy_entries (suc n) from to = do
  this_page ← load from
  copy_entry this_page from to
  copy_entries n (from + 4) (to + 4)

-- `nr = (from==0)?0xA0:1024`
abbrev pub copied_entries : ℕ → ℕ
copied_entries from = if from == 0 then 0xA0 else 1024

-- `size` rounds of the loop over the directory; the result is the C function's.
unfoldable pub copy_dirs : ℕ → ℕ → ℕ → ℕ → M ℤ
copy_dirs zero from from_dir to_dir = pure (pos 0)
copy_dirs (suc size) from from_dir to_dir = do
  there ← load to_dir
  if present there then stop_panic copy_exists else do
    dir ← load from_dir
    if not (present dir) then copy_dirs size from (from_dir + 4) (to_dir + 4) else do
      to_page_table ← get_free_page
      if to_page_table == 0 then pure (negsuc 0) else do
        store to_dir (or_seven to_page_table)
        copy_entries (copied_entries from) (frame dir) to_page_table
        copy_dirs size from (from_dir + 4) (to_dir + 4)

-- `((unsigned) (size + 0x3fffff)) >> 22`
abbrev pub dir_count : ℕ → ℕ
dir_count size = (size + 0x3fffff) % 2 ^ 32 / 2 ^ 22

-- `from & 0x3fffff`
abbrev pub unaligned : ℕ → Bool
unaligned from = not (from % 2 ^ 22 == 0)

unfoldable pub copy_page_tables : ℕ → ℕ → ℕ → M ℤ
copy_page_tables from to size =
    if unaligned from || unaligned to
    then stop_panic copy_alignment
    else copy_dirs (dir_count size) from (dir_entry from) (dir_entry to)

-- The body of the loop over a table, at the entry `e` of address `a`.
abbrev pub clear_slot : ℕ → ℕ → M (Unit {0})
clear_slot e a = do if present e then free_page (frame e) else pure tt; store a 0

-- `n` rounds of the loop over a table.
unfoldable pub free_entries : ℕ → ℕ → M (Unit {0})
free_entries zero pg_table = pure tt
free_entries (suc n) pg_table = do
  e ← load pg_table
  clear_slot e pg_table
  free_entries n (pg_table + 4)

-- `size` rounds of the loop over the directory.
unfoldable pub free_dirs : ℕ → ℕ → M (Unit {0})
free_dirs zero dir = pure tt
free_dirs (suc size) dir = do
  e ← load dir
  if not (present e) then free_dirs size (dir + 4) else do
    free_entries 1024 (frame e)
    e' ← load dir
    free_page (frame e')
    store dir 0
    free_dirs size (dir + 4)

unfoldable pub free_page_tables : ℕ → ℕ → M ℤ
free_page_tables from size =
    if unaligned from
    then stop_panic free_alignment
    else if from == 0
    then stop_panic free_swapper
    else do free_dirs (dir_count size) (dir_entry from); pure (pos 0)
