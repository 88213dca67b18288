-- ===== src/Mm/Tables.antt =====
-- Page tables of mm/memory.c (Lab 6): put_page, un_wp_page, do_wp_page, write_verify,
-- get_empty_page and try_to_share. `invalidate()` flushes the processor's cache of the tables,
-- which the model does not have.
pub mod CopyOnWrite
pub mod Entry
pub mod Put
use hack_linux.Base.{
  ltb, leb, ◌==◌, if◌then◌else◌, ltb→lt, ltb_false→le, lt→ltb, le→ltb_false, leb→le, le→leb,
  lt→leb_false, ==_iff, ne→==_false, ==_false→ne, ==_refl, tests, Bool-cases, Option-cases, update,
  length, get_elem?, set, length-append, length-set, get_elem?-set_self, get_elem?-set_ne, get_or,
  take, drop, replicate, take-append-drop, length-take, length-drop, length-replicate, length-map,
  ℕ, zero, suc, ◌+◌, ◌-◌, ◌*◌, ◌/◌, ◌%◌, ◌^◌, ◌≤◌, ◌<◌, ◌≡◌, refl, sym, ap, ◌∙◌, subst, ◌≢◌, ◌↔◌,
  ◌⊎◌, inl, inr, Bool, true, false, not, ◌&&◌, ◌||◌, Option, none, some, List, [], ◌∷◌, ◌++◌, map,
  arith, ℕ_discrete, dec_lt,
}
use hack_linux.Mm.{
  low_mem, paging_pages, used, page_size, max_shared_pages_num, SharedPage, Message, out_of_memory,
  trying_to_put, mem_map_disagrees, shmget_size, shmget_key, shmget_no_page, shmat_refused,
  shmat_no_put, Mm, Panic, nonexistent_page, free_page_twice, free_alignment, free_swapper,
  copy_alignment, copy_exists, share_exists, Outcome, ok, panic, killed, wild, M, pure, and_then,
  ◌>>=◌, ◌>>◌, stop_panic, printk, oom, map_get, map_set, load, store, present, frame, or_seven,
  clear_rw, set_rw, dir_entry, table_offset, map_nr, zero_page, copy_words,
}
use hack_linux.Mm.Frames.{
  scan, page_addr, get_free_page, live, find_shared, drop_count, release_shared_page_if_exists,
  map_dec, free_page, fill, mem_init,
}

abbrev pub when : Bool → M (Unit {0}) → M (Unit {0})
when b m s = if b then m s else ok tt s

-- The two tests of put_page, which only print.
unfoldable pub put_checks : ℕ → ℕ → M (Unit {0})
put_checks page address s =
    (do
      when (ltb page low_mem || leb s.high_memory page) (printk (trying_to_put page address))
      c ← map_get (map_nr page)
      when (not (c == 1)) (printk (mem_map_disagrees page address)))
      s

-- The rest of put_page: find the table, or allocate one, and write the entry.
unfoldable pub put_entry : ℕ → ℕ → M ℕ
put_entry page address = do
  e ← load (dir_entry address)
  if present e then (do store (frame e + table_offset address) (or_seven page); pure page) else do
    tmp ← get_free_page
    if tmp == 0 then pure 0 else do
      store (dir_entry address) (or_seven tmp)
      store (tmp + table_offset address) (or_seven page)
      pure page

-- Returns `page`, or 0 if there is no page for a table.
unfoldable pub put_page : ℕ → ℕ → M ℕ
unfolding put_checks put_entry
put_page page address = do put_checks page address; put_entry page address

-- `old_page >= LOW_MEM && mem_map[MAP_NR(old_page)]==1`
abbrev pub sole_owner : ℕ → M Bool
sole_owner old_page =
    if ltb old_page low_mem then pure false else do c ← map_get (map_nr old_page); pure (c == 1)

abbrev pub copy_page : ℕ → ℕ → M (Unit {0})
copy_page from to s = ok tt (record s { word = copy_words s.word from to })

unfoldable pub un_wp_page : ℕ → M (Unit {0})
un_wp_page table_entry = do
  e ← load table_entry
  let old_page = frame e
  alone ← sole_owner old_page
  if alone then store table_entry (set_rw e) else do
    new_page ← get_free_page
    if new_page == 0 then oom else do
      when (leb low_mem old_page) (map_dec (map_nr old_page))
      store table_entry (or_seven new_page)
      copy_page old_page new_page

unfoldable pub do_wp_page : ℕ → M (Unit {0})
do_wp_page address = do d ← load (dir_entry address); un_wp_page (table_offset address + frame d)

-- `(3 & e) == 1`
abbrev pub read_only : ℕ → Bool
read_only e = e % 4 == 1

unfoldable pub write_verify : ℕ → M (Unit {0})
write_verify address = do
  page ← load (dir_entry address)
  if not (present page) then pure tt else do
    e ← load (frame page + table_offset address)
    if read_only e then un_wp_page (frame page + table_offset address) else pure tt

-- The branch of get_empty_page that frees the page, if there was one, and ends the process.
abbrev pub give_up : ℕ → M (Unit {0})
give_up tmp = do free_page tmp; oom

unfoldable pub get_empty_page : ℕ → M (Unit {0})
get_empty_page address = do
  tmp ← get_free_page
  if tmp == 0
      then give_up tmp
      else do put ← put_page tmp address; if put == 0 then give_up tmp else pure tt

-- `(e & 0x41) == 0x01`: present and clean
abbrev pub clean : ℕ → Bool
clean e = present e && e / 2 ^ 6 % 2 == 0

-- `++mem_map[i]`
abbrev pub map_inc : ℕ → M (Unit {0})
map_inc i = do c ← map_get i; map_set i (c + 1)

-- The table of try_to_share's target, allocated if it is not there.
abbrev pub target_table : ℕ → M ℕ
target_table to_page = do
  to ← load to_page
  if present to then pure (frame to) else do
    fresh ← get_free_page
    if fresh == 0 then oom else do store to_page (or_seven fresh); pure (frame fresh)

abbrev pub share_entry : ℕ → ℕ → ℕ → M Bool
share_entry from_page to_page phys_addr = do
  present_to ← load to_page
  if present present_to then stop_panic share_exists else do
    e ← load from_page
    store from_page (clear_rw e)
    e' ← load from_page
    store to_page e'
    map_inc ((phys_addr - low_mem) / 2 ^ 12)
    pure true

-- `start` and `current_start` are the two tasks' `start_code`; 1 and 0 are `true` and `false`.
unfoldable pub try_to_share : ℕ → ℕ → ℕ → M Bool
try_to_share address start current_start s =
    (do
      let from_dir = dir_entry address + dir_entry start
      let to_dir = dir_entry address + dir_entry current_start
      from ← load from_dir
      if not (present from) then pure false else do
        let from_page = frame from + table_offset address
        e ← load from_page
        if not (clean e) then pure false else do
          let phys_addr = frame e
          if leb s.high_memory phys_addr || ltb phys_addr low_mem then pure false else do
            to ← target_table to_dir
            share_entry from_page (to + table_offset address) phys_addr)
      s
