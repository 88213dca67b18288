-- ===== src/Mm/Demand.antt =====
-- Pages on demand: share_page, do_no_page and calc_mem of mm/memory.c (Lab 6). The file system is
-- not in the repository: `bmap` and `bread_page` are arguments.
pub mod Tail
pub mod Share
pub mod Fill
pub mod Page
use hack_linux.Base.{
  ltb, leb, ◌==◌, if◌then◌else◌, ltb→lt, ltb_false→le, lt→ltb, le→ltb_false, leb→le, le→leb,
  lt→leb_false, ==_iff, ne→==_false, ==_false→ne, ==_refl, tests, Bool-cases, Option-cases, update,
  length, get_elem?, set, length-append, length-set, get_elem?-set_self, get_elem?-set_ne, get_or,
  take, drop, replicate, take-append-drop, length-take, length-drop, length-replicate, length-map,
  ℕ, zero, suc, ◌+◌, ◌-◌, ◌*◌, ◌/◌, ◌%◌, ◌^◌, ◌≤◌, ◌<◌, ◌≡◌, refl, sym, ap, ◌∙◌, subst, ◌≢◌, ◌↔◌,
  ◌⊎◌, inl, inr, Bool, true, false, not, ◌&&◌, ◌||◌, Option, none, some, List, [], ◌∷◌, ◌++◌, map,
  ap₂, fun_ext, add-zero, arith, ℕ_discrete, dec_lt,
}
use hack_linux.Mm.{
  low_mem, paging_pages, used, page_size, max_shared_pages_num, SharedPage, Message, out_of_memory,
  trying_to_put, mem_map_disagrees, shmget_size, shmget_key, shmget_no_page, shmat_refused,
  shmat_no_put, freeing_tables, pages_free, dir_uses, Mm, Panic, nonexistent_page, free_page_twice,
  free_alignment, free_swapper, copy_alignment, copy_exists, share_exists, separate_i_and_d,
  bad_data_limit, Outcome, ok, panic, killed, wild, M, pure, and_then, ◌>>=◌, ◌>>◌, stop_panic,
  printk, oom, map_get, map_set, load, store, present, frame, or_seven, clear_rw, set_rw, dir_entry,
  table_offset, map_nr, zero_page, copy_words,
}
use hack_linux.Mm.Frames.{
  scan, page_addr, get_free_page, live, find_shared, drop_count, release_shared_page_if_exists,
  map_dec, free_page, fill, mem_init,
}
use hack_linux.Mm.Tables.{
  when, put_checks, put_entry, put_page, sole_owner, copy_page, un_wp_page, do_wp_page, read_only,
  write_verify, give_up, get_empty_page, clean, map_inc, target_table, share_entry, try_to_share,
}

-- What the functions read of a task.
pub record Program : Type 0 where
  pub executable : Option ℕ
  pub start_code : ℕ
  pub end_data : ℕ

-- `(*p)->executable == current->executable`
abbrev pub same_file : Option ℕ → ℕ → Bool
same_file none i = false
same_file (some j) i = j == i

abbrev pub shares_file : Option Program → ℕ → Bool
shares_file none i = false
shares_file (some p) i = same_file p.executable i

abbrev pub start_of : Option Program → ℕ
start_of none = 0
start_of (some p) = p.start_code

-- The loop of share_page, over the slots from n down to 1, for a task with the executable `inode`.
unfoldable pub share_slots : ℕ → ℕ → ℕ → (ℕ → Option Program) → ℕ → ℕ → M Bool
unfolding try_to_share
share_slots zero current inode task address start = pure false
share_slots (suc n) current inode task address start =
    let rest = share_slots n current inode task address start in
    if suc n == current || not (shares_file (task (suc n)) inode) then rest else do
      shared ← try_to_share address (start_of (task (suc n))) start
      if shared then pure true else rest

abbrev pub share_with : Option ℕ → ℕ → ℕ → (ℕ → Option Program) → (ℕ → ℕ) → ℕ → M Bool
share_with none current start task i_count address = pure false
share_with (some inode) current start task i_count address =
    if ltb (i_count inode) 2 then pure false else share_slots 63 current inode task address start

-- share_page for the task `me` in slot `current`; `i_count` is that of its executable.
unfoldable pub share_page : ℕ → Program → (ℕ → Option Program) → (ℕ → ℕ) → ℕ → M Bool
unfolding share_slots
share_page current me task i_count address =
    share_with me.executable current me.start_code task i_count address

-- `*(char *)a = 0` in a memory of words.
abbrev pub byte_at : ℕ → ℕ
byte_at a = 256 ^ (a % 4)

abbrev pub clear_byte : ℕ → (ℕ → ℕ) → ℕ → ℕ
clear_byte a word =
    let w = word (a / 4 * 4) in update word (a / 4 * 4) (w - w / byte_at a % 256 * byte_at a)

-- The loop that clears the last n bytes before the address `end`.
unfoldable pub clear_tail : ℕ → ℕ → (ℕ → ℕ) → ℕ → ℕ
clear_tail zero end word = word
clear_tail (suc n) end word = clear_tail n (end - 1) (clear_byte (end - 1) word)

-- `tmp`, the address relative to the code of the task.
abbrev pub relative : Program → ℕ → ℕ
relative me address = (address / 4096 * 4096 + 2 ^ 32 - me.start_code) % 2 ^ 32

-- The test for a page that is not in the file.
abbrev pub not_in_file : Program → ℕ → Bool
not_in_file me tmp = leb me.end_data tmp

module _ (bmap : ℕ → ℕ → ℕ) (bread_page : ℕ → ℕ → List ℕ → (ℕ → ℕ) → ℕ → ℕ) where
  -- The four blocks of the page, behind the block of the header.
  abbrev pub blocks : ℕ → ℕ → List ℕ
  blocks inode tmp =
      let block = 1 + tmp / 1024 in
      bmap inode block
      ∷ bmap inode (block + 1)
      ∷ bmap inode (block + 2)
      ∷ bmap inode (block + 3)
      ∷ []

  -- The page read from the file, with zeros behind the data.
  abbrev pub read_in : ℕ → ℕ → ℕ → ℕ → (ℕ → ℕ) → ℕ → ℕ
  read_in inode tmp end_data page word =
      clear_tail (tmp + 4096 - end_data) (page + 4096)
        (bread_page page inode (blocks inode tmp) word)

  abbrev pub load_page : ℕ → ℕ → ℕ → ℕ → M (Unit {0})
  load_page inode tmp end_data page s =
      ok tt (record s { word = read_in inode tmp end_data page s.word })

  -- The end of do_no_page, for a page that is neither empty nor shared.
  unfoldable pub from_file : ℕ → ℕ → ℕ → ℕ → M (Unit {0})
  unfolding clear_tail put_page
  from_file inode tmp end_data address = do
    page ← get_free_page
    if page == 0 then oom else do
      load_page inode tmp end_data page
      put ← put_page page address
      if put == 0 then (do free_page page; oom) else pure tt

  abbrev pub with_file : Option ℕ → ℕ → Program → (ℕ → Option Program) → (ℕ → ℕ) → ℕ → M (Unit {0})
  with_file none current me task i_count address = get_empty_page (address / 4096 * 4096)
  with_file (some inode) current me task i_count address =
      let tmp = relative me address in
      if not_in_file me tmp then get_empty_page (address / 4096 * 4096) else do
        shared ← share_page current me task i_count tmp
        if shared then pure tt else from_file inode tmp me.end_data (address / 4096 * 4096)

  -- do_no_page
  unfoldable pub do_no_page : ℕ → Program → (ℕ → Option Program) → (ℕ → ℕ) → ℕ → M (Unit {0})
  unfolding share_page from_file get_empty_page
  do_no_page current me task i_count address =
      with_file me.executable current me task i_count address

-- calc_mem: the free pages, and the pages that each table of the directory uses.
unfoldable pub count_free : ℕ → (ℕ → ℕ) → ℕ
count_free zero mem_map = 0
count_free (suc n) mem_map = count_free n mem_map + (if mem_map n == 0 then 1 else 0)

unfoldable pub count_present : ℕ → ℕ → (ℕ → ℕ) → ℕ
count_present zero table word = 0
count_present (suc n) table word =
    count_present n table word + (if present (word (table + 4 * n)) then 1 else 0)

-- The loop over the directory, for n rounds from entry i on.
unfoldable pub show_dirs : ℕ → ℕ → M (Unit {0})
unfolding count_present
show_dirs zero i = pure tt
show_dirs (suc n) i = do
  e ← load (4 * i)
  when (present e) (λ s. printk (dir_uses i (count_present 1024 (frame e) s.word)) s)
  show_dirs n (i + 1)

unfoldable pub calc_mem : M (Unit {0})
unfolding count_free show_dirs
calc_mem s =
    (printk (pages_free (count_free paging_pages s.mem_map) paging_pages)
        >>= (λ u. show_dirs 1022 2))
      s
