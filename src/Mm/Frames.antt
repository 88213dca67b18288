-- ===== src/Mm/Frames.antt =====
-- Page frames: get_free_page, free_page and mem_init of mm/memory.c (Lab 6), and
-- release_shared_page_if_exists of mm/shm.c.
pub mod Alloc
pub mod Free
pub mod Release
pub mod Init
pub mod Valid
use hack_linux.Base.{
  ℕ, zero, suc, ◌+◌, ◌-◌, ◌*◌, ◌/◌, ◌^◌, Bool, true, false, Option, none, some, ltb, leb, ◌==◌,
  ◌&&◌, if◌then◌else◌, update, ltb→lt, ltb_false→le, lt→ltb, le→ltb_false, leb→le, le→leb,
  lt→leb_false, ==_iff, ne→==_false, ==_false→ne, ==_refl, tests, Bool-cases, Option-cases, length,
  get_elem?, set, length-append, length-set, get_elem?-set_self, get_elem?-set_ne, get_or, take,
  drop, replicate, take-append-drop, length-take, length-drop, length-replicate, length-map, ◌%◌,
  ◌≤◌, ◌<◌, ◌≡◌, refl, sym, ap, ◌∙◌, subst, ◌≢◌, ◌↔◌, ◌⊎◌, inl, inr, not, ◌||◌, List, [], ◌∷◌, ◌++◌,
  map, ap₂, fun_ext, add-zero, arith, ℕ_discrete, dec_lt,
}
use hack_linux.Mm.{
  Mm, SharedPage, M, ok, pure, ◌>>=◌, ◌>>◌, low_mem, paging_pages, used, max_shared_pages_num,
  map_get, map_set, map_nr, stop_panic, nonexistent_page, free_page_twice, zero_page, page_size,
  Message, out_of_memory, trying_to_put, mem_map_disagrees, shmget_size, shmget_key, shmget_no_page,
  shmat_refused, shmat_no_put, Panic, free_alignment, free_swapper, copy_alignment, copy_exists,
  share_exists, Outcome, panic, killed, wild, and_then, printk, oom, load, store, present, frame,
  or_seven, clear_rw, set_rw, dir_entry, table_offset, copy_words,
}

-- `std ; repne ; scasb` from the last byte of `mem_map` down: the highest index below `n` whose
-- byte is 0.
unfoldable pub scan : (ℕ → ℕ) → ℕ → Option ℕ
scan m zero = none
scan m (suc n) = let rest = scan m n in if m n == 0 then some n else rest

-- `sall $12 ; addl LOW_MEM`
abbrev pub page_addr : ℕ → ℕ
page_addr i = i * 2 ^ 12 + low_mem

-- Marks the page, clears its 1024 words and returns its address; 0 if there is none.
unfoldable pub get_free_page : M ℕ
get_free_page s = elim (scan s.mem_map paging_pages) [
  | none ↦ ok 0 s
  | some i ↦
      ok (page_addr i)
        (record s { mem_map = update s.mem_map i 1; word = zero_page s.word (page_addr i) })
]

-- The test of the loop in release_shared_page_if_exists.
abbrev pub live : SharedPage → ℕ → Bool
live p a = p.physical_address == a && ltb 0 p.count

-- The loop: `n` rounds left, at slot `i`.
unfoldable pub find_shared : (ℕ → SharedPage) → ℕ → ℕ → ℕ → Option ℕ
find_shared f a zero i = none
find_shared f a (suc n) i =
    let rest = find_shared f a n (i + 1) in if live (f i) a then some i else rest

abbrev pub drop_count : SharedPage → SharedPage
drop_count p = record p { count = p.count - 1 }

-- The argument is a page number; 1 and 0 are `true` and `false`.
unfoldable pub release_shared_page_if_exists : ℕ → M Bool
release_shared_page_if_exists nr s =
    elim (find_shared s.shared_pages (page_addr nr) max_shared_pages_num 0) [
      | none ↦ ok true s
      | some i ↦
          ok ((drop_count (s.shared_pages i)).count == 0)
            (record s { shared_pages = update s.shared_pages i (drop_count (s.shared_pages i)) })
    ]

-- `--mem_map[i]`
abbrev pub map_dec : ℕ → M (Unit {0})
map_dec i = do c ← map_get i; map_set i (c + 255)

unfoldable pub free_page : ℕ → M (Unit {0})
free_page addr s =
    if ltb addr low_mem
    then ok tt s
    else if leb s.high_memory addr
    then stop_panic nonexistent_page s
    else (do
      let nr = (addr - low_mem) / 2 ^ 12
      c ← map_get nr
      if c == 0
          then (map_set nr 0 >> stop_panic free_page_twice)
          else do last ← release_shared_page_if_exists nr; if last then map_dec nr else pure tt)
        s

-- `n` rounds of `mem_map[i++] = v`
unfoldable pub fill : ℕ → ℕ → ℕ → M (Unit {0})
fill zero i v = pure tt
fill (suc n) i v = map_set i v >> fill n (i + 1) v

-- With `end_mem < start_mem` the C loop runs no round, and neither does this one.
unfoldable pub mem_init : ℕ → ℕ → M (Unit {0})
mem_init start_mem end_mem s =
    (fill paging_pages 0 used >> fill ((end_mem - start_mem) / 2 ^ 12) (map_nr start_mem) 0)
      (record s { high_memory = end_mem })
