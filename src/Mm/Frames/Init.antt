-- ===== src/Mm/Frames/Init.antt =====
-- mem_init: which pages are free at the start, and that the state is valid.
use hack_linux.Base.{
  ltb, leb, if◌then◌else◌, lt→ltb, update, ℕ, zero, suc, ◌+◌, ◌-◌, ◌/◌, ◌%◌, ◌^◌, ◌≤◌, ◌<◌, ◌≡◌,
  refl, ◌&&◌, arith,
}
use hack_linux.Mm.{low_mem, paging_pages, used, Mm, ok, map_nr}
use hack_linux.Mm.Frames.{fill, mem_init}
use hack_linux.Mm.Frames.Valid.{idle, Valid, page_nr}

-- `mem_map` with `n` bytes from `i` on set to `v`.
abbrev filled : (ℕ → ℕ) → ℕ → ℕ → ℕ → ℕ → ℕ
filled m n i v j = if leb i j && ltb j (i + n) then v else m j

record Filled (s : Mm) (n i v : ℕ) : Type 0 where
  map : ℕ → ℕ
  run : fill n i v s ≡ ok tt (record s { mem_map = map })
  bytes : (j : ℕ) → map j ≡ filled s.mem_map n i v j

fill-Filled : (n i v : ℕ) (s : Mm) → v < 256 → i + n ≤ paging_pages → Filled s n i v
unfolding fill
fill-Filled zero i v s small h = record { map = s.mem_map; run = refl; bytes = λ j. ground arith }
fill-Filled (suc n) i v s small h = step (
    fill-Filled n (i + 1) v (record s { mem_map = update s.mem_map i (v % 256) }) small
      (omega arith))
  where
    step :
        Filled (record s { mem_map = update s.mem_map i (v % 256) }) n (i + 1) v
        → Filled s (suc n) i v
    step rest = record {
      map = rest.map;
      run = rw (lt→ltb i paging_pages (omega arith)) rest.run;
      bytes = λ j. ground (arith, rest.bytes j);
    }

-- The state that mem_init leaves.
pub record Initial (s : Mm) (start_mem end_mem : ℕ) (t : Mm) : Type 0 where
  pub run : mem_init start_mem end_mem s ≡ ok tt t
  pub bytes :
      (j : ℕ)
      → j < paging_pages
      → t.mem_map j ≡ (
          if leb (page_nr start_mem) j && ltb j (page_nr start_mem + (end_mem - start_mem) / 2 ^ 12)
          then 0
          else 100)
  pub valid : Valid t

module _ (s : Mm) (start_mem end_mem : ℕ) (low : low_mem ≤ start_mem) (order : start_mem ≤ end_mem)
    (high : end_mem ≤ 2 ^ 24) (bytes_before : (j : ℕ) → s.mem_map j < 256)
    (no_slots : (k : ℕ) → (s.shared_pages k).count ≡ 0) where
  rounds : ℕ
  rounds = (end_mem - start_mem) / 2 ^ 12

  all_used : Filled (record s { high_memory = end_mem }) paging_pages 0 used
  all_used = fill-Filled paging_pages 0 used _ (omega arith) (omega arith)

  nr_eq : map_nr start_mem ≡ page_nr start_mem
  nr_eq = omega arith

  some_free :
      Filled
        (record s { high_memory = end_mem; mem_map = all_used.map })
        ((end_mem - start_mem) / 2 ^ 12)
        (map_nr start_mem)
        0
  some_free = fill-Filled _ _ 0 _ (omega arith) (omega arith)

  -- mem_init marks as free exactly the pages of [start_mem, end_mem), all others get USED, and the
  -- resulting state is valid.
  pub mem_init-Initial : (t : Mm) × Initial s start_mem end_mem t
  unfolding mem_init
  mem_init-Initial = (
    record s { high_memory = end_mem; mem_map = some_free.map },
    record {
      run = rw (all_used.run) some_free.run;
      bytes = λ j p. ground (arith, some_free.bytes j, all_used.bytes j, nr_eq);
      valid = record {
        high = high;
        byte = λ j. ground (arith, some_free.bytes j, all_used.bytes j, bytes_before j);
        unique = λ a i j p q h. ground (arith, no_slots i);
        above = λ j p q. ground (arith, some_free.bytes j, all_used.bytes j, nr_eq);
        held = λ k p. idle (no_slots k);
      };
    },
  )
