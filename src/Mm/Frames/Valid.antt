-- ===== src/Mm/Frames/Valid.antt =====
-- The invariant of `mem_map` and `sharedPages`, and that get_free_page and free_page keep it.
use hack_linux.Base.{
  ltb, leb, ◌==◌, ltb→lt, ltb_false→le, lt→ltb, le→ltb_false, leb→le, lt→leb_false, ne→==_false,
  Bool-cases, Option-cases, update, ℕ, ◌+◌, ◌-◌, ◌/◌, ◌%◌, ◌^◌, ◌≤◌, ◌<◌, ◌≡◌, refl, subst, ◌≢◌,
  ◌⊎◌, inl, inr, true, false, none, some, arith, ℕ_discrete,
}
use hack_linux.Mm.{
  low_mem, paging_pages, max_shared_pages_num, SharedPage, Mm, nonexistent_page, free_page_twice,
  Outcome, ok, panic, zero_page,
}
use hack_linux.Mm.Frames.{page_addr, get_free_page, live, find_shared, drop_count, free_page}
use hack_linux.Mm.Frames.Alloc.{Taken, NoPage, get_free_page-total}
use hack_linux.Mm.Frames.Release.{
  Unique, find_shared-none, hit, gone_test, Unique-drop, release-none, release-some,
}
use hack_linux.Mm.Frames.Free.{GaveBack, after, unshared-GaveBack, last-GaveBack, kept-GaveBack}

-- Slot `k`, if it is in use, holds a page that `mem_map` marks as used.
pub data Held (s : Mm) (k : ℕ) : Type 0 where
  idle : (s.shared_pages k).count ≡ 0 → Held s k
  holds :
      (i : ℕ)
      → i < paging_pages
      → (s.shared_pages k).physical_address ≡ page_addr i
      → s.mem_map i ≢ 0
      → Held s k

pub record Valid (s : Mm) : Type 0 where
  pub high : s.high_memory ≤ 2 ^ 24
  pub byte : (j : ℕ) → s.mem_map j < 256
  pub unique : Unique s.shared_pages
  pub above : (j : ℕ) → j < paging_pages → s.high_memory ≤ page_addr j → s.mem_map j ≢ 0
  pub held : (k : ℕ) → k < max_shared_pages_num → Held s k

-- The invariant reads neither the words nor `brk` nor the log.
pub Valid-congr :
    {s t : Mm}
    → t.mem_map ≡ s.mem_map
    → t.shared_pages ≡ s.shared_pages
    → t.high_memory ≡ s.high_memory
    → Valid s
    → Valid t
Valid-congr {s} {t} m f h v = record {
  high = rw h v.high;
  byte = rw m v.byte;
  unique = rw f v.unique;
  above = rw (m, h) v.above;
  held = λ k p. keep k (v.held k p);
}
  where
    keep : (k : ℕ) → Held s k → Held t k
    keep k (idle e) = idle (rw f e)
    keep k (holds i p e ne) = holds i p (rw f e) (rw m ne)

abbrev pub page_nr : ℕ → ℕ
page_nr a = (a - low_mem) / 2 ^ 12

pub Taken-Valid : {s t : Mm} {a : ℕ} → Taken s a t → Valid s → Valid t
Taken-Valid {s} {t} h v = rw h.state (record {
  high = v.high;
  byte = λ j. ground (arith, v.byte j);
  unique = v.unique;
  above = λ j p q. ground (arith, v.above j p q);
  held = λ k p. keep k (v.held k p);
})
  where
    keep :
        (k : ℕ)
        → Held s k
        → Held
            (record s {
              mem_map = update s.mem_map h.nr 1;
              word = zero_page s.word (page_addr h.nr);
            })
            k
    keep k (idle e) = idle e
    keep k (holds i p e ne) = holds i p e (ground arith)

-- Allocation keeps the invariant.
pub get_free_page-Valid : {s t : Mm} {a : ℕ} → get_free_page s ≡ ok a t → Valid s → Valid t
get_free_page-Valid {s} {t} {a} e v = go (get_free_page-total s)
  where
    go : (b : ℕ) × (u : Mm) × (get_free_page s ≡ ok b u) × (Taken s b u ⊎ NoPage s b u) → Valid t
    go (b, u, e', inl h) = let same : u ≡ t = ground arith in subst Valid same (Taken-Valid h v)
    go (b, u, e', inr h) = let same : s ≡ t = ground (arith, h.same) in subst Valid same v

-- What free_page does at address `a`, on each of its branches.
pub data Freed (s : Mm) (a : ℕ) : Outcome (Unit {0}) → Type 0 where
  below : a < low_mem → Freed s a (ok tt s)
  beyond : low_mem ≤ a → s.high_memory ≤ a → Freed s a (panic nonexistent_page s)
  twice :
      (t : Mm)
      → low_mem ≤ a
      → a < s.high_memory
      → s.mem_map (page_nr a) ≡ 0
      → ((j : ℕ) → t.mem_map j ≡ s.mem_map j)
      → Freed s a (panic free_page_twice t)
  gave_back :
      (t : Mm)
      → low_mem ≤ a
      → a < s.high_memory
      → s.mem_map (page_nr a) ≢ 0
      → GaveBack s (page_nr a) t
      → Valid t
      → Freed s a (ok tt t)

module _ (s : Mm) (v : Valid s) (i : ℕ) (inside : page_addr i < s.high_memory)
    (used_page : s.mem_map i ≢ 0) where
  dec_eq : (s.mem_map i + 255) % 256 ≡ s.mem_map i - 1
  dec_eq = omega (arith, v.byte i)

  absent-Valid :
      find_shared s.shared_pages (page_addr i) max_shared_pages_num 0 ≡ none
      → Valid (after s i (s.mem_map i - 1) s.shared_pages)
  absent-Valid e = record {
    high = v.high;
    byte = λ j. ground (arith, v.byte j, v.byte i);
    unique = v.unique;
    above = λ j p q. ground (arith, v.above j p q);
    held = λ k p. keep k p (v.held k p);
  }
    where
      keep :
          (k : ℕ)
          → k < max_shared_pages_num
          → Held s k
          → Held (after s i (s.mem_map i - 1) s.shared_pages) k
      keep k p (idle z) = idle z
      keep k p (holds j q at ne) = elim (Bool-cases (ltb 0 (s.shared_pages k).count)) [
        | inl busy ↦
            let miss : live (s.shared_pages k) (page_addr i) ≡ false =
              find_shared-none s.shared_pages (page_addr i) max_shared_pages_num 0 k e (omega arith)
                (omega arith) in
            holds j q at (ground arith)
        | inr free ↦ idle (ground arith)
      ]

  module _ (k : ℕ)
      (e : find_shared s.shared_pages (page_addr i) max_shared_pages_num 0 ≡ some k) where
    abbrev slots : ℕ → SharedPage
    slots = update s.shared_pages k (drop_count (s.shared_pages k))

    -- The slots other than `k` are what they were, and `k` keeps its address.
    kept-Held :
        (t : Mm) → t.shared_pages ≡ slots → t.mem_map ≡ s.mem_map → (j : ℕ) → Held s j → Held t j
    kept-Held t f m j (idle z) = idle (rw f (ground arith))
    kept-Held t f m j (holds n q at ne) = holds n q (rw f (ground arith)) (rw m ne)

    kept-Valid : Valid (record s { shared_pages = slots })
    kept-Valid = record {
      high = v.high;
      byte = v.byte;
      above = v.above;
      unique = Unique-drop s.shared_pages k v.unique;
      held = λ j p. kept-Held _ refl refl j (v.held j p);
    }

    last-Valid : (s.shared_pages k).count ≡ 1 → Valid (after s i (s.mem_map i - 1) slots)
    last-Valid one = record {
      high = v.high;
      byte = λ j. ground (arith, v.byte j, v.byte i);
      unique = Unique-drop s.shared_pages k v.unique;
      above = λ j p q. ground (arith, v.above j p q);
      held = λ j p. keep j p (v.held j p);
    }
      where
        keep :
            (j : ℕ)
            → j < max_shared_pages_num
            → Held s j
            → Held (after s i (s.mem_map i - 1) slots) j
        keep j p (idle z) = idle (ground arith)
        keep j p (holds n q at ne) = elim (Bool-cases (ltb 0 (slots j).count)) [
          | inl busy ↦
              let miss : live (slots j) (page_addr i) ≡ false =
                gone_test s.shared_pages (page_addr i) k e v.unique one j p in
              let at' : (slots j).physical_address ≡ page_addr n = ground arith in
              let ne' : n ≢ i = ground arith in holds n q at' (rw (ne→==_false n i ne') ne)
          | inr free ↦ idle (ground arith)
        ]

module _ (s : Mm) (v : Valid s) (a : ℕ) (low : low_mem ≤ a) (high : a < s.high_memory) where
  in_map : ltb (page_nr a) paging_pages ≡ true
  in_map = lt→ltb _ _ (omega (arith, v.high))

  inside : page_addr (page_nr a) < s.high_memory
  inside = omega arith

  module _ (ne : s.mem_map (page_nr a) ≢ 0) where
    unshared :
        find_shared s.shared_pages (page_addr (page_nr a)) max_shared_pages_num 0 ≡ none
        → Freed s a (free_page a s)
    unfolding free_page
    unshared e =
        rw
          (
            le→ltb_false _ _ low,
            lt→leb_false _ _ high,
            in_map,
            ne→==_false _ 0 ne,
            release-none s (page_nr a) e,
            in_map,
            in_map,
            dec_eq s v (page_nr a) inside ne,
          )
          (gave_back _ low high ne (unshared-GaveBack s (page_nr a) v.unique e ne)
            (absent-Valid s v (page_nr a) inside ne e))

    shared :
        (k : ℕ)
        → find_shared s.shared_pages (page_addr (page_nr a)) max_shared_pages_num 0 ≡ some k
        → Freed s a (free_page a s)
    unfolding free_page
    shared k e = elim (Bool-cases ((s.shared_pages k).count - 1 == 0)) [
      | inl last ↦
          rw
            (
              le→ltb_false _ _ low,
              lt→leb_false _ _ high,
              in_map,
              ne→==_false _ 0 ne,
              release-some s (page_nr a) k e,
              last,
              in_map,
              in_map,
              dec_eq s v (page_nr a) inside ne,
            )
            (gave_back _ low high ne (last-GaveBack s (page_nr a) v.unique k e (one last) ne)
              (last-Valid s v (page_nr a) inside ne k e (one last)))
      | inr more ↦
          rw
            (
              le→ltb_false _ _ low,
              lt→leb_false _ _ high,
              in_map,
              ne→==_false _ 0 ne,
              release-some s (page_nr a) k e,
              more,
            )
            (gave_back _ low high ne (kept-GaveBack s (page_nr a) v.unique k e (ground arith))
              (kept-Valid s v (page_nr a) inside ne k e))
    ]
      where
        one : (s.shared_pages k).count - 1 == 0 ≡ true → (s.shared_pages k).count ≡ 1
        one z = ground (arith, (hit s.shared_pages (page_addr (page_nr a)) k e).hit)

    free_page-busy : Freed s a (free_page a s)
    free_page-busy =
        elim (Option-cases
          (find_shared s.shared_pages (page_addr (page_nr a)) max_shared_pages_num 0)) [
            | inl e ↦ unshared e
            | inr (k, e) ↦ shared k e
          ]

  free_page-idle : s.mem_map (page_nr a) ≡ 0 → Freed s a (free_page a s)
  unfolding free_page
  free_page-idle z =
      rw (le→ltb_false _ _ low, lt→leb_false _ _ high, in_map, z, in_map)
        (twice _ low high z (λ j. ground (arith, z)))

pub free_page-below : (s : Mm) (a : ℕ) → a < low_mem → free_page a s ≡ ok tt s
unfolding free_page
free_page-below s a low = rw (lt→ltb _ _ low)

-- In a valid state free_page always returns or panics, as `Freed` lists: it ignores an address
-- below LOW_MEM, panics at or above HIGH_MEMORY and at a page that is free (leaving `mem_map` as
-- it was), and otherwise gives back exactly one reference to exactly one page, whether the page is
-- shared through `sharedPages` or not, and leaves a valid state.
pub free_page-Freed : (s : Mm) (a : ℕ) → Valid s → Freed s a (free_page a s)
unfolding free_page
free_page-Freed s a v = elim (Bool-cases (ltb a low_mem)) [
  | inl low ↦ rw low (below (ltb→lt _ _ low))
  | inr at ↦ elim (Bool-cases (leb s.high_memory a)) [
    | inl high ↦ rw (at, high) (beyond (ltb_false→le _ _ at) (leb→le _ _ high))
    | inr under ↦
        let low : low_mem ≤ a = ltb_false→le _ _ at in
        let high : a < s.high_memory = ground arith in
        elim (ℕ_discrete (s.mem_map (page_nr a)) 0) [
          | yes z ↦ free_page-idle s v a low high z
          | no ne ↦ free_page-busy s v a low high ne
        ]
  ]
]
