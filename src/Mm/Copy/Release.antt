-- ===== src/Mm/Copy/Release.antt =====
-- The loop of free_page_tables over one table gives back exactly the references that its entries
-- hold, and so undoes the loop of copy_page_tables.
use hack_linux.Base.{
  leb, lt→ltb, le→ltb_false, ne→==_false, ==_refl, Bool-cases, update, ℕ, zero, suc, ◌+◌, ◌*◌, ◌≤◌,
  ◌<◌, ◌≡◌, refl, ◌∙◌, subst, ◌≢◌, inl, inr, true, false, ◌&&◌, add-zero, arith, ℕ_discrete,
}
use hack_linux.Mm.{low_mem, max_shared_pages_num, Mm, Outcome, ok, present, frame, clear_rw}
use hack_linux.Mm.Frames.{page_addr, live, free_page}
use hack_linux.Mm.Frames.Release.{refs, live-ne, attached-idle}
use hack_linux.Mm.Frames.Free.{GaveBack}
use hack_linux.Mm.Frames.Valid.{
  Held, idle, holds, Valid, Valid-congr, page_nr, Freed, below, beyond, twice, gave_back,
  free_page-below, free_page-Freed,
}
use hack_linux.Mm.Copy.{clear_slot, free_entries}
use hack_linux.Mm.Copy.Entries.{counted_nr, names, count_refs, count_refs-congr}

-- A free page has no reference.
pub used-of-refs : (s : Mm) (i : ℕ) → Valid s → refs s i ≢ 0 → s.mem_map i ≢ 0
used-of-refs s i v ne z = ne (omega (arith, attached-idle s.shared_pages (page_addr i) idle_slots))
  where
    idle_slots : (k : ℕ) → k < max_shared_pages_num → live (s.shared_pages k) (page_addr i) ≡ false
    idle_slots k p = go (v.held k p)
      where
        go : Held s k → live (s.shared_pages k) (page_addr i) ≡ false
        go (idle c) = ground arith
        go (holds j q e u) = live-ne (s.shared_pages k) (page_addr i) (ground arith)

give_one :
    {s : Mm} {a : ℕ} {o : Outcome (Unit {0})}
    → low_mem ≤ a
    → a < s.high_memory
    → s.mem_map (page_nr a) ≢ 0
    → Freed s a o
    → (t : Mm) × (o ≡ ok tt t) × GaveBack s (page_nr a) t × Valid t
give_one low high ne (below p) = absurd (omega arith)
give_one low high ne (beyond p q) = absurd (omega arith)
give_one low high ne (twice t p q z m) = absurd (ne z)
give_one low high ne (gave_back t p q u g v) = (t, refl, g, v)

-- The entry is freed and cleared.
record Cleared (s : Mm) (e a : ℕ) (t : Mm) : Type 0 where
  run : clear_slot e a s ≡ ok tt t
  word : t.word ≡ update s.word a 0
  refs_less : (j : ℕ) → refs t j + names e j ≡ refs s j
  valid : Valid t
  high : t.high_memory ≡ s.high_memory

module _ (s : Mm) (e a : ℕ) (v : Valid s) where
  names_self : present e ≡ true → low_mem ≤ frame e → names e (page_nr (frame e)) ≡ 1
  names_self there le =
      let nr_eq : counted_nr e ≡ page_nr (frame e) = omega arith in
      rw (
        there,
        lt→ltb low_mem (clear_rw e) (ground (arith, there)),
        nr_eq,
        ==_refl (page_nr (frame e)),
      )

  names_other :
      present e ≡ true → low_mem ≤ frame e → (j : ℕ) → j ≢ page_nr (frame e) → names e j ≡ 0
  names_other there le j ne =
      let differs : counted_nr e ≢ j = omega arith in
      rw (there, lt→ltb low_mem (clear_rw e) (ground (arith, there)), ne→==_false _ _ differs)

  Cleared-one :
      present e ≡ true
      → low_mem ≤ frame e
      → (t : Mm) → free_page (frame e) s ≡ ok tt t
      → GaveBack s (page_nr (frame e)) t
      → Valid t
      → Cleared s e a (record t { word = update t.word a 0 })
  Cleared-one there le t run g v' = record {
    run = rw (there, run);
    word = rw g.word;
    refs_less = λ j. elim (ℕ_discrete j (page_nr (frame e))) [
      | yes at ↦ rw at (omega (arith, names_self there le, g.one_less))
      | no ne ↦ omega (arith, names_other there le j ne, g.others j ne)
    ];
    valid = Valid-congr refl refl refl v';
    high = g.high;
  }

  -- The entry holds no reference.
  Cleared-none :
      present e && leb low_mem (frame e) ≡ false
      → Cleared s e a (record s { word = update s.word a 0 })
  Cleared-none h = elim (Bool-cases (present e)) [
    | inr absent ↦ record {
      run = rw absent;
      word = refl;
      refs_less = λ j. rw absent (omega arith);
      valid = Valid-congr refl refl refl v;
      high = refl;
    }
    | inl there ↦
        let low : frame e < low_mem = ground (arith, there) in
        record {
          run = rw (there, free_page-below s (frame e) low);
          word = refl;
          refs_less =
              λ j. rw (there, le→ltb_false low_mem (clear_rw e) (omega arith)) (omega arith);
          valid = Valid-congr refl refl refl v;
          high = refl;
        }
  ]

  clear_entry :
      frame e < s.high_memory → ((j : ℕ) → names e j ≤ refs s j) → (t : Mm) × Cleared s e a t
  clear_entry high owns = elim (Bool-cases (present e && leb low_mem (frame e))) [
    | inr h ↦ (record s { word = update s.word a 0 }, Cleared-none h)
    | inl h ↦
        let there : present e ≡ true = ground (arith, h) in
        let le : low_mem ≤ frame e = ground (arith, h) in
        let (t, run, g, v') =
          give_one le high
            (used-of-refs s (page_nr (frame e)) v
              (omega (arith, owns (page_nr (frame e)), names_self there le)))
            (free_page-Freed s (frame e) v) in
        (record t { word = update t.word a 0 }, Cleared-one there le t run g v')
  ]

-- The table at `a` is freed.
pub record FreedTable (s : Mm) (n a : ℕ) (t : Mm) : Type 0 where
  pub run : free_entries n a s ≡ ok tt t
  pub cleared : (i : ℕ) → i < n → t.word (a + 4 * i) ≡ 0
  pub others : (b : ℕ) → ((i : ℕ) → i < n → b ≢ a + 4 * i) → t.word b ≡ s.word b
  pub refs_less : (j : ℕ) → refs t j + count_refs s.word n a j ≡ refs s j
  pub valid : Valid t
  pub high : t.high_memory ≡ s.high_memory

module _ {s t : Mm} (n : ℕ) {a : ℕ} (c : Cleared s (s.word a) a t) where
  later_words : (i : ℕ) → i < n → t.word (a + 4 + 4 * i) ≡ s.word (a + 4 + 4 * i)
  later_words i p = rw (c.word, ne→==_false (a + 4 + 4 * i) a (omega arith))

  later_counts : (j : ℕ) → count_refs t.word n (a + 4) j ≡ count_refs s.word n (a + 4) j
  later_counts j = count_refs-congr t.word s.word n (a + 4) j later_words

  join_freed : {u : Mm} → FreedTable t n (a + 4) u → FreedTable s (suc n) a u
  unfolding free_entries count_refs
  join_freed {u} f = record {
    run = rw c.run f.run;
    cleared = cleared;
    others = λ b p.
        f.others b (λ i r e. p (suc i) (omega arith) (omega (arith, e)))
        ∙ rw (c.word, ne→==_false b a (λ e. p 0 (omega arith) (omega (arith, e))));
    refs_less = λ j. omega (arith, f.refs_less j, c.refs_less j, later_counts j);
    valid = f.valid;
    high = f.high ∙ c.high;
  }
    where
      cleared : (i : ℕ) → i < suc n → u.word (a + 4 * i) ≡ 0
      cleared zero p = rw add-zero (f.others a (λ i q. omega arith) ∙ rw (c.word, ==_refl a))
      cleared (suc i) p =
          let e : a + 4 * suc i ≡ a + 4 + 4 * i = omega arith in rw e (f.cleared i (omega arith))

-- If the entries of a table name only pages below HIGH_MEMORY, and no page more often than it has
-- references, the loop of free_page_tables over it ends without a panic. All its entries become 0,
-- every page has lost exactly the references that the entries held, no other word changes and the
-- state is valid.
pub free_entries-FreedTable :
    (s : Mm) (n a : ℕ)
    → Valid s
    → ((i : ℕ) → i < n → frame (s.word (a + 4 * i)) < s.high_memory)
    → ((j : ℕ) → count_refs s.word n a j ≤ refs s j)
    → (t : Mm) × FreedTable s n a t
unfolding free_entries count_refs
free_entries-FreedTable s zero a v inside owns = (
  s,
  record {
    run = refl;
    cleared = λ i p. absurd (omega arith);
    others = λ b p. refl;
    refs_less = λ j. omega arith;
    valid = v;
    high = refl;
  },
)
free_entries-FreedTable s (suc n) a v inside owns =
    let (t, c) =
      clear_entry s (s.word a) a v (rw add-zero at (inside 0 (omega arith)))
        (λ j. omega (arith, owns j)) in
    let (u, f) = free_entries-FreedTable t n (a + 4) c.valid (later_inside c) (later_owns c) in
    (u, join_freed n c f)
  where
    later_inside :
        {t : Mm}
        → Cleared s (s.word a) a t
        → (i : ℕ) → i < n
        → frame (t.word (a + 4 + 4 * i)) < t.high_memory
    later_inside c i p =
        let e : a + 4 * suc i ≡ a + 4 + 4 * i = omega arith in
        rw (later_words n c i p, c.high)
          (subst (λ b. frame (s.word b) < s.high_memory) e (inside (suc i) (omega arith)))

    later_owns :
        {t : Mm} → Cleared s (s.word a) a t → (j : ℕ) → count_refs t.word n (a + 4) j ≤ refs t j
    later_owns c j = omega (arith, later_counts n c j, owns j, c.refs_less j)
