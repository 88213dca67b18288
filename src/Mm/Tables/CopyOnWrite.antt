-- ===== src/Mm/Tables/CopyOnWrite.antt =====
-- un_wp_page: a write to a protected page gets a private copy, or the page itself if nobody else
-- has it.
use hack_linux.Base.{
  ltb, leb, ◌==◌, if◌then◌else◌, ltb→lt, ltb_false→le, lt→ltb, le→ltb_false, le→leb, lt→leb_false,
  ne→==_false, ==_refl, Bool-cases, update, ℕ, ◌+◌, ◌-◌, ◌%◌, ◌^◌, ◌≤◌, ◌<◌, ◌≡◌, refl, ◌∙◌, ◌≢◌,
  ◌⊎◌, inl, inr, true, ◌&&◌, ◌∷◌, arith, ℕ_discrete,
}
use hack_linux.Mm.{
  low_mem, paging_pages, out_of_memory, Mm, Outcome, ok, killed, frame, or_seven, set_rw, map_nr,
  zero_page, copy_words,
}
use hack_linux.Mm.Frames.{page_addr, get_free_page}
use hack_linux.Mm.Frames.Alloc.{Highest, Taken, NoPage, get_free_page-total}
use hack_linux.Mm.Frames.Valid.{Valid}
use hack_linux.Mm.Tables.{un_wp_page}
use hack_linux.Mm.Tables.Entry.{zero_page_outside, copy_words_outside}

-- The page that the entry at `q` names.
abbrev pub old_page : Mm → ℕ → ℕ
old_page s q = frame (s.word q)

-- The table that holds the entry and the page that it names are no free pages, and differ.
pub record Protected (s : Mm) (q : ℕ) : Type 0 where
  pub table_used : (i : ℕ) → frame q ≡ page_addr i → s.mem_map i ≢ 0
  pub page_used : (i : ℕ) → old_page s q ≡ page_addr i → s.mem_map i ≢ 0
  pub in_memory : old_page s q < 2 ^ 24
  pub apart : frame q ≢ old_page s q

-- `t` is `s` with a fresh page `nr` that holds a copy of the old one, named by the entry at `q`.
pub record Copied (s : Mm) (q nr : ℕ) (t : Mm) : Type 0 where
  pub was_free : s.mem_map nr ≡ 0
  pub words :
      (b : ℕ)
      → t.word b ≡ (
          if frame b == page_addr nr
          then s.word (b - page_addr nr + old_page s q)
          else if b == q
          then or_seven (page_addr nr)
          else s.word b)
  pub bytes :
      (j : ℕ)
      → t.mem_map j ≡ (
          if j == nr
          then 1
          else if leb low_mem (old_page s q) && j == map_nr (old_page s q)
          then s.mem_map j - 1
          else s.mem_map j)
  pub slots : t.shared_pages ≡ s.shared_pages

-- The page of the entry has another owner, or lies below LOW_MEM.
abbrev pub NotSole : Mm → ℕ → Type 0
NotSole s q = (old_page s q < low_mem) ⊎ (s.mem_map (map_nr (old_page s q)) ≢ 1)

pub data UnWp (s : Mm) (q : ℕ) : Outcome (Unit {0}) → Type 0 where
  sole :
      low_mem ≤ old_page s q
      → s.mem_map (map_nr (old_page s q)) ≡ 1
      → (t : Mm) → t ≡ record s { word = update s.word q (set_rw (s.word q)) }
      → UnWp s q (ok tt t)
  copied : NotSole s q → (nr : ℕ) (t : Mm) → Copied s q nr t → UnWp s q (ok tt t)
  no_page :
      NotSole s q
      → ((j : ℕ) → j < paging_pages → s.mem_map j ≢ 0)
      → (t : Mm) → t ≡ record s { log = out_of_memory ∷ s.log }
      → UnWp s q (killed t)

module _ (s : Mm) (q : ℕ) (v : Valid s) (h : Protected s q) where
  -- What un_wp_page does behind get_free_page.
  module _ (nr : ℕ) (top : Highest s.mem_map paging_pages nr) where
    abbrev words : ℕ → ℕ
    words =
        copy_words (update (zero_page s.word (page_addr nr)) q (or_seven (page_addr nr)))
          (old_page s q) (page_addr nr)

    old_ne : old_page s q ≢ page_addr nr
    old_ne e = h.page_used nr e top.free

    table_ne : frame q ≢ page_addr nr
    table_ne e = h.table_used nr e top.free

    words_lem :
        (b : ℕ)
        → words b ≡ (
            if frame b == page_addr nr
            then s.word (b - page_addr nr + old_page s q)
            else if b == q
            then or_seven (page_addr nr)
            else s.word b)
    words_lem b = elim (ℕ_discrete (frame b) (page_addr nr)) [
      | yes e ↦
          rw
            (
              e,
              ==_refl (page_addr nr),
              le→leb (page_addr nr) b (omega arith),
              lt→ltb b (page_addr nr + 4096) (omega arith),
              ne→==_false (b - page_addr nr + old_page s q) q (λ x. h.apart (omega (arith, x))),
            )
            (zero_page_outside s.word (page_addr nr) _ (omega arith)
              (λ x. old_ne (omega (arith, x))))
      | no ne ↦ rw (ne→==_false (frame b) (page_addr nr) ne) (
          copy_words_outside (update (zero_page s.word (page_addr nr)) q (or_seven (page_addr nr)))
            (old_page s q) (page_addr nr) b (omega arith) ne
          ∙ rw (zero_page_outside s.word (page_addr nr) b (omega arith) ne))
    ]

    nr_ne : low_mem ≤ old_page s q → map_nr (old_page s q) ≢ nr
    nr_ne low e = old_ne (omega arith)

    -- The old page is above LOW_MEM, and has more than one owner.
    high-Copied :
        low_mem ≤ old_page s q
        → Copied s q nr (record s {
          mem_map =
              update
                (update s.mem_map nr 1)
                (map_nr (old_page s q))
                (s.mem_map (map_nr (old_page s q)) - 1);
          word = words;
        })
    high-Copied low = record {
      was_free = top.free;
      words = words_lem;
      bytes = λ j. rw (le→leb _ _ low) (elim (ℕ_discrete j (map_nr (old_page s q))) [
        | yes e ↦
            rw (
              e,
              ==_refl (map_nr (old_page s q)),
              ne→==_false (map_nr (old_page s q)) nr (nr_ne low),
            )
        | no ne ↦ rw (ne→==_false j (map_nr (old_page s q)) ne)
      ]);
      slots = refl;
    }

    low-Copied :
        old_page s q < low_mem
        → Copied s q nr (record s { mem_map = update s.mem_map nr 1; word = words })
    low-Copied low = record {
      was_free = top.free;
      words = words_lem;
      bytes = λ j. rw (lt→leb_false _ _ low);
      slots = refl;
    }

  in_map : low_mem ≤ old_page s q → ltb (map_nr (old_page s q)) paging_pages ≡ true
  in_map low = lt→ltb _ _ (omega (arith, h.in_memory))

  low-UnWp :
      old_page s q < low_mem
      → (a : ℕ) × (t : Mm) × (get_free_page s ≡ ok a t) × (Taken s a t ⊎ NoPage s a t)
      → UnWp s q (un_wp_page q s)
  unfolding un_wp_page
  low-UnWp low (a, t, run, inl taken) =
      rw
        (
          lt→ltb _ _ low,
          run,
          taken.at_page,
          taken.state,
          ne→==_false (page_addr taken.nr) 0 (omega arith),
          lt→leb_false _ _ low,
        )
        (copied (inl low) taken.nr _ (low-Copied taken.nr taken.highest low))
  low-UnWp low (a, t, run, inr none_left) =
      rw (lt→ltb _ _ low, run, none_left.null, none_left.same)
        (no_page (inl low) none_left.all_used _ refl)

  high-UnWp :
      low_mem ≤ old_page s q
      → s.mem_map (map_nr (old_page s q)) ≢ 1
      → (a : ℕ) × (t : Mm) × (get_free_page s ≡ ok a t) × (Taken s a t ⊎ NoPage s a t)
      → UnWp s q (un_wp_page q s)
  unfolding un_wp_page
  high-UnWp low more (a, t, run, inl taken) =
      rw
        (
          le→ltb_false _ _ low,
          in_map low,
          ne→==_false _ 1 more,
          run,
          taken.at_page,
          taken.state,
          ne→==_false (page_addr taken.nr) 0 (omega arith),
          le→leb _ _ low,
          in_map low,
          in_map low,
          ne→==_false (map_nr (old_page s q)) taken.nr (nr_ne taken.nr taken.highest low),
          dec,
        )
        (copied (inr more) taken.nr _ (high-Copied taken.nr taken.highest low))
    where
      dec : (s.mem_map (map_nr (old_page s q)) + 255) % 256 ≡ s.mem_map (map_nr (old_page s q)) - 1
      dec = omega (
        arith,
        v.byte (map_nr (old_page s q)),
        h.page_used (map_nr (old_page s q)) (omega (arith, h.in_memory)),
      )
  high-UnWp low more (a, t, run, inr none_left) =
      rw
        (
          le→ltb_false _ _ low,
          in_map low,
          ne→==_false _ 1 more,
          run,
          none_left.null,
          none_left.same,
        )
        (no_page (inr more) none_left.all_used _ refl)

-- At a protected entry in a valid state un_wp_page always ends, as `UnWp` lists. If the entry's
-- page lies above LOW_MEM and has one owner, only the entry changes, to a writable one; only then.
-- Otherwise a free page gets the words of the old page, the entry names it with the bits 7, no other word
-- changes, the new page has one owner and the old one, if above LOW_MEM, one less; or no page is
-- free and the process ends with nothing changed but the log.
pub un_wp_page-UnWp : (s : Mm) (q : ℕ) → Valid s → Protected s q → UnWp s q (un_wp_page q s)
unfolding un_wp_page
un_wp_page-UnWp s q v h = elim (Bool-cases (ltb (old_page s q) low_mem)) [
  | inl low ↦ low-UnWp s q v h (ltb→lt _ _ low) (get_free_page-total s)
  | inr high ↦
      let le : low_mem ≤ old_page s q = ltb_false→le _ _ high in
      elim (ℕ_discrete (s.mem_map (map_nr (old_page s q))) 1) [
        | yes one ↦ rw (high, in_map s q v h le, one) (sole le one _ refl)
        | no more ↦ high-UnWp s q v h le more (get_free_page-total s)
      ]
]
