-- ===== src/Mm/Frames/Free.antt =====
-- free_page: which page it gives back, and on which inputs it panics.
use hack_linux.Base.{
  ne→==_false, ==_refl, update, ℕ, ◌+◌, ◌-◌, ◌<◌, ◌≡◌, refl, ◌≢◌, none, some, arith,
}
use hack_linux.Mm.{max_shared_pages_num, SharedPage, Mm}
use hack_linux.Mm.Frames.{page_addr, find_shared, drop_count}
use hack_linux.Mm.Frames.Release.{
  attached, refs, Unique, attached-some, attached-none, attached-update_ne, hit, released_kept,
  released_last, Unique-drop,
}

-- What a successful free_page leaves.
pub record GaveBack (s : Mm) (i : ℕ) (t : Mm) : Type 0 where
  pub one_less : refs t i + 1 ≡ refs s i
  pub others : (j : ℕ) → j ≢ i → refs t j ≡ refs s j
  pub word : t.word ≡ s.word
  pub high : t.high_memory ≡ s.high_memory
  pub unique : Unique t.shared_pages

-- The state with one byte of `mem_map` and the slots replaced.
abbrev pub after : Mm → ℕ → ℕ → (ℕ → SharedPage) → Mm
after s i c f = record s { mem_map = update s.mem_map i c; shared_pages = f }

module _ (s : Mm) (i : ℕ) (u : Unique s.shared_pages) where
  pub unshared-GaveBack :
      find_shared s.shared_pages (page_addr i) max_shared_pages_num 0 ≡ none
      → s.mem_map i ≢ 0
      → GaveBack s i (after s i (s.mem_map i - 1) s.shared_pages)
  unshared-GaveBack e ne = record {
    one_less = rw (==_refl i) (omega (arith, attached-none _ _ e));
    others = λ j h. rw (ne→==_false j i h);
    word = refl;
    high = refl;
    unique = u;
  }

  -- Slot `k` holds the page.
  module _ (k : ℕ)
      (e : find_shared s.shared_pages (page_addr i) max_shared_pages_num 0 ≡ some k) where
    abbrev pub dropped : ℕ → SharedPage
    dropped = update s.shared_pages k (drop_count (s.shared_pages k))

    address : (s.shared_pages k).physical_address ≡ page_addr i
    address = ground (arith, (hit s.shared_pages (page_addr i) k e).hit)

    other_pages :
        (j : ℕ) → j ≢ i → attached dropped (page_addr j) ≡ attached s.shared_pages (page_addr j)
    other_pages j ne =
        attached-update_ne s.shared_pages (page_addr j) k _ refl (omega (arith, address))

    pub last-GaveBack :
        (s.shared_pages k).count ≡ 1
        → s.mem_map i ≢ 0
        → GaveBack s i (after s i (s.mem_map i - 1) dropped)
    last-GaveBack one ne = record {
      one_less = rw (==_refl i) (
          omega (arith, released_last s.shared_pages (page_addr i) k e u one, attached-some _ _ e));
      others = λ j h. rw (ne→==_false j i h) (omega (arith, other_pages j h));
      word = refl;
      high = refl;
      unique = Unique-drop s.shared_pages k u;
    }

    pub kept-GaveBack :
        (s.shared_pages k).count ≢ 1 → GaveBack s i (record s { shared_pages = dropped })
    kept-GaveBack more = record {
      one_less = omega (
        arith,
        released_kept s.shared_pages (page_addr i) k e more,
        attached-some _ _ e,
        count_pos,
      );
      others = λ j h. omega (arith, other_pages j h);
      word = refl;
      high = refl;
      unique = Unique-drop s.shared_pages k u;
    }
      where
        count_pos : 0 < (s.shared_pages k).count
        count_pos = ground (arith, (hit s.shared_pages (page_addr i) k e).hit)
