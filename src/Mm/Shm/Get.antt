-- ===== src/Mm/Shm/Get.antt =====
-- sys_shmget: the slot that a key names, and the reference that a call takes.
use hack_linux.Base.{
  ltb, leb, ◌==◌, ltb→lt, ltb_false→le, le→ltb_false, leb→le, lt→leb_false, ne→==_false, ==_refl,
  Bool-cases, update, ℕ, ◌+◌, ◌^◌, ◌≤◌, ◌<◌, ◌≡◌, refl, sym, ◌∙◌, ◌≢◌, ◌⊎◌, inl, inr, true, false,
  ◌∷◌, arith, ℕ_discrete,
}
use hack_linux.Base.Int.{ℤ, pos}
use hack_linux.Mm.{
  paging_pages, page_size, max_shared_pages_num, SharedPage, shmget_size, shmget_key,
  shmget_no_page, Mm, Outcome, ok, zero_page,
}
use hack_linux.Mm.Frames.{page_addr, get_free_page, live}
use hack_linux.Mm.Frames.Alloc.{Highest, Taken, NoPage, get_free_page-total}
use hack_linux.Mm.Frames.Release.{
  refs, Unique, attached-update, live-ne, attached-update_ne, attached-live, attached-idle,
}
use hack_linux.Mm.Frames.Valid.{Held, idle, holds, Valid}
use hack_linux.Mm.Shm.{einval, enomem, in_use, one_more, sys_shmget}
use mathlib.Core.Bool.{false≢true}

-- Page `i` has one reference more, and every other page has as many as before.
pub record OneMore (s : Mm) (i : ℕ) (t : Mm) : Type 0 where
  pub one_more : refs t i ≡ refs s i + 1
  pub others : (j : ℕ) → j ≢ i → refs t j ≡ refs s j

-- The slot of the key holds page `i` with the attachments, and every other slot is as before.
pub record Slot (s : Mm) (key i attached : ℕ) (t : Mm) : Type 0 where
  pub page : (t.shared_pages key).physical_address ≡ page_addr i
  pub count : (t.shared_pages key).count ≡ attached
  pub others : (k : ℕ) → k ≢ key → t.shared_pages k ≡ s.shared_pages k

-- What sys_shmget returns.
pub data Shmget (s : Mm) (key size : ℕ) : Outcome ℤ → Type 0 where
  too_large :
      page_size < size
      → (t : Mm) → t ≡ record s { log = shmget_size ∷ s.log }
      → Shmget s key size (ok einval t)
  bad_key :
      size ≤ page_size
      → max_shared_pages_num ≤ key
      → (t : Mm) → t ≡ record s { log = shmget_key ∷ s.log }
      → Shmget s key size (ok enomem t)
  exists :
      size ≤ page_size
      → key < max_shared_pages_num
      → 0 < (s.shared_pages key).count
      → (i : ℕ) → (s.shared_pages key).physical_address ≡ page_addr i
      → (t : Mm) → OneMore s i t
      → Slot s key i ((s.shared_pages key).count + 1) t
      → t.mem_map ≡ s.mem_map
      → Valid t
      → Shmget s key size (ok (pos key) t)
  created :
      size ≤ page_size
      → key < max_shared_pages_num
      → (s.shared_pages key).count ≡ 0
      → (i : ℕ) → refs s i ≡ 0
      → Highest s.mem_map paging_pages i
      → (t : Mm) → OneMore s i t
      → Slot s key i 1 t
      → t.mem_map ≡ update s.mem_map i 1
      → Valid t
      → Shmget s key size (ok (pos key) t)
  no_page :
      size ≤ page_size
      → key < max_shared_pages_num
      → (s.shared_pages key).count ≡ 0
      → ((j : ℕ) → j < paging_pages → s.mem_map j ≢ 0)
      → (t : Mm) → t ≡ record s { log = shmget_no_page ∷ s.log }
      → Shmget s key size (ok enomem t)

-- The slot is in use.
module _ (s : Mm) (key : ℕ) (v : Valid s) (small : key < max_shared_pages_num)
    (room : (s.shared_pages key).count + 1 < 2 ^ 32) (i : ℕ) (busy : 0 < (s.shared_pages key).count)
    (at : (s.shared_pages key).physical_address ≡ page_addr i) where
  abbrev more : ℕ → SharedPage
  more = update s.shared_pages key (one_more (s.shared_pages key))

  more_tests : (k a : ℕ) → live (more k) a ≡ live (s.shared_pages k) a
  more_tests k a = elim (Bool-cases (k == key)) [
    | inl here ↦ let e : k ≡ key = ground arith in rw (e, ==_refl key) (ground arith)
    | inr other ↦ rw other
  ]

  more-Unique : Unique more
  more-Unique a k j p q h h' =
      v.unique a k j p q (sym (more_tests k a) ∙ h) (sym (more_tests j a) ∙ h')

  live_key : live (s.shared_pages key) (page_addr i) ≡ true
  live_key = ground arith

  more-OneMore : OneMore s i (record s { shared_pages = more })
  more-OneMore = record {
    one_more = omega (
      arith,
      attached-live s.shared_pages (page_addr i) key v.unique small live_key,
      attached-live more (page_addr i) key more-Unique small
          (more_tests key (page_addr i) ∙ live_key),
      count_more,
    );
    others = λ j ne. omega (
      arith,
      attached-update_ne s.shared_pages (page_addr j) key (one_more (s.shared_pages key)) refl
          (omega (arith, at)),
    );
  }
    where
      count_more : (more key).count ≡ (s.shared_pages key).count + 1
      count_more = rw (==_refl key) (omega arith)

  more-Valid : Valid (record s { shared_pages = more })
  more-Valid = record {
    high = v.high;
    byte = v.byte;
    unique = more-Unique;
    above = v.above;
    held = λ k p. keep k (v.held k p);
  }
    where
      keep : (k : ℕ) → Held s k → Held (record s { shared_pages = more }) k
      keep k (holds n q e ne) = holds n q (ground arith) ne
      keep k (idle z) = idle (ground arith)

-- The slot is not in use, and get_free_page takes page `nr`.
module _ (s : Mm) (key : ℕ) (v : Valid s) (small : key < max_shared_pages_num)
    (free : (s.shared_pages key).count ≡ 0) (nr : ℕ) (h : Highest s.mem_map paging_pages nr) where
  abbrev new_slot : SharedPage
  new_slot = one_more (record (s.shared_pages key) { physical_address = page_addr nr })

  abbrev slots : ℕ → SharedPage
  slots = update s.shared_pages key new_slot

  abbrev made : Mm
  made = record s {
    mem_map = update s.mem_map nr 1;
    word = zero_page s.word (page_addr nr);
    shared_pages = slots;
  }

  -- No slot in use holds a free page.
  not_held : (k : ℕ) → k < max_shared_pages_num → live (s.shared_pages k) (page_addr nr) ≡ false
  not_held k p = go (v.held k p)
    where
      go : Held s k → live (s.shared_pages k) (page_addr nr) ≡ false
      go (idle z) = ground arith
      go (holds i q e ne) = live-ne (s.shared_pages k) (page_addr nr) (ground (arith, h.free))

  one : new_slot.count ≡ 1
  one = rw free

  new_test : live new_slot (page_addr nr) ≡ true
  new_test = ground (arith, one)

  other_test : (a : ℕ) → a ≢ page_addr nr → live new_slot a ≡ live (s.shared_pages key) a
  other_test a ne = rw (live-ne new_slot a ne) (ground arith)

  slots-Unique : Unique slots
  slots-Unique a k j p q = elim (ℕ_discrete a (page_addr nr)) [
    | yes e ↦ rw e (λ x y. only k p x ∙ sym (only j q y))
    | no ne ↦ λ x y. v.unique a k j p q (sym (old a ne k) ∙ x) (sym (old a ne j) ∙ y)
  ]
    where
      only : (k : ℕ) → k < max_shared_pages_num → live (slots k) (page_addr nr) ≡ true → k ≡ key
      only k p = elim (ℕ_discrete k key) [
        | yes e ↦ λ x. e
        | no ne ↦ rw (ne→==_false k key ne) (λ x. absurd (false≢true (sym (not_held k p) ∙ x)))
      ]

      old : (a : ℕ) → a ≢ page_addr nr → (k : ℕ) → live (slots k) a ≡ live (s.shared_pages k) a
      old a ne k = elim (Bool-cases (k == key)) [
        | inl here ↦ let e : k ≡ key = ground arith in rw (e, ==_refl key) (other_test a ne)
        | inr other ↦ rw other
      ]

  made-Valid : Valid made
  made-Valid = record {
    high = v.high;
    byte = λ j. ground (arith, v.byte j);
    unique = slots-Unique;
    above = λ j p q. ground (arith, v.above j p q);
    held = λ k p. keep k (v.held k p);
  }
    where
      keep : (k : ℕ) → Held s k → Held made k
      keep k old = elim (ℕ_discrete k key) [
        | yes e ↦ holds nr h.below (rw (e, ==_refl key)) (rw (==_refl nr) (omega arith))
        | no ne ↦ other k ne old
      ]
        where
          other : (k : ℕ) → k ≢ key → Held s k → Held made k
          other k ne (idle z) = idle (rw (ne→==_false k key ne) z)
          other k ne (holds i q e used_i) = holds i q (rw (ne→==_false k key ne) e) (ground arith)

  no_refs : refs s nr ≡ 0
  no_refs = omega (arith, h.free, attached-idle s.shared_pages (page_addr nr) not_held)

  made-OneMore : OneMore s nr made
  made-OneMore = record {
    one_more = rw (==_refl nr) (
        omega (
          arith,
          no_refs,
          attached-live slots (page_addr nr) key slots-Unique small (rw (==_refl key) new_test),
          count_one,
        ));
    others = λ j ne. rw (ne→==_false j nr ne) (
        omega (
          arith,
          attached-update s.shared_pages (page_addr j) key new_slot
              (other_test (page_addr j) (omega arith)) (λ x. absurd (old j ne x)),
        ));
  }
    where
      count_one : (slots key).count ≡ 1
      count_one = rw (==_refl key) one

      old : (j : ℕ) → j ≢ nr → live new_slot (page_addr j) ≡ true → ⊥
      old j ne = rw (live-ne new_slot (page_addr j) (omega arith)) false≢true

module _ (s : Mm) (key size : ℕ) (v : Valid s) (le : size ≤ page_size)
    (small : key < max_shared_pages_num) where
  Shmget-old :
      (s.shared_pages key).count + 1 < 2 ^ 32
      → in_use (s.shared_pages key) ≡ true
      → Held s key
      → Shmget s key size (
          ok
            (pos key)
            (record s { shared_pages = update s.shared_pages key (one_more (s.shared_pages key)) }))
  Shmget-old room busy (idle z) = absurd (ground arith)
  Shmget-old room busy (holds i p at ne) =
      let some_count : 0 < (s.shared_pages key).count = ground arith in
      exists le small some_count i at _ (more-OneMore s key v small room i some_count at)
        (record {
          page = rw (==_refl key) at;
          count = rw (==_refl key) (omega arith);
          others = λ k ne. rw (ne→==_false k key ne);
        })
        refl (more-Valid s key v small room i some_count at)

  unused : in_use (s.shared_pages key) ≡ false → Held s key → (s.shared_pages key).count ≡ 0
  unused free (idle z) = z
  unused free (holds i p e ne) = ground arith

  Shmget-new :
      in_use (s.shared_pages key) ≡ false
      → (s.shared_pages key).count ≡ 0
      → (a : ℕ) × (t : Mm) × (get_free_page s ≡ ok a t) × (Taken s a t ⊎ NoPage s a t)
      → Shmget s key size (sys_shmget key size s)
  unfolding sys_shmget
  Shmget-new free z (a, t, run, inr none_left) =
      rw (le→ltb_false _ _ le, lt→leb_false _ _ small, free, run, none_left.null, none_left.same)
        (no_page le small z none_left.all_used _ refl)
  Shmget-new free z (a, t, run, inl taken) =
      rw
        (
          le→ltb_false _ _ le,
          lt→leb_false _ _ small,
          free,
          run,
          taken.at_page,
          taken.state,
          ne→==_false (page_addr taken.nr) 0 (omega arith),
        )
        (created le small z taken.nr (no_refs s key v small z taken.nr taken.highest) taken.highest
          _ (made-OneMore s key v small z taken.nr taken.highest)
          (record {
            page = rw (==_refl key);
            count = rw (==_refl key) (one s key v small z taken.nr taken.highest);
            others = λ k ne. rw (ne→==_false k key ne);
          })
          refl (made-Valid s key v small z taken.nr taken.highest))

-- In a valid state, while no count is about to wrap, sys_shmget always returns, as `Shmget` lists.
-- A size above PAGE_SIZE gives -EINVAL and a key from MAX_SHARED_PAGES_NUM on gives -ENOMEM, with
-- nothing changed but the log; so does a slot that is not in use when no page is free. Otherwise
-- the key is returned and no other slot changes: a slot in use keeps its page and has one attachment
-- more, with `mem_map` as it was; a slot that is not gets the highest free page, which had no
-- reference, and one attachment, and only that page's byte of `mem_map` changes. The page has one
-- reference more than before, all other pages have as many as before, and the state is valid.
pub sys_shmget-Shmget :
    (s : Mm) (key size : ℕ)
    → Valid s
    → (s.shared_pages key).count + 1 < 2 ^ 32
    → Shmget s key size (sys_shmget key size s)
unfolding sys_shmget
sys_shmget-Shmget s key size v room = elim (Bool-cases (ltb page_size size)) [
  | inl big ↦ rw big (too_large (ltb→lt _ _ big) _ refl)
  | inr fits ↦ elim (Bool-cases (leb max_shared_pages_num key)) [
    | inl bad ↦ rw (fits, bad) (bad_key (ltb_false→le _ _ fits) (leb→le _ _ bad) _ refl)
    | inr good ↦
        let le : size ≤ page_size = ltb_false→le _ _ fits in
        let small : key < max_shared_pages_num = ground arith in
        elim (Bool-cases (in_use (s.shared_pages key))) [
          | inl busy ↦
              rw (fits, good, busy) (Shmget-old s key size v le small room busy (v.held key small))
          | inr free ↦
              Shmget-new s key size v le small free
                (unused s key size v le small free (v.held key small)) (get_free_page-total s)
        ]
  ]
]
