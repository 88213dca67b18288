-- ===== src/Mm/Frames/Release.antt =====
-- free_page with release_shared_page_if_exists: how many references a page has, and that freeing
-- gives back one.
use hack_linux.Base.{
  ◌==◌, ==_refl, Bool-cases, Option-cases, update, ℕ, zero, suc, ◌+◌, ◌-◌, ◌≤◌, ◌<◌, ◌≡◌, refl, sym,
  ap, ◌∙◌, ◌≢◌, inl, inr, true, false, none, some, arith,
}
use hack_linux.Mm.{max_shared_pages_num, SharedPage, Mm, ok}
use hack_linux.Mm.Frames.{page_addr, live, find_shared, drop_count, release_shared_page_if_exists}
use mathlib.Core.Bool.{false≢true}

-- The processes that hold slot `i`'s page beyond the one that `mem_map` counts, where `p` is the
-- slot's address.
unfoldable pub attached : (ℕ → SharedPage) → ℕ → ℕ
attached f a = elim (find_shared f a max_shared_pages_num 0) [ none ↦ 0 | some i ↦ (f i).count ]

abbrev pub refs : Mm → ℕ → ℕ
refs s i = s.mem_map i + (attached s.shared_pages (page_addr i) - 1)

-- No two slots in use hold the same page.
abbrev pub Unique : (ℕ → SharedPage) → Type 0
Unique f =
    (a i j : ℕ)
    → i < max_shared_pages_num
    → j < max_shared_pages_num
    → live (f i) a ≡ true
    → live (f j) a ≡ true
    → i ≡ j

pub record Found (f : ℕ → SharedPage) (a n i k : ℕ) : Type 0 where
  pub low : i ≤ k
  pub high : k < i + n
  pub hit : live (f k) a ≡ true

pub find_shared-Found :
    (f : ℕ → SharedPage) (a n i : ℕ) {k : ℕ} → find_shared f a n i ≡ some k → Found f a n i k
unfolding find_shared
find_shared-Found f a zero i e = absurd (ground arith)
find_shared-Found f a (suc n) i {k} e = elim (Bool-cases (live (f i) a)) [
  | inl hit ↦
      let at : i ≡ k = ground arith in
      record { low = omega arith; high = omega arith; hit = rw (← at) hit }
  | inr miss ↦
      let r : Found f a n (i + 1) k = find_shared-Found f a n (i + 1) (ground arith) in
      record { low = omega arith; high = omega arith; hit = r.hit }
]

pub find_shared-none :
    (f : ℕ → SharedPage) (a n i j : ℕ)
    → find_shared f a n i ≡ none
    → i ≤ j
    → j < i + n
    → live (f j) a ≡ false
unfolding find_shared
find_shared-none f a zero i j e p q = absurd (omega arith)
find_shared-none f a (suc n) i j e p q = elim (Bool-cases (live (f i) a)) [
  | inl hit ↦ absurd (ground arith)
  | inr miss ↦ elim (Bool-cases (i == j)) [
    | inl here ↦ let at : i ≡ j = ground arith in rw (← at) miss
    | inr past ↦ find_shared-none f a n (i + 1) j (ground arith) (ground arith) (omega arith)
  ]
]

pub find_shared-absent :
    (f : ℕ → SharedPage) (a n i : ℕ)
    → ((j : ℕ) → i ≤ j → j < i + n → live (f j) a ≡ false)
    → find_shared f a n i ≡ none
unfolding find_shared
find_shared-absent f a zero i h = refl
find_shared-absent f a (suc n) i h =
    rw (h i (omega arith) (omega arith))
      (find_shared-absent f a n (i + 1) (λ j p q. h j (omega arith) (omega arith)))

-- The search reads the slots only through the test.
pub find_shared-congr :
    (f g : ℕ → SharedPage) (a n i : ℕ)
    → ((j : ℕ) → live (f j) a ≡ live (g j) a)
    → find_shared f a n i ≡ find_shared g a n i
unfolding find_shared
find_shared-congr f g a zero i h = refl
find_shared-congr f g a (suc n) i h = rw (h i, find_shared-congr f g a n (i + 1) h)

pub attached-some :
    (f : ℕ → SharedPage) (a : ℕ) {k : ℕ}
    → find_shared f a max_shared_pages_num 0 ≡ some k
    → attached f a ≡ (f k).count
unfolding attached
attached-some f a e = rw (e, attached)

pub attached-none :
    (f : ℕ → SharedPage) (a : ℕ) → find_shared f a max_shared_pages_num 0 ≡ none → attached f a ≡ 0
unfolding attached
attached-none f a e = rw (e, attached)

-- Slots that answer the test alike and, where they pass it, have one count.
pub attached-congr :
    (f g : ℕ → SharedPage) (a : ℕ)
    → ((j : ℕ) → live (f j) a ≡ live (g j) a)
    → ((j : ℕ) → live (f j) a ≡ true → (f j).count ≡ (g j).count)
    → attached f a ≡ attached g a
unfolding attached
attached-congr f g a same counts = elim (Option-cases (find_shared f a max_shared_pages_num 0)) [
  | inl e ↦ rw (attached-none f a e, attached-none g a (sym (agree) ∙ e))
  | inr (k, e) ↦
      attached-some f a e
      ∙ counts k (Found.hit (find_shared-Found f a max_shared_pages_num 0 e))
      ∙ sym (attached-some g a (sym agree ∙ e))
]
  where
    agree : find_shared f a max_shared_pages_num 0 ≡ find_shared g a max_shared_pages_num 0
    agree = find_shared-congr f g a max_shared_pages_num 0 same

-- A change of slot `k` that the test and the count do not show.
pub attached-update :
    (f : ℕ → SharedPage) (a k : ℕ) (p : SharedPage)
    → live p a ≡ live (f k) a
    → (live p a ≡ true → p.count ≡ (f k).count)
    → attached (update f k p) a ≡ attached f a
attached-update f a k p same count = attached-congr (update f k p) f a tests counts
  where
    tests : (j : ℕ) → live (update f k p j) a ≡ live (f j) a
    tests j = elim (Bool-cases (j == k)) [
      | inl here ↦ let e : j ≡ k = ground arith in rw (e, ==_refl k) same
      | inr other ↦ rw other
    ]

    counts : (j : ℕ) → live (update f k p j) a ≡ true → (update f k p j).count ≡ (f j).count
    counts j = elim (Bool-cases (j == k)) [
      | inl here ↦ let e : j ≡ k = ground arith in rw (e, ==_refl k) count
      | inr other ↦ rw other (λ h. refl)
    ]

-- A slot of another address fails the test.
pub live-ne : (p : SharedPage) (a : ℕ) → a ≢ p.physical_address → live p a ≡ false
live-ne p a ne = ground arith

-- A change of slot `k` that keeps its address is not seen at another address.
pub attached-update_ne :
    (f : ℕ → SharedPage) (a k : ℕ) (p : SharedPage)
    → p.physical_address ≡ (f k).physical_address
    → a ≢ (f k).physical_address
    → attached (update f k p) a ≡ attached f a
attached-update_ne f a k p same ne =
    attached-update f a k p (old ∙ sym (live-ne (f k) a ne))
      (λ h. absurd (false≢true (sym old ∙ h)))
  where
    old : live p a ≡ false
    old = live-ne p a (λ e. ne (e ∙ same))

-- The slot that passes the test is the one that the search finds.
pub attached-live :
    (f : ℕ → SharedPage) (a k : ℕ)
    → Unique f
    → k < max_shared_pages_num
    → live (f k) a ≡ true
    → attached f a ≡ (f k).count
attached-live f a k u p h = elim (Option-cases (find_shared f a max_shared_pages_num 0)) [
  | inl e ↦ absurd (
      false≢true
        (sym (find_shared-none f a max_shared_pages_num 0 k e (omega arith) (omega arith)) ∙ h))
  | inr (j, e) ↦
      let r : Found f a max_shared_pages_num 0 j = find_shared-Found f a max_shared_pages_num 0 e in
      let same : j ≡ k = u a j k (omega (arith, r.high)) p r.hit h in
      attached-some f a e ∙ ap (λ i. (f i).count) same
]

pub attached-idle :
    (f : ℕ → SharedPage) (a : ℕ)
    → ((k : ℕ) → k < max_shared_pages_num → live (f k) a ≡ false)
    → attached f a ≡ 0
attached-idle f a h =
    attached-none f a (find_shared-absent f a max_shared_pages_num 0 (λ j p q. h j (omega arith)))

-- What release_shared_page_if_exists does to a page whose slot is `k`.
module _ (f : ℕ → SharedPage) (a k : ℕ)
    (found : find_shared f a max_shared_pages_num 0 ≡ some k) where
  pub hit : Found f a max_shared_pages_num 0 k
  hit = find_shared-Found f a max_shared_pages_num 0 found

  same_test : (f k).count ≢ 1 → (j : ℕ) → live (update f k (drop_count (f k)) j) a ≡ live (f j) a
  same_test ne j = elim (Bool-cases (j == k)) [
    | inl same ↦ let e : j ≡ k = ground arith in rw (e, ==_refl k) (ground (arith, hit.hit))
    | inr other ↦ rw other
  ]

  pub released_kept : (f k).count ≢ 1 → attached (update f k (drop_count (f k))) a ≡ (f k).count - 1
  released_kept ne =
      let g = update f k (drop_count (f k)) in
      attached-some g a (find_shared-congr g f a max_shared_pages_num 0 (same_test ne) ∙ found)
      ∙ rw (==_refl k)

  pub gone_test :
      Unique f
      → (f k).count ≡ 1
      → (j : ℕ) → j < max_shared_pages_num
      → live (update f k (drop_count (f k)) j) a ≡ false
  gone_test u e j p = elim (Bool-cases (j == k)) [
    | inl same ↦ let at : j ≡ k = ground arith in rw (at, ==_refl k, e) (ground arith)
    | inr other ↦ rw other (elim (Bool-cases (live (f j) a)) [
      | inl both ↦ absurd (ground (arith, u a j k p (omega (arith, hit.high)) both hit.hit))
      | inr miss ↦ miss
    ])
  ]

  pub released_last : Unique f → (f k).count ≡ 1 → attached (update f k (drop_count (f k))) a ≡ 0
  released_last u e =
      let g = update f k (drop_count (f k)) in
      attached-none g a
        (find_shared-absent g a max_shared_pages_num 0 (λ j q p. gone_test u e j (omega arith)))

-- A slot whose count falls passes no test that it failed before.
pub Unique-drop : (f : ℕ → SharedPage) (k : ℕ) → Unique f → Unique (update f k (drop_count (f k)))
Unique-drop f k u a i j p q h h' = u a i j p q (back i h) (back j h')
  where
    back : (i : ℕ) → live (update f k (drop_count (f k)) i) a ≡ true → live (f i) a ≡ true
    back i = elim (Bool-cases (i == k)) [
      | inl here ↦ let e : i ≡ k = ground arith in rw (e, ==_refl k) (λ h. ground arith)
      | inr other ↦ rw other (λ h. h)
    ]

module _ (s : Mm) (nr : ℕ) where
  pub release-none :
      find_shared s.shared_pages (page_addr nr) max_shared_pages_num 0 ≡ none
      → release_shared_page_if_exists nr s ≡ ok true s
  unfolding release_shared_page_if_exists
  release-none e = rw (e, release_shared_page_if_exists)

  pub release-some :
      (k : ℕ)
      → find_shared s.shared_pages (page_addr nr) max_shared_pages_num 0 ≡ some k
      → release_shared_page_if_exists nr s
        ≡ ok
            ((drop_count (s.shared_pages k)).count == 0)
            (record s { shared_pages = update s.shared_pages k (drop_count (s.shared_pages k)) })
  unfolding release_shared_page_if_exists
  release-some k e = rw (e, release_shared_page_if_exists)
