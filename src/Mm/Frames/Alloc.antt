-- ===== src/Mm/Frames/Alloc.antt =====
-- What get_free_page returns and changes.
use hack_linux.Base.{
  ℕ, zero, suc, ◌<◌, ◌≡◌, refl, ◌≢◌, ◌⊎◌, inl, inr, none, some, arith, ◌==◌, update, Option-cases,
  Bool-cases,
}
use hack_linux.Mm.{Mm, ok, paging_pages, zero_page}
use hack_linux.Mm.Frames.{scan, page_addr, get_free_page}

pub scan-none : (m : ℕ → ℕ) (n : ℕ) → scan m n ≡ none → (j : ℕ) → j < n → m j ≢ 0
unfolding scan
scan-none m zero e j h = elim h [ ]
scan-none m (suc n) e j h = elim (Bool-cases (j == n)) [
  | inl here ↦ ground arith
  | inr below ↦ scan-none m n (ground arith) j (ground arith)
]

pub record Highest (m : ℕ → ℕ) (n i : ℕ) : Type 0 where
  pub below : i < n
  pub free : m i ≡ 0
  pub rest_used : (j : ℕ) → i < j → j < n → m j ≢ 0

pub scan-Highest : (m : ℕ → ℕ) (n : ℕ) {i : ℕ} → scan m n ≡ some i → Highest m n i
unfolding scan
scan-Highest m zero e = absurd (ground arith)
scan-Highest m (suc n) {i} e = elim (Bool-cases (m n == 0)) [
  | inl free ↦ record {
    below = ground arith;
    free = ground arith;
    rest_used = λ j p q. ground arith;
  }
  | inr taken ↦
      let h : Highest m n i = scan-Highest m n (ground arith) in
      record {
        below = ground arith;
        free = h.free;
        rest_used = λ j p q. elim (Bool-cases (j == n)) [
          | inl here ↦ ground arith
          | inr below ↦ h.rest_used j p (ground arith)
        ];
      }
]

pub record Taken (s : Mm) (a : ℕ) (t : Mm) : Type 0 where
  pub nr : ℕ
  pub highest : Highest s.mem_map paging_pages nr
  pub at_page : a ≡ page_addr nr
  pub state :
      t ≡ record s { mem_map = update s.mem_map nr 1; word = zero_page s.word (page_addr nr) }

pub record NoPage (s : Mm) (a : ℕ) (t : Mm) : Type 0 where
  pub all_used : (j : ℕ) → j < paging_pages → s.mem_map j ≢ 0
  pub null : a ≡ 0
  pub same : t ≡ s

-- get_free_page always returns. If some byte of `mem_map` is 0 it takes the highest such page:
-- it sets that byte to 1, clears the page's words, changes nothing else and returns the page's
-- address. Otherwise it returns 0 and changes nothing.
pub get_free_page-total :
    (s : Mm) → (a : ℕ) × (t : Mm) × (get_free_page s ≡ ok a t) × (Taken s a t ⊎ NoPage s a t)
unfolding get_free_page
get_free_page-total s = elim (Option-cases (scan s.mem_map paging_pages)) [
  | inl e ↦ (
    0,
    s,
    rw (e, get_free_page),
    inr (record { all_used = scan-none _ _ e; null = refl; same = refl }),
  )
  | inr (i, e) ↦ (
    page_addr i,
    record s { mem_map = update s.mem_map i 1; word = zero_page s.word (page_addr i) },
    rw (e, get_free_page),
    inl (record { nr = i; highest = scan-Highest _ _ e; at_page = refl; state = refl }),
  )
]
