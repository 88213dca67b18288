-- ===== src/Mm/Copy/Entries.antt =====
-- The loop of copy_page_tables over one table: both tables end up write-protected, and every page
-- above LOW_MEM is counted once more for each entry that names it.
use hack_linux.Base.{
  ltb, ◌==◌, if◌then◌else◌, lt→ltb, ne→==_false, ==_refl, Bool-cases, update, ℕ, zero, suc, ◌+◌,
  ◌-◌, ◌*◌, ◌/◌, ◌%◌, ◌^◌, ◌<◌, ◌≡◌, refl, sym, ap, subst, ◌≢◌, inl, inr, Bool, ◌&&◌, ap₂, add-zero,
  arith, ◌≤◌, ◌∙◌, ◌⊎◌,
}
use hack_linux.Mm.{low_mem, paging_pages, Mm, ok, present, clear_rw}
use hack_linux.Mm.Copy.{copy_entry, copy_entries}

-- The entry names a page that `mem_map` counts.
abbrev pub counted : ℕ → Bool
counted e = present e && ltb low_mem (clear_rw e)

abbrev pub counted_nr : ℕ → ℕ
counted_nr e = (clear_rw e - low_mem) / 2 ^ 12

abbrev pub names : ℕ → ℕ → ℕ
names e j = if counted e && counted_nr e == j then 1 else 0

-- How many of the `n` entries from address `a` on name page `j`.
unfoldable pub count_refs : (ℕ → ℕ) → ℕ → ℕ → ℕ → ℕ
count_refs w zero a j = 0
count_refs w (suc n) a j = names (w a) j + count_refs w n (a + 4) j

-- What the source and the target of an entry `e` hold after the copy; `old` stood at the target.
abbrev pub left_at_source : ℕ → ℕ
left_at_source e = if counted e then clear_rw e else e

abbrev pub put_at_target : ℕ → ℕ → ℕ
put_at_target e old = if present e then clear_rw e else old

-- `mem_map` covers the page that the entry names.
abbrev pub Covered : ℕ → Type 0
Covered e = e < 2 ^ 24

pub count_refs-congr :
    (w w' : ℕ → ℕ) (n a j : ℕ)
    → ((i : ℕ) → i < n → w (a + 4 * i) ≡ w' (a + 4 * i))
    → count_refs w n a j ≡ count_refs w' n a j
unfolding count_refs
count_refs-congr w w' zero a j h = refl
count_refs-congr w w' (suc n) a j h =
    let first : w a ≡ w' a = rw (add-zero) at (h 0 (omega arith)) in
    ap₂ ◌+◌ (ap (λ e. names e j) first) (
      count_refs-congr w w' n (a + 4) j
        (λ i p. subst (λ b. w b ≡ w' b) (omega arith) (h (suc i) (omega arith))))

-- One round: entry `e` at `f` is copied to `g`.
record Step (s : Mm) (e f g : ℕ) (t : Mm) : Type 0 where
  run : copy_entry e f g s ≡ ok tt t
  at_target : t.word g ≡ put_at_target e (s.word g)
  at_source : t.word f ≡ left_at_source e
  others : (b : ℕ) → b ≢ f → b ≢ g → t.word b ≡ s.word b
  bytes : (j : ℕ) → t.mem_map j ≡ (s.mem_map j + names e j) % 256
  slots : t.shared_pages ≡ s.shared_pages
  high : t.high_memory ≡ s.high_memory

copy_entry-Step :
    (s : Mm) (e f g : ℕ)
    → f ≢ g
    → e ≡ s.word f
    → Covered e
    → ((j : ℕ) → s.mem_map j < 256)
    → (t : Mm) × Step s e f g t
copy_entry-Step s e f g apart at small byte = elim (Bool-cases (present e)) [
  | inr absent ↦ (
    s,
    record {
      run = rw absent;
      at_target = rw absent;
      at_source = rw absent (sym at);
      others = λ b p q. refl;
      bytes = λ j. rw absent (omega (arith, byte j));
      slots = refl;
      high = refl;
    },
  )
  | inl there ↦ elim (Bool-cases (ltb low_mem (clear_rw e))) [
    | inr low ↦ (
      record s { word = update s.word g (clear_rw e) },
      record {
        run = rw (there, low);
        at_target = rw (there, ==_refl g);
        at_source = rw (there, low, ne→==_false f g apart) (sym at);
        others = λ b p q. rw (ne→==_false b g q);
        bytes = λ j. rw (there, low) (omega (arith, byte j));
        slots = refl;
        high = refl;
      },
    )
    | inl high ↦ (
      record s {
        word = update (update s.word g (clear_rw e)) f (clear_rw e);
        mem_map = update s.mem_map (counted_nr e) ((s.mem_map (counted_nr e) + 1) % 256);
      },
      record {
        run = rw (
          there,
          high,
          lt→ltb (counted_nr e) paging_pages (omega arith),
          lt→ltb (counted_nr e) paging_pages (omega arith),
        );
        at_target = rw (there, ne→==_false g f (λ x. apart (sym x)), ==_refl g);
        at_source = rw (there, high, ==_refl f);
        others = λ b p q. rw (ne→==_false b f p, ne→==_false b g q);
        bytes = λ j. rw (there, high) (ground (arith, byte j));
        slots = refl;
        high = refl;
      },
    )
  ]
]

-- `n` entries from `f` are copied to `g`.
pub record CopiedTable (s : Mm) (n f g : ℕ) (t : Mm) : Type 0 where
  pub run : copy_entries n f g s ≡ ok tt t
  pub at_target :
      (i : ℕ) → i < n → t.word (g + 4 * i) ≡ put_at_target (s.word (f + 4 * i)) (s.word (g + 4 * i))
  pub at_source : (i : ℕ) → i < n → t.word (f + 4 * i) ≡ left_at_source (s.word (f + 4 * i))
  pub others :
      (b : ℕ)
      → ((i : ℕ) → i < n → b ≢ f + 4 * i)
      → ((i : ℕ) → i < n → b ≢ g + 4 * i)
      → t.word b ≡ s.word b
  pub bytes : (j : ℕ) → t.mem_map j ≡ (s.mem_map j + count_refs s.word n f j) % 256
  pub slots : t.shared_pages ≡ s.shared_pages
  pub high : t.high_memory ≡ s.high_memory

-- The two tables do not overlap.
abbrev pub Apart : ℕ → ℕ → ℕ → Type 0
Apart n f g = (f + 4 * n ≤ g) ⊎ (g + 4 * n ≤ f)

-- An address of a later round is no address of the first.
module _ {s t : Mm} {n f g : ℕ} (apart : Apart (suc n) f g) (a : Step s (s.word f) f g t) where
  later_source : (i : ℕ) → i < n → t.word (f + 4 + 4 * i) ≡ s.word (f + 4 + 4 * i)
  later_source i p = a.others (f + 4 + 4 * i) (omega arith) (ground (arith, apart))

  later_target : (i : ℕ) → i < n → t.word (g + 4 + 4 * i) ≡ s.word (g + 4 + 4 * i)
  later_target i p = a.others (g + 4 + 4 * i) (ground (arith, apart)) (omega arith)

  later-Covered :
      ((i : ℕ) → i < suc n → Covered (s.word (f + 4 * i)))
      → (i : ℕ) → i < n
      → Covered (t.word (f + 4 + 4 * i))
  later-Covered small i p =
      let e : f + 4 * suc i ≡ f + 4 + 4 * i = omega arith in
      rw (later_source i p) (subst (λ b. Covered (s.word b)) e (small (suc i) (omega arith)))

-- The rounds after the first, put behind it.
module _ {s t u : Mm} {n f g : ℕ} (apart : Apart (suc n) f g) (byte : (j : ℕ) → s.mem_map j < 256)
    (a : Step s (s.word f) f g t) (c : CopiedTable t n (f + 4) (g + 4) u) where
  first_kept : (b : ℕ) → (b ≡ f) ⊎ (b ≡ g) → u.word b ≡ t.word b
  first_kept b (inl e) = c.others b (λ i p. omega arith) (λ i p. ground (arith, apart))
  first_kept b (inr e) = c.others b (λ i p. ground (arith, apart)) (λ i p. omega arith)

  targets :
      (i : ℕ)
      → i < suc n
      → u.word (g + 4 * i) ≡ put_at_target (s.word (f + 4 * i)) (s.word (g + 4 * i))
  targets zero p = rw (add-zero g, add-zero f) (first_kept g (inr refl) ∙ a.at_target)
  targets (suc i) p =
      let eg : g + 4 * suc i ≡ g + 4 + 4 * i = omega arith in
      let ef : f + 4 * suc i ≡ f + 4 + 4 * i = omega arith in
      rw (eg, ef)
        (c.at_target i (omega arith)
          ∙ rw (later_source apart a i (omega arith), later_target apart a i (omega arith)))

  sources : (i : ℕ) → i < suc n → u.word (f + 4 * i) ≡ left_at_source (s.word (f + 4 * i))
  sources zero p = rw add-zero (first_kept f (inl refl) ∙ a.at_source)
  sources (suc i) p =
      let ef : f + 4 * suc i ≡ f + 4 + 4 * i = omega arith in
      rw ef (c.at_source i (omega arith) ∙ rw (later_source apart a i (omega arith)))

  joined : CopiedTable s (suc n) f g u
  unfolding copy_entries count_refs
  joined = record {
    run = rw a.run c.run;
    at_target = targets;
    at_source = sources;
    others = λ b p q.
        c.others b (λ i r e. p (suc i) (omega arith) (omega (arith, e)))
          (λ i r e. q (suc i) (omega arith) (omega (arith, e)))
        ∙ a.others b (λ e. p 0 (omega arith) (omega (arith, e)))
            (λ e. q 0 (omega arith) (omega (arith, e)));
    bytes = λ j.
        c.bytes j
        ∙ omega
            (arith, a.bytes j, count_refs-congr t.word s.word n (f + 4) j (later_source apart a));
    slots = c.slots ∙ a.slots;
    high = c.high ∙ a.high;
  }

-- The loop of copy_page_tables over a table always ends. Each present entry is put at the target
-- without the write bit; the source loses the bit too if its page lies above LOW_MEM, and that
-- page's byte of `mem_map` grows (modulo 256) by the number of entries that name it. No other word
-- changes.
pub copy_entries-CopiedTable :
    (s : Mm) (n f g : ℕ)
    → Apart n f g
    → ((i : ℕ) → i < n → Covered (s.word (f + 4 * i)))
    → ((j : ℕ) → s.mem_map j < 256)
    → (t : Mm) × CopiedTable s n f g t
unfolding copy_entries count_refs
copy_entries-CopiedTable s zero f g apart small byte = (
  s,
  record {
    run = refl;
    at_target = λ i p. absurd (omega arith);
    at_source = λ i p. absurd (omega arith);
    others = λ b p q. refl;
    bytes = λ j. omega (arith, byte j);
    slots = refl;
    high = refl;
  },
)
copy_entries-CopiedTable s (suc n) f g apart small byte =
    let (t, a) =
      copy_entry-Step s (s.word f) f g (ground (arith, apart)) refl
        (rw add-zero at (small 0 (omega arith))) byte in
    let (u, c) =
      copy_entries-CopiedTable t n (f + 4) (g + 4) (ground (arith, apart))
        (later-Covered apart a small) (λ j. omega (arith, a.bytes j)) in
    (u, joined apart byte a c)
