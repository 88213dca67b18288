-- ===== src/Mm/Copy/RoundTrip.antt =====
-- A copied table, freed: what fork counts, exit gives back.
use hack_linux.Base.{
  Bool-cases, ℕ, zero, suc, ◌+◌, ◌*◌, ◌<◌, ◌≡◌, refl, ◌∙◌, subst, inl, inr, true, ap₂, add-zero,
  arith,
}
use hack_linux.Mm.{Mm, ok, ◌>>◌, present, frame, clear_rw}
use hack_linux.Mm.Frames.Release.{refs}
use hack_linux.Mm.Frames.Valid.{Held, idle, holds, Valid}
use hack_linux.Mm.Copy.{copy_entries, free_entries}
use hack_linux.Mm.Copy.Entries.{
  names, count_refs, left_at_source, put_at_target, CopiedTable, Apart, copy_entries-CopiedTable,
}
use hack_linux.Mm.Copy.Release.{free_entries-FreedTable}

count_refs-same :
    (w w' : ℕ → ℕ) (n a b j : ℕ)
    → ((i : ℕ) → i < n → names (w (a + 4 * i)) j ≡ names (w' (b + 4 * i)) j)
    → count_refs w n a j ≡ count_refs w' n b j
unfolding count_refs
count_refs-same w w' zero a b j h = refl
count_refs-same w w' (suc n) a b j h =
    ap₂ ◌+◌
      (subst (λ c. names (w c) j ≡ names (w' b) j) (add-zero a)
        (subst (λ c. names (w (a + 0)) j ≡ names (w' c) j) (add-zero b) (h 0 (omega arith))))
      (count_refs-same w w' n (a + 4) (b + 4) j later)
  where
    later : (i : ℕ) → i < n → names (w (a + 4 + 4 * i)) j ≡ names (w' (b + 4 + 4 * i)) j
    later i p =
        let ea : a + 4 * suc i ≡ a + 4 + 4 * i = omega arith in
        let eb : b + 4 * suc i ≡ b + 4 + 4 * i = omega arith in
        subst (λ c. names (w c) j ≡ names (w' (b + 4 + 4 * i)) j) ea
          (subst (λ c. names (w (a + 4 * suc i)) j ≡ names (w' c) j) eb (h (suc i) (omega arith)))

-- The copy of an entry names the same page.
names-target : (e old j : ℕ) → old ≡ 0 → names (put_at_target e old) j ≡ names e j
names-target e old j z = elim (Bool-cases (present e)) [
  | inl there ↦
      let p : present (clear_rw e) ≡ true = ground (arith, there) in
      let q : clear_rw (clear_rw e) ≡ clear_rw e = omega arith in rw (there, p, q)
  | inr absent ↦ rw (absent, z)
]

-- What copying the table and then freeing the copy leaves.
pub record RoundTrip (s : Mm) (n f g : ℕ) (u : Mm) : Type 0 where
  pub run : (copy_entries n f g >> free_entries n g) s ≡ ok tt u
  pub refs_back : (j : ℕ) → refs u j ≡ refs s j
  pub target_clear : (i : ℕ) → i < n → u.word (g + 4 * i) ≡ 0
  pub source_kept : (i : ℕ) → i < n → u.word (f + 4 * i) ≡ left_at_source (s.word (f + 4 * i))
  pub valid : Valid u

module _ {s t : Mm} {n f g : ℕ} (v : Valid s) (c : CopiedTable s n f g t)
    (room : (j : ℕ) → s.mem_map j + count_refs s.word n f j < 256) where
  map_grown : (j : ℕ) → t.mem_map j ≡ s.mem_map j + count_refs s.word n f j
  map_grown j = omega (arith, c.bytes j, room j)

  refs_grown : (j : ℕ) → refs t j ≡ refs s j + count_refs s.word n f j
  refs_grown j = rw c.slots (omega (arith, map_grown j))

  copied-Valid : Valid t
  copied-Valid = record {
    high = rw c.high v.high;
    byte = λ j. omega (arith, c.bytes j);
    unique = rw c.slots v.unique;
    above = rw c.high (λ j p q. omega (arith, map_grown j, v.above j p q));
    held = λ k p. keep k (v.held k p);
  }
    where
      keep : (k : ℕ) → Held s k → Held t k
      keep k (idle z) = idle (rw c.slots z)
      keep k (holds i p e ne) = holds i p (rw c.slots e) (omega (arith, map_grown i))

  target_counts :
      ((i : ℕ) → i < n → s.word (g + 4 * i) ≡ 0)
      → (j : ℕ) → count_refs t.word n g j ≡ count_refs s.word n f j
  target_counts clear j = count_refs-same t.word s.word n g f j (λ i p.
      rw (c.at_target i p) (names-target (s.word (f + 4 * i)) (s.word (g + 4 * i)) j (clear i p)))

-- Copying a table into a cleared one and then freeing the copy always ends without a panic: every
-- page has again as many references as before, the copy is clear, and all that is left of the copy
-- is that the source is write-protected, as long as the copy lets no byte of `mem_map` wrap.
pub copy-free :
    (s : Mm) (n f g : ℕ)
    → Valid s
    → Apart n f g
    → ((i : ℕ) → i < n → s.word (f + 4 * i) < s.high_memory)
    → ((i : ℕ) → i < n → s.word (g + 4 * i) ≡ 0)
    → ((j : ℕ) → s.mem_map j + count_refs s.word n f j < 256)
    → (u : Mm) × RoundTrip s n f g u
copy-free s n f g v apart inside clear room =
    let (t, c) =
      copy_entries-CopiedTable s n f g apart (λ i p. omega (arith, v.high, inside i p)) v.byte in
    let (u, r) =
      free_entries-FreedTable t n g (copied-Valid v c room)
        (λ i p.
          rw (c.at_target i p, c.high)
            (below (s.word (f + 4 * i)) (s.word (g + 4 * i)) (inside i p) (clear i p)))
        (λ j. omega (arith, target_counts v c room clear j, refs_grown v c room j)) in
    (
      u,
      record {
        run = rw c.run r.run;
        refs_back = λ j.
            omega (arith, r.refs_less j, refs_grown v c room j, target_counts v c room clear j);
        target_clear = r.cleared;
        source_kept = λ i p. r.others (f + 4 * i) (λ k q. ground (arith, apart)) ∙ c.at_source i p;
        valid = r.valid;
      },
    )
  where
    below : (e old : ℕ) → e < s.high_memory → old ≡ 0 → frame (put_at_target e old) < s.high_memory
    below e old h z = ground arith
