-- ===== src/Mm/Tables/Put.antt =====
-- put_page: the address is mapped to the page, and nothing else is.
use hack_linux.Base.{
  ltb, leb, ◌==◌, if◌then◌else◌, lt→ltb, ne→==_false, ==_refl, Bool-cases, update, ℕ, ◌+◌, ◌<◌, ◌≡◌,
  refl, sym, ap, ◌∙◌, subst, ◌≢◌, ◌⊎◌, inl, inr, true, false, ◌||◌, List, ◌∷◌, arith, ℕ_discrete,
}
use hack_linux.Mm.{
  low_mem, paging_pages, Message, trying_to_put, mem_map_disagrees, Mm, Outcome, ok, present, frame,
  or_seven, dir_entry, table_offset, map_nr,
}
use hack_linux.Mm.Frames.{page_addr, get_free_page}
use hack_linux.Mm.Frames.Alloc.{Highest, Taken, NoPage, get_free_page-total}
use hack_linux.Mm.Frames.Valid.{Valid, Valid-congr, Taken-Valid}
use hack_linux.Mm.Tables.{put_checks, put_entry, put_page}
use hack_linux.Mm.Tables.Entry.{
  entry, same_page, Tables, stored, dir_kept, slot, zero_page_outside, entries-stored,
  Tables-stored, linked, linked-present, entry-linked, table_frame, frame-linked, Tables-linked,
}

-- No page table stands in a page that `mem_map` calls free.
abbrev pub Marked : Mm → Type 0
Marked s =
    (b i : ℕ)
    → present (s.word (dir_entry b)) ≡ true
    → frame (s.word (dir_entry b)) ≡ page_addr i
    → s.mem_map i ≢ 0

-- The memory manager's invariant.
pub record Sound (s : Mm) : Type 0 where
  pub valid : Valid s
  pub tables : Tables s.word
  pub marked : Marked s

-- Where the table of the address comes from: it is there and no page is taken, or the highest free
-- page becomes the table.
pub data TableFor (w m : ℕ → ℕ) (address : ℕ) (w' m' : ℕ → ℕ) : Type 0 where
  there :
      present (w (dir_entry address)) ≡ true
      → w' (dir_entry address) ≡ w (dir_entry address)
      → m' ≡ m
      → TableFor w m address w' m'
  allocated :
      present (w (dir_entry address)) ≡ false
      → (nr : ℕ) → Highest m paging_pages nr
      → present (w' (dir_entry address)) ≡ true
      → frame (w' (dir_entry address)) ≡ page_addr nr
      → m' ≡ update m nr 1
      → TableFor w m address w' m'

-- No word outside the table and the directory entry of the address changes.
abbrev pub OnlyTable : (ℕ → ℕ) → ℕ → (ℕ → ℕ) → Type 0
OnlyTable w address w' =
    (b : ℕ) → b ≢ dir_entry address → frame b ≢ frame (w' (dir_entry address)) → w' b ≡ w b

pub record Mapped (s : Mm) (address e : ℕ) (t : Mm) : Type 0 where
  pub entries : (b : ℕ) → entry t.word b ≡ (if same_page address b then e else entry s.word b)
  pub table : TableFor s.word s.mem_map address t.word t.mem_map
  pub words : OnlyTable s.word address t.word
  pub sound : Sound t
  pub slots : t.shared_pages ≡ s.shared_pages
  pub brk : t.brk ≡ s.brk

-- What put_page returns.
pub data Put (s : Mm) (page address : ℕ) : Outcome ℕ → Type 0 where
  mapped : (t : Mm) → Mapped s address (or_seven page) t → Put s page address (ok page t)
  no_table :
      (t : Mm)
      → present (s.word (dir_entry address)) ≡ false
      → ((j : ℕ) → j < paging_pages → s.mem_map j ≢ 0)
      → t.word ≡ s.word
      → t.mem_map ≡ s.mem_map
      → t.shared_pages ≡ s.shared_pages
      → t.high_memory ≡ s.high_memory
      → Put s page address (ok 0 t)

-- The table's slot is written.
module _ (s : Mm) (e address : ℕ) (sound : Sound s)
    (p : present (s.word (dir_entry address)) ≡ true) where
  pub stored-Mapped :
      Mapped s address e (record s { word = stored s.word sound.tables address e p })
  stored-Mapped = record {
    entries = entries-stored s.word sound.tables address e p;
    table = there p (dir_kept s.word sound.tables address e p address) refl;
    words = λ b ne out.
        let same = dir_kept s.word sound.tables address e p address in
        rw (ne→==_false b (slot s.word sound.tables address e p) (omega (arith, out, same)));
    sound = record {
      valid = Valid-congr refl refl refl sound.valid;
      tables = Tables-stored s.word sound.tables address e p;
      marked = λ b. rw (dir_kept s.word sound.tables address e p b) (sound.marked b);
    };
    slots = refl;
    brk = refl;
  }

-- A page from get_free_page becomes the table.
module _ (s : Mm) (address nr : ℕ) (sound : Sound s)
    (absent : present (s.word (dir_entry address)) ≡ false)
    (h : Highest s.mem_map paging_pages nr) where
  unlinked :
      (b : ℕ) → present (s.word (dir_entry b)) ≡ true → frame (s.word (dir_entry b)) ≢ page_addr nr
  unlinked b q e = sound.marked b nr q e h.free

  abbrev new_words : ℕ → ℕ
  new_words =
      linked s.word sound.tables address (page_addr nr) absent (omega arith) (omega arith) unlinked

  abbrev new_state : Mm
  new_state = record s { mem_map = update s.mem_map nr 1; word = new_words }

  new_present : present (new_words (dir_entry address)) ≡ true
  new_present =
      linked-present s.word sound.tables address (page_addr nr) absent (omega arith) (omega arith)
        unlinked

  new_frame : frame (new_words (dir_entry address)) ≡ page_addr nr
  new_frame =
      frame-linked s.word sound.tables address (page_addr nr) absent (omega arith) (omega arith)
        unlinked address refl

  new_entries : (b : ℕ) → entry new_words b ≡ entry s.word b
  new_entries =
      entry-linked s.word sound.tables address (page_addr nr) absent (omega arith) (omega arith)
        unlinked

  new-Marked : Marked new_state
  new-Marked b i q e = elim (ℕ_discrete (dir_entry b) (dir_entry address)) [
    | yes same ↦
        let f : frame (new_words (dir_entry b)) ≡ page_addr nr =
          frame-linked s.word sound.tables address (page_addr nr) absent (omega arith) (omega arith)
            unlinked b same in
        let at : i ≡ nr = omega (arith, e, f) in rw (at, ==_refl nr) (omega arith)
    | no other ↦
        let (q', f) =
          table_frame s.word sound.tables address (page_addr nr) absent (omega arith) (omega arith)
            unlinked b other q in
        let was : s.mem_map i ≢ 0 = sound.marked b i q' (sym f ∙ e) in ground arith
  ]

  new_Sound : Sound new_state
  new_Sound = record {
    valid =
        Valid-congr refl refl refl
          (Taken-Valid (record { nr = nr; highest = h; at_page = refl; state = refl }) sound.valid);
    tables =
        Tables-linked s.word sound.tables address (page_addr nr) absent (omega arith) (omega arith)
          unlinked;
    marked = new-Marked;
  }

  linked-Mapped :
      (e : ℕ)
      → Mapped s address e
          (record new_state { word = stored new_words new_Sound.tables address e new_present })
  linked-Mapped e =
      let m = stored-Mapped new_state e address new_Sound new_present in
      record {
        entries = λ b. m.entries b ∙ rw (new_entries b);
        table = allocated absent nr h (rw kept new_present) (rw kept new_frame) refl;
        words =
            λ b ne out. m.words b ne out ∙ outside b ne (λ e. out (e ∙ sym (rw kept new_frame)));
        sound = m.sound;
        slots = refl;
        brk = refl;
      }
    where
      kept :
          stored new_words new_Sound.tables address e new_present (dir_entry address)
          ≡ new_words (dir_entry address)
      kept = dir_kept new_words new_Sound.tables address e new_present address

      outside : (b : ℕ) → b ≢ dir_entry address → frame b ≢ page_addr nr → new_words b ≡ s.word b
      outside b ne out =
          rw (ne→==_false b (dir_entry address) ne)
            (zero_page_outside s.word (page_addr nr) b (omega arith) out)

module _ (s : Mm) (page address : ℕ) (sound : Sound s) where
  into_table :
      present (s.word (dir_entry address)) ≡ true → Put s page address (put_entry page address s)
  unfolding put_entry
  into_table p = rw p (mapped _ (stored-Mapped s (or_seven page) address sound p))

  -- The table is allocated, if there is a page for it.
  into_new :
      present (s.word (dir_entry address)) ≡ false
      → (a : ℕ) × (t : Mm) × (get_free_page s ≡ ok a t) × (Taken s a t ⊎ NoPage s a t)
      → Put s page address (put_entry page address s)
  unfolding put_entry
  into_new absent (a, t, run, inr none_left) =
      rw (absent, run, none_left.null)
        (no_table t absent none_left.all_used (ap (λ u. u.word) none_left.same)
          (ap (λ u. u.mem_map) none_left.same) (ap (λ u. u.shared_pages) none_left.same)
          (ap (λ u. u.high_memory) none_left.same))
  into_new absent (a, t, run, inl taken) =
      rw (absent, run, taken.at_page, taken.state, ne→==_false (page_addr taken.nr) 0 (omega arith))
        (mapped _ (
          subst
            (λ slot.
              Mapped s address (or_seven page)
                (record (new_state s address taken.nr sound absent taken.highest) {
                  word =
                      update (new_words s address taken.nr sound absent taken.highest)
                        (slot + table_offset address) (or_seven page);
                }))
            (new_frame s address taken.nr sound absent taken.highest)
            (linked-Mapped s address taken.nr sound absent taken.highest (or_seven page))))

  put_entry-Put : Put s page address (put_entry page address s)
  put_entry-Put = elim (Bool-cases (present (s.word (dir_entry address)))) [
    | inl p ↦ into_table p
    | inr absent ↦ into_new absent (get_free_page-total s)
  ]

-- The tests of put_page only print, if the page is one that `mem_map` covers.
put_checks-log :
    (s : Mm) (page address : ℕ)
    → map_nr page < paging_pages
    → (l : List Message) × (put_checks page address s ≡ ok tt (record s { log = l }))
unfolding put_checks
put_checks-log s page address h = elim (Bool-cases (ltb page low_mem || leb s.high_memory page)) [
  | inl bad ↦ elim (Bool-cases (s.mem_map (map_nr page) == 1)) [
    | inl one ↦ (trying_to_put page address ∷ s.log, rw (bad, lt→ltb _ _ h, one))
    | inr more ↦ (
      mem_map_disagrees page address ∷ trying_to_put page address ∷ s.log,
      rw (bad, lt→ltb _ _ h, more),
    )
  ]
  | inr good ↦ elim (Bool-cases (s.mem_map (map_nr page) == 1)) [
    | inl one ↦ (s.log, rw (good, lt→ltb _ _ h, one))
    | inr more ↦ (mem_map_disagrees page address ∷ s.log, rw (good, lt→ltb _ _ h, more))
  ]
]

logged-Sound : {s : Mm} (l : List Message) → Sound s → Sound (record s { log = l })
logged-Sound l h = record {
  valid = Valid-congr refl refl refl h.valid;
  tables = h.tables;
  marked = h.marked;
}

logged-Put :
    {s : Mm} (l : List Message) {page address : ℕ} {o : Outcome ℕ}
    → Put (record s { log = l }) page address o
    → Put s page address o
logged-Put l (mapped t m) = mapped t (record {
  entries = m.entries;
  table = m.table;
  words = m.words;
  sound = m.sound;
  slots = m.slots;
  brk = m.brk;
})
logged-Put l (no_table t absent full w m f h) = no_table t absent full w m f h

-- For a page that `mem_map` covers, in a sound state, put_page always returns. Either it returns
-- the page: then the entry of the address is the page with the bits 7, the entry of every address
-- of another page is what it was, and the state is sound; if the table of the address was there,
-- `mem_map` stays, and otherwise the highest free page becomes the table and has one owner, and no
-- other byte of `mem_map` changes; no word outside the table and its directory entry changes. Or it
-- returns 0: then the table was not there and no page was free, and no word, byte of `mem_map` or
-- slot changed.
pub put_page-Put :
    (s : Mm) (page address : ℕ)
    → Sound s
    → map_nr page < paging_pages
    → Put s page address (put_page page address s)
unfolding put_page
put_page-Put s page address sound h =
    let (l, run) = put_checks-log s page address h in
    rw run (logged-Put l (put_entry-Put (record s { log = l }) page address (logged-Sound l sound)))
