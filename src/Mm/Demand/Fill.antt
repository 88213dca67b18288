-- ===== src/Mm/Demand/Fill.antt =====
-- How a page comes to an address on a fault: mm/memory.c (Lab 6), get_empty_page and do_no_page.
use hack_linux.Base.{
  ◌==◌, if◌then◌else◌, ne→==_false, ==_refl, Bool-cases, update, ℕ, ◌+◌, ◌*◌, ◌/◌, ◌%◌, ◌<◌, ◌≡◌,
  refl, sym, ap, ◌∙◌, subst, ◌≢◌, inl, inr, true, false, ◌∷◌, arith, ℕ_discrete,
}
use hack_linux.Mm.{
  paging_pages, out_of_memory, Mm, Outcome, ok, killed, pure, and_then, ◌>>=◌, oom, present, frame,
  or_seven, dir_entry, zero_page,
}
use hack_linux.Mm.Frames.{page_addr, free_page}
use hack_linux.Mm.Frames.Alloc.{Highest, get_free_page-total}
use hack_linux.Mm.Frames.Release.{refs}
use hack_linux.Mm.Frames.Valid.{
  Valid, Valid-congr, page_nr, Taken-Valid, Freed, below, beyond, twice, gave_back, free_page-below,
  free_page-Freed,
}
use hack_linux.Mm.Tables.{get_empty_page}
use hack_linux.Mm.Tables.Entry.{entry, same_page, zero_page_outside, zero_page_inside}
use hack_linux.Mm.Tables.Put.{
  Sound, TableFor, there, allocated, Mapped, Put, mapped, no_table, put_page-Put,
}
use hack_linux.Mm.Demand.{byte_at}
use hack_linux.Mm.Demand.Tail.{byte, byte-zero}

-- A free page is taken and filled; no other word changes.
module _ (s : Mm) (sound : Sound s) (nr : ℕ) (top : Highest s.mem_map paging_pages nr) (w : ℕ → ℕ)
    (same : (b : ℕ) → frame b ≢ page_addr nr → w b ≡ s.word b) where
  abbrev pub filled_state : Mm
  filled_state = record s { mem_map = update s.mem_map nr 1; word = w }

  dir_same : (b : ℕ) → w (dir_entry b) ≡ s.word (dir_entry b)
  dir_same b = same (dir_entry b) (omega arith)

  pub filled-Sound : Sound filled_state
  filled-Sound = record {
    valid =
        Valid-congr refl refl refl (
          Taken-Valid (record { nr = nr; highest = top; at_page = refl; state = refl })
            sound.valid);
    tables = record {
      off_dir = λ b. rw (dir_same b) (sound.tables.off_dir b);
      distinct = λ a b. rw (dir_same a, dir_same b) (sound.tables.distinct a b);
    };
    marked = λ b i. rw (dir_same b) (λ q e. kept i (sound.marked b i q e));
  }
    where
      kept : (i : ℕ) → s.mem_map i ≢ 0 → update s.mem_map nr 1 i ≢ 0
      kept i ne = ground arith

  no_table_here :
      (b : ℕ) → present (s.word (dir_entry b)) ≡ true → frame (s.word (dir_entry b)) ≢ page_addr nr
  no_table_here b p e = sound.marked b nr p e top.free

  entry_same : (b : ℕ) → entry w b ≡ entry s.word b
  entry_same b = rw (dir_same b) (elim (Bool-cases (present (s.word (dir_entry b)))) [
    | inl p ↦ rw p (same _ (λ e. no_table_here b p (omega (arith, e))))
    | inr p ↦ rw p refl
  ])

  -- The table that put_page uses is another page.
  table_apart :
      (address : ℕ) (t : Mm)
      → TableFor w (update s.mem_map nr 1) address t.word t.mem_map
      → frame (t.word (dir_entry address)) ≢ page_addr nr
  table_apart address t (there p kept m) e =
      no_table_here address (subst (λ x. present x ≡ true) (dir_same address) p)
        (ap frame (sym (dir_same address)) ∙ (ap frame (sym kept) ∙ e))
  table_apart address t (allocated absent i h p at m) e =
      let same_nr : i ≡ nr = omega (arith, at, e) in
      one_used (ap (update s.mem_map nr 1) (sym same_nr) ∙ h.free)
    where
      one_used : update s.mem_map nr 1 nr ≡ 0 → ⊥
      one_used z = ground arith

  owner_after :
      (address : ℕ) (t : Mm)
      → TableFor w (update s.mem_map nr 1) address t.word t.mem_map
      → t.mem_map nr ≡ 1
  owner_after address t (there p kept m) = ap (λ f. f nr) m ∙ rw (==_refl nr) refl
  owner_after address t (allocated absent i h p at m) =
      ap (λ f. f nr) m
      ∙ rw (ne→==_false nr i (λ e. one_used (ap (update s.mem_map nr 1) e ∙ h.free)), ==_refl nr)
          refl
    where
      one_used : update s.mem_map nr 1 nr ≡ 0 → ⊥
      one_used z = ground arith

-- The highest free page stands at the address, with the bytes `content`.
pub record Filled (content : ℕ → ℕ → ℕ) (address : ℕ) (s t : Mm) : Type 0 where
  pub nr : ℕ
  pub highest : Highest s.mem_map paging_pages nr
  pub entries :
      (b : ℕ)
      → entry t.word b ≡ (if same_page address b then or_seven (page_addr nr) else entry s.word b)
  pub bytes : (b : ℕ) → frame b ≡ page_addr nr → byte t.word b ≡ content nr b
  pub owner : t.mem_map nr ≡ 1
  pub words :
      (b : ℕ)
      → frame b ≢ page_addr nr
      → b ≢ dir_entry address
      → frame b ≢ frame (t.word (dir_entry address))
      → t.word b ≡ s.word b
  pub slots : t.shared_pages ≡ s.shared_pages
  pub brk : t.brk ≡ s.brk
  pub sound : Sound t

-- A page with these bytes is put at the address, or memory is short and the process is killed.
pub data Loaded (content : ℕ → ℕ → ℕ) (address : ℕ) (s : Mm) : Outcome (Unit {0}) → Type 0 where
  no_page_left :
      ((j : ℕ) → j < paging_pages → s.mem_map j ≢ 0)
      → Loaded content address s (killed (record s { log = out_of_memory ∷ s.log }))
  filled : (t : Mm) → Filled content address s t → Loaded content address s (ok tt t)
  no_page_for_table :
      (nr : ℕ)
      → Highest s.mem_map paging_pages nr
      → ((j : ℕ) → j < paging_pages → j ≢ nr → s.mem_map j ≢ 0)
      → present (s.word (dir_entry address)) ≡ false
      → (t : Mm) → ((j : ℕ) → refs t j ≡ refs s j)
      → Valid t
      → Loaded content address s (killed (record t { log = out_of_memory ∷ t.log }))

module _ (content : ℕ → ℕ → ℕ) (address : ℕ) (s : Mm) (sound : Sound s) (nr : ℕ)
    (top : Highest s.mem_map paging_pages nr) where
  after_free :
      (t : Mm) (o : Outcome (Unit {0}))
      → ((j : ℕ) → j < paging_pages → update s.mem_map nr 1 j ≢ 0)
      → present (s.word (dir_entry address)) ≡ false
      → t.mem_map ≡ update s.mem_map nr 1
      → t.shared_pages ≡ s.shared_pages
      → t.high_memory ≡ s.high_memory
      → Freed t (page_addr nr) o
      → Loaded content address s (and_then o (λ u. oom))
  after_free t _ full absent m f h (below low) = absurd (omega arith)
  after_free t _ full absent m f h (beyond low high) =
      absurd (sound.valid.above nr top.below (omega (arith, high, h)) top.free)
  after_free t _ full absent m f h (twice u low high z same) =
      let at : page_nr (page_addr nr) ≡ nr = omega arith in
      absurd (one_used (ap (λ g. g nr) (sym m) ∙ (ap t.mem_map (sym at) ∙ z)))
    where
      one_used : update s.mem_map nr 1 nr ≡ 0 → ⊥
      one_used z = ground arith
  after_free t _ full absent m f h (gave_back u low high ne back valid) =
      no_page_for_table nr top (λ j p other. others_used j p other (full j p)) absent u
        (λ j. elim (ℕ_discrete j nr) [
          | yes e ↦ rw e (omega (arith, back_one, more))
          | no other ↦ rest j other
        ])
        valid
    where
      others_used :
          (j : ℕ) → j < paging_pages → j ≢ nr → update s.mem_map nr 1 j ≢ 0 → s.mem_map j ≢ 0
      others_used j p other used_j = ground arith

      at : page_nr (page_addr nr) ≡ nr
      at = omega arith

      back_one : refs u nr + 1 ≡ refs t nr
      back_one = subst (λ i. refs u i + 1 ≡ refs t i) at back.one_less

      more : refs t nr ≡ refs s nr + 1
      more = rw (m, f, ==_refl nr) (omega (arith, top.free))

      rest : (j : ℕ) → j ≢ nr → refs u j ≡ refs s j
      rest j other = back.others j (λ e. other (e ∙ at)) ∙ rw (m, f, ne→==_false j nr other) refl

  pub after_put :
      (w : ℕ → ℕ) (same : (b : ℕ) → frame b ≢ page_addr nr → w b ≡ s.word b) (o : Outcome ℕ)
      → ((b : ℕ) → frame b ≡ page_addr nr → byte w b ≡ content nr b)
      → Put (filled_state s sound nr top w same) (page_addr nr) address o
      → Loaded content address s (
          and_then o
            (λ put. if put == 0 then (free_page (page_addr nr) >>= (λ u. oom)) else pure tt))
  after_put w same _ has (mapped t m) = rw (ne→==_false (page_addr nr) 0 (omega arith)) (
      filled t (record {
        nr = nr;
        highest = top;
        entries = λ b.
            m.entries b
            ∙ ap (λ (e : ℕ). if same_page address b then or_seven (page_addr nr) else e)
                (entry_same s sound nr top w same b);
        bytes = λ b at.
            let word_same : t.word (b / 4 * 4) ≡ w (b / 4 * 4) =
              m.words (b / 4 * 4) (omega (arith, at)) (λ e. apart m (omega (arith, at, e))) in
            ap (λ (x : ℕ). x / byte_at b % 256) word_same ∙ has b at;
        owner = owner_after s sound nr top w same address t m.table;
        words = λ b out ne off. m.words b ne off ∙ same b out;
        slots = m.slots;
        brk = m.brk;
        sound = m.sound;
      }))
    where
      apart :
          Mapped (filled_state s sound nr top w same) address (or_seven (page_addr nr)) t
          → frame (t.word (dir_entry address)) ≢ page_addr nr
      apart m = table_apart s sound nr top w same address t m.table
  after_put w same _ has (no_table t absent full w' m f h) =
      after_free t _ full
        (subst (λ x. present x ≡ false) (dir_same s sound nr top w same address) absent) m f h
        (free_page-Freed t (page_addr nr)
          (Valid-congr m f h (filled-Sound s sound nr top w same).valid))

module _ (address : ℕ) (s : Mm) (sound : Sound s) where
  -- A page of zeros, or the process is killed for want of memory.
  pub get_empty_page-Loaded : Loaded (λ nr b. 0) address s (get_empty_page address s)
  unfolding get_empty_page
  get_empty_page-Loaded =
      let (a, s1, e, result) = get_free_page-total s in
      elim result [
        | inr none_left ↦
            rw (e, none_left.null, none_left.same, free_page-below s 0 (omega arith))
              (no_page_left none_left.all_used)
        | inl taken ↦
            let top = taken.highest in
            let page = page_addr taken.nr in
            let outside : (b : ℕ) → frame b ≢ page → zero_page s.word page b ≡ s.word b =
              λ b out. zero_page_outside s.word page b (omega arith) out in
            rw (e, taken.state, taken.at_page, ne→==_false page 0 (omega arith))
              (after_put (λ nr b. 0) address s sound taken.nr top (zero_page s.word page) outside _
                (λ b at.
                  byte-zero (zero_page s.word page) b
                    (zero_page_inside s.word page (b / 4 * 4) (omega (arith, at))))
                (put_page-Put _ page address
                  (filled-Sound s sound taken.nr top (zero_page s.word page) outside)
                  (omega (arith, top.below))))
      ]
