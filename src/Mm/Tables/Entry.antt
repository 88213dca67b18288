-- ===== src/Mm/Tables/Entry.antt =====
-- The page-table entry that a linear address is translated by, and how one store changes it.
use hack_linux.Base.{
  leb, ◌==◌, if◌then◌else◌, lt→ltb, le→ltb_false, leb→le, le→leb, lt→leb_false, ne→==_false,
  ==_refl, Bool-cases, update, ℕ, ◌+◌, ◌≤◌, ◌≡◌, refl, sym, ◌∙◌, ◌≢◌, inl, inr, Bool, true, false,
  ◌&&◌, arith, ℕ_discrete,
}
use hack_linux.Mm.{present, frame, or_seven, dir_entry, table_offset, zero_page, copy_words}
use mathlib.Core.Bool.{false≢true}

-- The word that the two-level walk ends at; 0 if the directory entry is not present.
abbrev pub entry : (ℕ → ℕ) → ℕ → ℕ
entry w a = if present (w (dir_entry a)) then w (frame (w (dir_entry a)) + table_offset a) else 0

-- Two addresses lie in one page.
abbrev pub same_page : ℕ → ℕ → Bool
same_page a b = dir_entry a == dir_entry b && table_offset a == table_offset b

-- The tables do not overlap the directory or each other.
pub record Tables (w : ℕ → ℕ) : Type 0 where
  pub off_dir : (a : ℕ) → present (w (dir_entry a)) ≡ true → 4096 ≤ frame (w (dir_entry a))
  pub distinct :
      (a b : ℕ)
      → present (w (dir_entry a)) ≡ true
      → present (w (dir_entry b)) ≡ true
      → frame (w (dir_entry a)) ≡ frame (w (dir_entry b))
      → dir_entry a ≡ dir_entry b

-- A store of `v` into the table's slot for `a` changes the entry of `a` alone.
module _ (w : ℕ → ℕ) (t : Tables w) (a v : ℕ) (there : present (w (dir_entry a)) ≡ true) where
  abbrev pub slot : ℕ
  slot = frame (w (dir_entry a)) + table_offset a

  abbrev pub stored : ℕ → ℕ
  stored = update w slot v

  pub dir_kept : (b : ℕ) → stored (dir_entry b) ≡ w (dir_entry b)
  dir_kept b = rw (ne→==_false (dir_entry b) slot (omega (arith, t.off_dir a there)))

  pub entry-stored : entry stored a ≡ v
  entry-stored = rw (dir_kept a, there, ==_refl slot)

  entry-stored_ne : (b : ℕ) → same_page a b ≡ false → entry stored b ≡ entry w b
  entry-stored_ne b ne = rw (dir_kept b) (elim (Bool-cases (present (w (dir_entry b)))) [
    | inl p ↦ rw (p, ne→==_false (frame (w (dir_entry b)) + table_offset b) slot (apart p)) refl
    | inr p ↦ rw p
  ])
    where
      apart : present (w (dir_entry b)) ≡ true → frame (w (dir_entry b)) + table_offset b ≢ slot
      apart p e =
          let d : dir_entry a ≡ dir_entry b = t.distinct a b there p (omega (arith, e)) in
          let o : table_offset a ≡ table_offset b = omega (arith, e) in
          false≢true (sym ne ∙ rw (d, o, ==_refl (dir_entry b), ==_refl (table_offset b)))

  entry-stored_same : (b : ℕ) → same_page a b ≡ true → entry stored b ≡ v
  entry-stored_same b e =
      let d : dir_entry b ≡ dir_entry a = ground arith in
      let o : table_offset b ≡ table_offset a = ground arith in rw (d, o) entry-stored

  pub entries-stored : (b : ℕ) → entry stored b ≡ (if same_page a b then v else entry w b)
  entries-stored b = elim (Bool-cases (same_page a b)) [
    | inl e ↦ rw e (entry-stored_same b e)
    | inr e ↦ rw e (entry-stored_ne b e)
  ]

  pub Tables-stored : Tables stored
  Tables-stored = record {
    off_dir = λ b. rw (dir_kept b) (t.off_dir b);
    distinct = λ b c. rw (dir_kept b, dir_kept c) (t.distinct b c);
  }

frame_slot : (x b : ℕ) → frame (frame x + table_offset b) ≡ frame x
frame_slot x b = omega arith

pub zero_page_outside : (w : ℕ → ℕ) (p a : ℕ) → frame p ≡ p → frame a ≢ p → zero_page w p a ≡ w a
zero_page_outside w p a aligned ne = elim (Bool-cases (leb p a)) [
  | inl low ↦ rw (low, le→ltb_false a (p + 4096) (omega (arith, leb→le _ _ low)))
  | inr out ↦ rw out
]

pub copy_words_outside :
    (w : ℕ → ℕ) (from to a : ℕ) → frame to ≡ to → frame a ≢ to → copy_words w from to a ≡ w a
copy_words_outside w from to a aligned ne = elim (Bool-cases (leb to a)) [
  | inl low ↦ rw (low, le→ltb_false a (to + 4096) (omega (arith, leb→le _ _ low)))
  | inr out ↦ rw out
]

pub zero_page_inside : (w : ℕ → ℕ) (p a : ℕ) → frame a ≡ p → zero_page w p a ≡ 0
zero_page_inside w p a e = rw (le→leb p a (omega arith), lt→ltb a (p + 4096) (omega arith))

-- A cleared page `p` becomes the table of the directory entry for `a`.
module _ (w : ℕ → ℕ) (t : Tables w) (a p : ℕ) (absent : present (w (dir_entry a)) ≡ false)
    (aligned : frame p ≡ p) (high : 4096 ≤ p)
    (fresh : (b : ℕ) → present (w (dir_entry b)) ≡ true → frame (w (dir_entry b)) ≢ p) where
  abbrev pub linked : ℕ → ℕ
  linked = update (zero_page w p) (dir_entry a) (or_seven p)

  pub linked_self : linked (dir_entry a) ≡ or_seven p
  linked_self = rw (==_refl (dir_entry a))

  frame_self : frame (or_seven p) ≡ p
  frame_self = omega arith

  pub linked_dir : (b : ℕ) → dir_entry b ≢ dir_entry a → linked (dir_entry b) ≡ w (dir_entry b)
  linked_dir b ne =
      rw (ne→==_false (dir_entry b) (dir_entry a) ne, lt→leb_false p (dir_entry b) (omega arith))

  pub linked-present : present (linked (dir_entry a)) ≡ true
  linked-present = rw linked_self (ground arith)

  entry-linked_same : (b : ℕ) → dir_entry b ≡ dir_entry a → entry linked b ≡ entry w b
  entry-linked_same b e =
      rw
        (
          e,
          absent,
          linked_self,
          linked_present',
          frame_self,
          ne→==_false (p + table_offset b) (dir_entry a) (omega arith),
        )
        (zero_page_inside w p (p + table_offset b) (omega arith))
    where
      linked_present' : present (or_seven p) ≡ true
      linked_present' = ground arith

  entry-linked_other : (b : ℕ) → dir_entry b ≢ dir_entry a → entry linked b ≡ entry w b
  entry-linked_other b ne = rw (linked_dir b ne) (elim (Bool-cases (present (w (dir_entry b)))) [
    | inl q ↦
        rw
          (
            q,
            ne→==_false (frame (w (dir_entry b)) + table_offset b) (dir_entry a)
                (omega (arith, t.off_dir b q)),
          )
          (zero_page_outside w p _ aligned (rw (frame_slot (w (dir_entry b)) b) (fresh b q)))
    | inr q ↦ rw q
  ])

  pub entry-linked : (b : ℕ) → entry linked b ≡ entry w b
  entry-linked b = elim (ℕ_discrete (dir_entry b) (dir_entry a)) [
    | yes e ↦ entry-linked_same b e
    | no ne ↦ entry-linked_other b ne
  ]

  pub table_frame :
      (b : ℕ)
      → dir_entry b ≢ dir_entry a
      → present (linked (dir_entry b)) ≡ true
      → (present (w (dir_entry b)) ≡ true)
        × (frame (linked (dir_entry b)) ≡ frame (w (dir_entry b)))
  table_frame b ne q = (rw (linked_dir b ne) at q, rw (linked_dir b ne))

  pub frame-linked : (b : ℕ) → dir_entry b ≡ dir_entry a → frame (linked (dir_entry b)) ≡ p
  frame-linked b e = rw (e, linked_self) frame_self

  pub Tables-linked : Tables linked
  Tables-linked = record { off_dir = off; distinct = apart }
    where
      off : (b : ℕ) → present (linked (dir_entry b)) ≡ true → 4096 ≤ frame (linked (dir_entry b))
      off b q = elim (ℕ_discrete (dir_entry b) (dir_entry a)) [
        | yes e ↦ omega (arith, frame-linked b e)
        | no ne ↦ let (q', f) = table_frame b ne q in omega (arith, f, t.off_dir b q')
      ]

      apart :
          (b c : ℕ)
          → present (linked (dir_entry b)) ≡ true
          → present (linked (dir_entry c)) ≡ true
          → frame (linked (dir_entry b)) ≡ frame (linked (dir_entry c))
          → dir_entry b ≡ dir_entry c
      apart b c q r f = elim (ℕ_discrete (dir_entry b) (dir_entry a)) [
        | yes e ↦ elim (ℕ_discrete (dir_entry c) (dir_entry a)) [
          | yes e' ↦ e ∙ sym e'
          | no ne' ↦
              let (r', g) = table_frame c ne' r in
              absurd (fresh c r' (sym g ∙ sym f ∙ frame-linked b e))
        ]
        | no ne ↦
            let (q', g) = table_frame b ne q in
            elim (ℕ_discrete (dir_entry c) (dir_entry a)) [
              | yes e' ↦ absurd (fresh b q' (sym g ∙ f ∙ frame-linked c e'))
              | no ne' ↦ let (r', g') = table_frame c ne' r in t.distinct b c q' r' (sym g ∙ f ∙ g')
            ]
      ]
