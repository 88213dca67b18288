-- ===== src/Console/Cells.antt =====
-- insert_char and delete_char on rows and columns: kernel/chr_drv/console.c (Lab 7).
use hack_linux.Base.{
  ltb, leb, ◌==◌, if◌then◌else◌, lt→ltb, le→ltb_false, le→leb, lt→leb_false, ==_iff, ne→==_false,
  update, ℕ, zero, suc, ◌+◌, ◌-◌, ◌*◌, ◌≤◌, ◌<◌, ◌≡◌, refl, ap, ◌∙◌, ◌≢◌, ◌⊎◌, inl, inr, false,
  ◌&&◌, arith, ℕ_discrete, dec_lt,
}
use hack_linux.Console.{
  Video, size_row, erase, Screen, insert_words, insert_char, delete_words, delete_char,
}
use hack_linux.Console.Memory.{Outside}
use hack_linux.Console.Grid.{Valid, grid, row_below}

-- In the row `y`, `n` erased cells put before the column `x`, and `n` cells dropped from there on.
abbrev pub cells_inserted : ℕ → ℕ → ℕ → (ℕ → ℕ → ℕ) → ℕ → ℕ → ℕ
cells_inserted y x n g r c =
    if r == y && leb x c then if ltb c (x + n) then erase else g r (c - n) else g r c

abbrev pub cells_deleted : ℕ → ℕ → ℕ → ℕ → (ℕ → ℕ → ℕ) → ℕ → ℕ → ℕ
cells_deleted y x n columns g r c =
    if r == y && leb x c then if ltb (c + n) columns then g r (c + n) else erase else g r c

insert_words-Outside :
    (n p old b : ℕ) (mem : ℕ → ℕ) → Outside b p n → insert_words n p old mem b ≡ mem b
unfolding insert_words
insert_words-Outside zero p old b mem h = refl
insert_words-Outside (suc n) p old b mem h =
    insert_words-Outside n (p + 2) (mem p) b (update mem p old) (further h)
    ∙ rw (ne→==_false b p (off h)) refl
  where
    further : Outside b p (suc n) → Outside b (p + 2) n
    further (inl q) = inl (omega arith)
    further (inr q) = inr (omega arith)

    off : Outside b p (suc n) → b ≢ p
    off (inl q) = omega arith
    off (inr q) = omega arith

insert_words_first :
    (n p old b : ℕ) (mem : ℕ → ℕ) → 0 < n → b ≡ p → insert_words n p old mem b ≡ old
unfolding insert_words
insert_words_first zero p old b mem h e = absurd (omega arith)
insert_words_first (suc n) p old b mem h e =
    insert_words-Outside n (p + 2) (mem p) b (update mem p old) (inl (omega arith))
    ∙ rw ((==_iff b p).1 e) refl

insert_words-inside :
    (n p old k b : ℕ) (mem : ℕ → ℕ)
    → suc k < n
    → b ≡ p + 2 * suc k
    → insert_words n p old mem b ≡ mem (p + 2 * k)
unfolding insert_words
insert_words-inside zero p old k b mem h e = absurd (omega arith)
insert_words-inside (suc n) p old zero b mem h e =
    let at : p + 2 * 0 ≡ p = omega arith in
    rw at (insert_words_first n (p + 2) (mem p) b (update mem p old) (omega arith) (omega arith))
insert_words-inside (suc n) p old (suc k) b mem h e =
    let at : p + 2 + 2 * k ≡ p + 2 * suc k = omega arith in
    let ne : p + 2 * suc k ≢ p = omega arith in
    insert_words-inside n (p + 2) (mem p) k b (update mem p old) (omega arith) (omega arith)
    ∙ rw (at, ne→==_false (p + 2 * suc k) p ne) refl

delete_words-Outside :
    (n p b : ℕ) (mem : ℕ → ℕ) → Outside b p (suc n) → delete_words n p mem b ≡ mem b
unfolding delete_words
delete_words-Outside zero p b mem h = rw (ne→==_false b p (off h)) refl
  where
    off : Outside b p 1 → b ≢ p
    off (inl q) = omega arith
    off (inr q) = omega arith
delete_words-Outside (suc n) p b mem h =
    delete_words-Outside n (p + 2) b (update mem p (mem (p + 2))) (further h)
    ∙ rw (ne→==_false b p (off h)) refl
  where
    further : Outside b p (suc (suc n)) → Outside b (p + 2) (suc n)
    further (inl q) = inl (omega arith)
    further (inr q) = inr (omega arith)

    off : Outside b p (suc (suc n)) → b ≢ p
    off (inl q) = omega arith
    off (inr q) = omega arith

delete_words_last : (n p b : ℕ) (mem : ℕ → ℕ) → b ≡ p + 2 * n → delete_words n p mem b ≡ erase
unfolding delete_words
delete_words_last zero p b mem e = let at : b ≡ p = omega arith in rw ((==_iff b p).1 at) refl
delete_words_last (suc n) p b mem e =
    delete_words_last n (p + 2) b (update mem p (mem (p + 2))) (omega arith)

delete_words-inside :
    (n p k b : ℕ) (mem : ℕ → ℕ)
    → k < n
    → b ≡ p + 2 * k
    → delete_words n p mem b ≡ mem (p + 2 * suc k)
unfolding delete_words
delete_words-inside zero p k b mem h e = absurd (omega arith)
delete_words-inside (suc n) p zero b mem h e =
    let at : b ≡ p = omega arith in
    let next : p + 2 * 1 ≡ p + 2 = omega arith in
    delete_words-Outside n (p + 2) b (update mem p (mem (p + 2))) (inl (omega arith))
    ∙ rw ((==_iff b p).1 at, next) refl
delete_words-inside (suc n) p (suc k) b mem h e =
    let at : p + 2 + 2 * suc k ≡ p + 2 * suc (suc k) = omega arith in
    let ne : p + 2 * suc (suc k) ≢ p = omega arith in
    delete_words-inside n (p + 2) k b (update mem p (mem (p + 2))) (omega arith) (omega arith)
    ∙ rw (at, ne→==_false (p + 2 * suc (suc k)) p ne) refl

module _ (v : Video) (s : Screen) (ok : Valid v s) (r c : ℕ) (in_c : c < v.columns) where
  -- A cell of another row, or one before the cursor.
  elsewhere :
      (r ≢ s.y) ⊎ (c < s.x) → Outside (s.origin + r * size_row v + c * 2) s.pos (v.columns - s.x)
  elsewhere h = elim (dec_lt r s.y) [
    | yes above ↦ let before = row_below r s.y v.columns above in inl (omega (arith, ok.at))
    | no from_row ↦ elim (dec_lt s.y r) [
      | yes below ↦
          let behind = row_below s.y r v.columns below in inr (omega (arith, ok.at, ok.in_x))
      | no in_row ↦
          let same : r ≡ s.y = omega arith in
          let line = ap (λ (k : ℕ). k * v.columns) same in
          elim h [ inl other ↦ absurd (other same) | inr left ↦ inl (omega (arith, ok.at)) ]
    ]
  ]

  behind_cursor : ((r ≢ s.y) ⊎ (c < s.x)) ⊎ ((r ≡ s.y) × (s.x ≤ c))
  behind_cursor = elim (ℕ_discrete r s.y) [
    | no other ↦ inl (inl other)
    | yes same ↦ elim (dec_lt c s.x) [
      | yes left ↦ inl (inr left)
      | no right ↦ inr (same, omega arith)
    ]
  ]

  elsewhere_false : (r ≢ s.y) ⊎ (c < s.x) → (r == s.y && leb s.x c) ≡ false
  elsewhere_false (inl other) = rw (ne→==_false r s.y other) refl
  elsewhere_false (inr left) = rw (lt→leb_false s.x c left) (ground arith)

  pub insert_char-grid : grid v (insert_char v s) r c ≡ cells_inserted s.y s.x 1 (grid v s) r c
  unfolding insert_char
  insert_char-grid = elim behind_cursor [
    | inl off ↦
        rw (elsewhere_false off)
          (insert_words-Outside (v.columns - s.x) s.pos erase _ s.mem (elsewhere off))
    | inr (same, right) ↦
        let line = ap (λ (k : ℕ). k * v.columns) same in
        let b = s.origin + r * size_row v + c * 2 in
        let k = c - s.x - 1 in
        rw ((==_iff r s.y).1 same, le→leb s.x c right)
          (elim (dec_lt c (s.x + 1)) [
            | yes at ↦ rw (lt→ltb c (s.x + 1) at) (
                insert_words_first (v.columns - s.x) s.pos erase b s.mem (omega arith)
                  (omega (arith, ok.at)))
            | no past ↦ rw (le→ltb_false c (s.x + 1) (omega arith)) (
                insert_words-inside (v.columns - s.x) s.pos erase k b s.mem (omega arith)
                  (omega (arith, ok.at))
                ∙ ap s.mem (cell_left same past))
          ])
  ]
    where
      cell_left :
          r ≡ s.y
          → ¬ (c < s.x + 1)
          → s.pos + 2 * (c - s.x - 1) ≡ s.origin + r * size_row v + (c - 1) * 2
      cell_left same h = let line = ap (λ (k : ℕ). k * v.columns) same in omega (arith, ok.at)

  pub delete_char-grid :
      grid v (delete_char v s) r c ≡ cells_deleted s.y s.x 1 v.columns (grid v s) r c
  unfolding delete_char
  delete_char-grid = elim behind_cursor [
    | inl off ↦ rw (elsewhere_false off) (elim (dec_lt s.x v.columns) [
      | no outside ↦ rw (le→leb v.columns s.x (omega arith)) refl
      | yes inside ↦
          let size : suc (v.columns - s.x - 1) ≡ v.columns - s.x = omega arith in
          rw (lt→leb_false v.columns s.x inside)
            (delete_words-Outside (v.columns - s.x - 1) s.pos _ s.mem (rw size (elsewhere off)))
    ])
    | inr (same, right) ↦
        let line = ap (λ (k : ℕ). k * v.columns) same in
        let b = s.origin + r * size_row v + c * 2 in
        rw ((==_iff r s.y).1 same, le→leb s.x c right, lt→leb_false v.columns s.x (omega arith))
          (elim (dec_lt (c + 1) v.columns) [
            | yes inner ↦
                let next : s.pos + 2 * suc (c - s.x) ≡ s.origin + r * size_row v + (c + 1) * 2 =
                  omega (arith, ok.at) in
                rw (lt→ltb (c + 1) v.columns inner) (
                  delete_words-inside (v.columns - s.x - 1) s.pos (c - s.x) b s.mem (omega arith)
                    (omega (arith, ok.at))
                  ∙ ap s.mem next)
            | no last ↦
                rw (le→ltb_false (c + 1) v.columns (omega arith))
                  (delete_words_last (v.columns - s.x - 1) s.pos b s.mem (omega (arith, ok.at)))
          ])
  ]
