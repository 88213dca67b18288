-- ===== src/Console/CellCounts.antt =====
-- The sequences that insert and delete characters, on rows and columns: csi_at and csi_P of
-- kernel/chr_drv/console.c (Lab 7).
use hack_linux.Base.{
  leb, Bool-cases, ℕ, zero, suc, ◌+◌, ◌-◌, ◌<◌, ◌≡◌, refl, ◌∙◌, inl, inr, arith, dec_lt,
}
use hack_linux.Console.{Video, Screen, insert_char, delete_char, repeat, clamp_count, csi_at, csi_P}
use hack_linux.Console.Grid.{Fits, Valid, grid}
use hack_linux.Console.Moves.{insert_char-Kept, delete_char-Kept}
use hack_linux.Console.Cells.{cells_inserted, cells_deleted, insert_char-grid, delete_char-grid}

delete_char_cursor :
    (v : Video) (s : Screen) → ((delete_char v s).x ≡ s.x) × ((delete_char v s).y ≡ s.y)
unfolding delete_char
delete_char_cursor v s = elim (Bool-cases (leb v.columns s.x)) [
  | inl outside ↦ rw outside (refl, refl)
  | inr inside ↦ rw inside (refl, refl)
]

insert_char_cursor :
    (v : Video) (s : Screen) → ((insert_char v s).x ≡ s.x) × ((insert_char v s).y ≡ s.y)
unfolding insert_char
insert_char_cursor v s = (refl, refl)

cells_deleted-suc :
    (y x n columns : ℕ) (g h : ℕ → ℕ → ℕ) (r c : ℕ)
    → c < columns
    → ((q : ℕ) → q < columns → h r q ≡ cells_deleted y x 1 columns g r q)
    → cells_deleted y x n columns h r c ≡ cells_deleted y x (suc n) columns g r c
cells_deleted-suc y x n columns g h r c in_c step =
    let next : c + suc n ≡ c + n + 1 = omega arith in
    let here = step c in_c in
    elim (dec_lt (c + n) columns) [
      | yes inner ↦ let there = step (c + n) inner in rw next (ground (arith, here, there))
      | no outer ↦ ground (arith, here)
    ]

cells_inserted-suc :
    (y x n columns : ℕ) (g h : ℕ → ℕ → ℕ) (r c : ℕ)
    → c < columns
    → ((q : ℕ) → q < columns → h r q ≡ cells_inserted y x 1 g r q)
    → cells_inserted y x n h r c ≡ cells_inserted y x (suc n) g r c
cells_inserted-suc y x n columns g h r c in_c step =
    let here = step c in_c in
    elim (dec_lt c (x + n)) [
      | yes inner ↦ ground (arith, here)
      | no outer ↦
          let there = step (c - n) (omega arith) in
          let before : c - n - 1 ≡ c - suc n = omega arith in ground (arith, here, there, before)
    ]

module _ (v : Video) (f : Fits v) (r : ℕ) where
  chars_deleted :
      (n : ℕ) (s : Screen) (c : ℕ)
      → Valid v s
      → c < v.columns
      → grid v (repeat n (delete_char v) s) r c ≡ cells_deleted s.y s.x n v.columns (grid v s) r c
  unfolding repeat
  chars_deleted zero s c ok in_c = ground arith
  chars_deleted (suc n) s c ok in_c =
      let t = delete_char v s in
      let k = delete_char-Kept v s f ok in
      let same = delete_char_cursor v s in
      chars_deleted n t c k.valid in_c
      ∙ rw (same.0, same.1)
          (cells_deleted-suc s.y s.x n v.columns (grid v s) (grid v t) r c in_c
            (λ q in_q. delete_char-grid v s ok r q in_q))

  chars_inserted :
      (n : ℕ) (s : Screen) (c : ℕ)
      → Valid v s
      → c < v.columns
      → grid v (repeat n (insert_char v) s) r c ≡ cells_inserted s.y s.x n (grid v s) r c
  unfolding repeat
  chars_inserted zero s c ok in_c = ground arith
  chars_inserted (suc n) s c ok in_c =
      let t = insert_char v s in
      let k = insert_char-Kept v s f ok in
      let same = insert_char_cursor v s in
      chars_inserted n t c k.valid in_c
      ∙ rw (same.0, same.1)
          (cells_inserted-suc s.y s.x n v.columns (grid v s) (grid v t) r c in_c
            (λ q in_q. insert_char-grid v s ok r q in_q))

  -- csi_P with n drops that many characters of the cursor's row from the cursor on, at least one
  -- and at most a row of them; the rest of the row moves to the left and erased cells follow it; no
  -- other cell changes.
  pub csi_P-grid :
      (n : ℕ) (s : Screen) (c : ℕ)
      → Valid v s
      → c < v.columns
      → grid v (csi_P v n s) r c
        ≡ cells_deleted s.y s.x (clamp_count v.columns n) v.columns (grid v s) r c
  csi_P-grid n s c ok in_c = chars_deleted (clamp_count v.columns n) s c ok in_c

  -- csi_at with n puts that many erased cells before the cursor, at least one and at most a row of
  -- them, and what leaves the row is lost; no other row and nothing before the cursor changes.
  pub csi_at-grid :
      (n : ℕ) (s : Screen) (c : ℕ)
      → Valid v s
      → c < v.columns
      → grid v (csi_at v n s) r c ≡ cells_inserted s.y s.x (clamp_count v.columns n) (grid v s) r c
  csi_at-grid n s c ok in_c = chars_inserted (clamp_count v.columns n) s c ok in_c
