-- ===== src/Console/Final.antt =====
-- What a control sequence does to the rows and columns: `case 4` of con_write,
-- kernel/chr_drv/console.c (Lab 7).
use hack_linux.Base.{
  ltb, leb, ◌==◌, if◌then◌else◌, ne→==_false, Bool-cases, Option-cases, ℕ, ◌<◌, ◌≡◌, refl, subst,
  inl, inr, Bool, true, false, ◌&&◌, ◌||◌, none, some, ℕ_discrete,
}
use hack_linux.Console.{Video, erase, Screen, gotoxy, clamp_count}
use hack_linux.Console.Grid.{Fits, Valid, grid}
use hack_linux.Console.Erase.{screen_erased, row_erased, csi_J-grid, csi_K-grid}
use hack_linux.Console.Cells.{cells_inserted, cells_deleted}
use hack_linux.Console.Edit.{rows_inserted, rows_deleted, csi_L-grid, csi_M-grid}
use hack_linux.Console.CellCounts.{csi_P-grid, csi_at-grid}
use hack_linux.Console.Write.{Console}
use hack_linux.Console.Sequences.{less_one, set_region, csi_move, csi_other, csi_final}

-- The cells after the sequence with the final character `c` and the first parameter `n`.
abbrev pub edited : Video → ℕ → ℕ → Screen → (ℕ → ℕ → ℕ) → ℕ → ℕ → ℕ
edited v c n s g row col =
    if c == b'J'
    then if screen_erased n s row col then erase else g row col
    else if c == b'K'
    then if row_erased n s row col then erase else g row col
    else if c == b'L'
    then rows_inserted s.y (clamp_count v.lines n) g row col
    else if c == b'M'
    then rows_deleted s.y (clamp_count v.lines n) v.lines g row col
    else if c == b'P'
    then cells_deleted s.y s.x (clamp_count v.columns n) v.columns g row col
    else if c == b'@'
    then cells_inserted s.y s.x (clamp_count v.columns n) g row col
    else g row col

grid-gotoxy :
    (v : Video) (x y : ℕ) (s : Screen) (row col : ℕ)
    → grid v (gotoxy v x y s) row col ≡ grid v s row col
unfolding gotoxy
grid-gotoxy v x y s row col = elim (Bool-cases (ltb v.columns x || leb v.lines y)) [
  | inl out ↦ rw out refl
  | inr inside ↦ rw inside refl
]

grid-set_region :
    (v : Video) (p q : ℕ) (s : Screen) (row col : ℕ)
    → grid v (set_region v p q s) row col ≡ grid v s row col
unfolding set_region
grid-set_region v p q s row col =
    let bottom : ℕ = if q == 0 then v.lines else q in
    elim (Bool-cases (ltb (less_one p) bottom && leb bottom v.lines)) [
      | inl ok ↦ rw ok refl
      | inr bad ↦ rw bad refl
    ]

record ShowsCell (v : Video) (row col : ℕ) (con : Console) (w : ℕ) : Type 0 where
  cell : grid v con.screen row col ≡ w

-- A test of the code and the same test of the specification.
both :
    {v : Video} {row col : ℕ} (test : Bool) {a b : Console} {p q : ℕ}
    → ShowsCell v row col a p
    → ShowsCell v row col b q
    → ShowsCell v row col (if test then a else b) (if test then p else q)
both true h k = h
both false h k = k

other_only :
    {v : Video} {row col : ℕ} (test : Bool) {a b : Console} {p : ℕ}
    → ShowsCell v row col a p
    → ShowsCell v row col b p
    → ShowsCell v row col (if test then a else b) p
other_only true h k = h
other_only false h k = k

cell_of :
    {v : Video} {row col : ℕ} (con : Console) {w : ℕ}
    → grid v con.screen row col ≡ w
    → ShowsCell v row col con w
cell_of con h = record { cell = h }

module _ (v : Video) (f : Fits v) (con : Console) (ok : Valid v con.screen) (row col : ℕ)
    (in_row : row < v.lines) (in_col : col < v.columns) where
  csi_other-grid :
      (c : ℕ)
      → grid v (csi_other v c con).screen row col
        ≡ edited v c (con.par 0) con.screen (grid v con.screen) row col
  unfolding csi_other
  csi_other-grid c =
      let n = con.par 0 in
      let s = con.screen in
      let cells : ShowsCell v row col (csi_other v c con) (edited v c n s (grid v s) row col) =
        both (c == b'J') (cell_of _ (csi_J-grid v s ok row col in_row in_col n)) (
          both (c == b'K') (cell_of _ (csi_K-grid v s ok row col in_row in_col n)) (
            both (c == b'L') (cell_of _ (csi_L-grid v f n s row col ok in_row in_col)) (
              both (c == b'M') (cell_of _ (csi_M-grid v f n s row col ok in_row in_col)) (
                both (c == b'P') (cell_of _ (csi_P-grid v f row n s col ok in_col)) (
                  both (c == b'@') (cell_of _ (csi_at-grid v f row n s col ok in_col)) (
                    other_only (c == b'm') (cell_of _ refl) (
                      other_only (c == b'r') (cell_of _ (grid-set_region v n (con.par 1) s row col))
                        (other_only (c == b's') (cell_of _ refl) (
                          other_only (c == b'u')
                            (cell_of _ (grid-gotoxy v con.saved_x con.saved_y s row col))
                            (cell_of _ refl)))))))))) in
      cells.cell

no_move :
    (par : ℕ → ℕ) (s : Screen) (c d : ℕ) (o : ℕ × ℕ)
    → csi_move c par s ≡ some o
    → csi_move d par s ≡ none
    → (c == d) ≡ false
no_move par s c d o h k = elim (ℕ_discrete c d) [
  | no other ↦ ne→==_false c d other
  | yes same ↦
      let at : csi_move d par s ≡ some o = subst (λ e. csi_move e par s ≡ some o) same h in cc
]

moves_edit_nothing :
    (v : Video) (par : ℕ → ℕ) (s : Screen) (c n : ℕ) (o : ℕ × ℕ) (g : ℕ → ℕ → ℕ) (row col : ℕ)
    → csi_move c par s ≡ some o
    → edited v c n s g row col ≡ g row col
unfolding csi_move
moves_edit_nothing v par s c n o g row col h =
    rw
      (
        no_move par s c b'J' o h refl,
        no_move par s c b'K' o h refl,
        no_move par s c b'L' o h refl,
        no_move par s c b'M' o h refl,
        no_move par s c b'P' o h refl,
        no_move par s c b'@' o h refl,
      )
      refl

-- The last character of a control sequence on a valid screen, whatever it is: J and K erase a part
-- of the screen or of the row, L and M insert and delete lines, @ and P insert and delete
-- characters, as the specification on rows and columns says, and no other character changes a cell
-- of the screen.
pub csi_final-grid :
    (v : Video) (c : ℕ) (con : Console) (row col : ℕ)
    → Fits v
    → Valid v con.screen
    → row < v.lines
    → col < v.columns
    → grid v (csi_final v c con).screen row col
      ≡ edited v c (con.par 0) con.screen (grid v con.screen) row col
unfolding csi_final
csi_final-grid v c con row col f ok in_row in_col =
    elim (Option-cases (csi_move c con.par con.screen)) [
      | inl none_of ↦
          rw none_of (csi_other-grid v f (record con { state = 0 }) ok row col in_row in_col c)
      | inr (o, h) ↦
          rw
            (
              h,
              moves_edit_nothing v con.par con.screen c (con.par 0) o (grid v con.screen) row col h,
            )
            (grid-gotoxy v o.0 o.1 con.screen row col)
    ]
