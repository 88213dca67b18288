-- ===== src/Console/Edit.antt =====
-- The sequences that insert and delete lines, on rows and columns: csi_L and csi_M of
-- kernel/chr_drv/console.c (Lab 7).
use hack_linux.Base.{
  ltb, leb, ◌==◌, if◌then◌else◌, lt→leb_false, Bool-cases, ℕ, zero, suc, ◌+◌, ◌-◌, ◌<◌, ◌≡◌, refl,
  ◌∙◌, inl, inr, ◌&&◌, arith, dec_lt,
}
use hack_linux.Console.{
  Video, size_row, erase, is_ega, Screen, scroll_origin, move_up, scrup, scrdown, insert_line,
  delete_line, repeat, clamp_count, csi_L, csi_M,
}
use hack_linux.Console.Grid.{Fits, Valid, grid, scrolled_up, scrolled_down}
use hack_linux.Console.Scroll.{scrup-grid, scrdown-grid}
use hack_linux.Console.Moves.{insert_line-Kept, delete_line-Kept}

-- `n` rows put before the row `y`, and `n` rows dropped from there on.
abbrev pub rows_inserted : ℕ → ℕ → (ℕ → ℕ → ℕ) → ℕ → ℕ → ℕ
rows_inserted y n g r c = if leb y r then if ltb r (y + n) then erase else g (r - n) c else g r c

abbrev pub rows_deleted : ℕ → ℕ → ℕ → (ℕ → ℕ → ℕ) → ℕ → ℕ → ℕ
rows_deleted y n lines g r c =
    if leb y r then if ltb (r + n) lines then g (r + n) c else erase else g r c

from_row : (v : Video) (s : Screen) → Valid v s → Valid v (record s { top = s.y; bottom = v.lines })
from_row v s ok = record {
  in_x = ok.in_x;
  in_y = ok.in_y;
  at = ok.at;
  region = ok.in_y;
  low = omega arith;
  start = ok.start;
  size = ok.size;
  fits = ok.fits;
}

scrup_row : (v : Video) (s : Screen) → (scrup v s).y ≡ s.y
unfolding scrup scroll_origin move_up
scrup_row v s = elim (Bool-cases (is_ega v.video_type && (s.top == 0 && s.bottom == v.lines))) [
  | inr slow ↦ rw slow refl
  | inl fast ↦ elim (Bool-cases (ltb v.mem_end (s.scr_end + size_row v))) [
    | inl wraps ↦ rw (fast, wraps) refl
    | inr room ↦ rw (fast, room) refl
  ]
]

delete_line_row : (v : Video) (s : Screen) → (delete_line v s).y ≡ s.y
unfolding delete_line
delete_line_row v s = scrup_row v (record s { top = s.y; bottom = v.lines })

insert_line_row : (v : Video) (s : Screen) → (insert_line v s).y ≡ s.y
unfolding insert_line scrdown
insert_line_row v s = refl

rows_deleted-suc :
    (y n lines : ℕ) (g h : ℕ → ℕ → ℕ) (r c : ℕ)
    → y < lines
    → r < lines
    → ((q : ℕ) → q < lines → h q c ≡ scrolled_up y lines g q c)
    → rows_deleted y n lines h r c ≡ rows_deleted y (suc n) lines g r c
rows_deleted-suc y n lines g h r c in_y in_r step =
    let next : r + suc n ≡ r + n + 1 = omega arith in
    elim (dec_lt r y) [
      | yes above ↦ let here = step r in_r in rw (lt→leb_false y r above) (ground (arith, here))
      | no from_y ↦ elim (dec_lt (r + n) lines) [
        | yes inner ↦ let there = step (r + n) inner in rw next (ground (arith, there))
        | no outer ↦ ground arith
      ]
    ]

rows_inserted-suc :
    (y n lines : ℕ) (g h : ℕ → ℕ → ℕ) (r c : ℕ)
    → r < lines
    → ((q : ℕ) → q < lines → h q c ≡ scrolled_down y lines g q c)
    → rows_inserted y n h r c ≡ rows_inserted y (suc n) g r c
rows_inserted-suc y n lines g h r c in_r step = elim (dec_lt r y) [
  | yes above ↦ let here = step r in_r in rw (lt→leb_false y r above) (ground (arith, here))
  | no from_y ↦ elim (dec_lt r (y + n)) [
    | yes inner ↦ ground arith
    | no outer ↦
        let there = step (r - n) (omega arith) in
        let before : r - n - 1 ≡ r - suc n = omega arith in ground (arith, there, before)
  ]
]

module _ (v : Video) (f : Fits v) where
  delete_line-grid :
      (s : Screen) (r c : ℕ)
      → Valid v s
      → r < v.lines
      → c < v.columns
      → grid v (delete_line v s) r c ≡ scrolled_up s.y v.lines (grid v s) r c
  unfolding delete_line
  delete_line-grid s r c ok in_r in_c =
      scrup-grid v (record s { top = s.y; bottom = v.lines }) f (from_row v s ok) r c in_r in_c

  insert_line-grid :
      (s : Screen) (r c : ℕ)
      → Valid v s
      → r < v.lines
      → c < v.columns
      → grid v (insert_line v s) r c ≡ scrolled_down s.y v.lines (grid v s) r c
  unfolding insert_line
  insert_line-grid s r c ok in_r in_c =
      scrdown-grid v (record s { top = s.y; bottom = v.lines }) f (from_row v s ok) r c in_r in_c

  lines_deleted :
      (n : ℕ) (s : Screen) (r c : ℕ)
      → Valid v s
      → r < v.lines
      → c < v.columns
      → grid v (repeat n (delete_line v) s) r c ≡ rows_deleted s.y n v.lines (grid v s) r c
  unfolding repeat
  lines_deleted zero s r c ok in_r in_c = ground arith
  lines_deleted (suc n) s r c ok in_r in_c =
      let t = delete_line v s in
      let k = delete_line-Kept v s f ok in
      let ih = lines_deleted n t r c k.valid in_r in_c in
      let same = delete_line_row v s in
      ih
      ∙ rw same (
          rows_deleted-suc s.y n v.lines (grid v s) (grid v t) r c ok.in_y in_r
            (λ q in_q. delete_line-grid s q c ok in_q in_c))

  lines_inserted :
      (n : ℕ) (s : Screen) (r c : ℕ)
      → Valid v s
      → r < v.lines
      → c < v.columns
      → grid v (repeat n (insert_line v) s) r c ≡ rows_inserted s.y n (grid v s) r c
  unfolding repeat
  lines_inserted zero s r c ok in_r in_c = ground arith
  lines_inserted (suc n) s r c ok in_r in_c =
      let t = insert_line v s in
      let k = insert_line-Kept v s f ok in
      let ih = lines_inserted n t r c k.valid in_r in_c in
      let same = insert_line_row v s in
      ih
      ∙ rw same (
          rows_inserted-suc s.y n v.lines (grid v s) (grid v t) r c in_r
            (λ q in_q. insert_line-grid s q c ok in_q in_c))

  -- csi_L with n puts that many erased rows before the row of the cursor, at least one and at most
  -- the lines of the screen, and the rows that leave the screen are lost; the rows above stay.
  pub csi_L-grid :
      (n : ℕ) (s : Screen) (r c : ℕ)
      → Valid v s
      → r < v.lines
      → c < v.columns
      → grid v (csi_L v n s) r c ≡ rows_inserted s.y (clamp_count v.lines n) (grid v s) r c
  csi_L-grid n s r c ok in_r in_c = lines_inserted (clamp_count v.lines n) s r c ok in_r in_c

  -- csi_M with n drops that many rows from the row of the cursor on, at least one and at most the
  -- lines of the screen; the rows below move up and erased ones follow them; the rows above stay.
  pub csi_M-grid :
      (n : ℕ) (s : Screen) (r c : ℕ)
      → Valid v s
      → r < v.lines
      → c < v.columns
      → grid v (csi_M v n s) r c ≡ rows_deleted s.y (clamp_count v.lines n) v.lines (grid v s) r c
  csi_M-grid n s r c ok in_r in_c = lines_deleted (clamp_count v.lines n) s r c ok in_r in_c
