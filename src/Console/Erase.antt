-- ===== src/Console/Erase.antt =====
-- The sequences that erase a part of the screen or of a row, on rows and columns: csi_J and csi_K
-- of kernel/chr_drv/console.c (Lab 7).
use hack_linux.Base.{
  ltb, leb, ◌==◌, if◌then◌else◌, lt→ltb, le→ltb_false, leb→le, le→leb, lt→leb_false, ==_iff,
  ne→==_false, Bool-cases, ℕ, ◌+◌, ◌-◌, ◌*◌, ◌/◌, ◌≤◌, ◌<◌, ◌≡◌, refl, ap, ◌∙◌, subst, inl, inr,
  Bool, not, ◌&&◌, ◌||◌, arith, dec_lt,
}
use hack_linux.Console.{Video, size_row, erase, Screen, stosw, csi_J, csi_K}
use hack_linux.Console.Memory.{stosw-Outside, stosw-inside}
use hack_linux.Console.Grid.{Valid, grid, row_below}

-- The cell stands before the cursor, in the order of reading.
abbrev pub is_before : Screen → ℕ → ℕ → Bool
is_before s r c = ltb r s.y || r == s.y && ltb c s.x

abbrev pub screen_erased : ℕ → Screen → ℕ → ℕ → Bool
screen_erased par s r c =
    if par == 0 then not (is_before s r c) else if par == 1 then is_before s r c else par == 2

abbrev pub row_erased : ℕ → Screen → ℕ → ℕ → Bool
row_erased par s r c =
    r == s.y && (if par == 0 then leb s.x c else if par == 1 then ltb c s.x else par == 2)

-- `n` erased words from number `lo` on, read at number `i`.
stosw_at :
    (n lo i o a b : ℕ) (mem : ℕ → ℕ)
    → a ≡ o + 2 * lo
    → b ≡ o + 2 * i
    → stosw n a erase mem b ≡ (if leb lo i && ltb i (lo + n) then erase else mem b)
stosw_at n lo i o a b mem low at = elim (dec_lt i lo) [
  | yes before ↦ rw (lt→leb_false lo i before) (stosw-Outside n a erase b mem (inl (omega arith)))
  | no from ↦ elim (dec_lt i (lo + n)) [
    | yes inner ↦
        rw (le→leb lo i (omega arith), lt→ltb i (lo + n) inner)
          (stosw-inside n a erase (i - lo) b mem (omega arith) (omega arith))
    | no behind ↦
        rw (le→leb lo i (omega arith), le→ltb_false i (lo + n) (omega arith))
          (stosw-Outside n a erase b mem (inr (omega arith)))
  ]
]

module _ (v : Video) (s : Screen) (ok : Valid v s) (r c : ℕ) (in_r : r < v.lines)
    (in_c : c < v.columns) where
  abbrev number : ℕ
  number = r * v.columns + c

  abbrev cursor : ℕ
  cursor = s.y * v.columns + s.x

  number_before : is_before s r c ≡ ltb number cursor
  number_before = elim (dec_lt r s.y) [
    | yes above ↦
        let row = row_below r s.y v.columns above in
        rw (lt→ltb r s.y above, lt→ltb number cursor (omega arith)) refl
    | no from ↦ elim (dec_lt s.y r) [
      | yes below ↦
          let row = row_below s.y r v.columns below in
          rw
            (
              le→ltb_false r s.y (omega arith),
              ne→==_false r s.y (omega arith),
              le→ltb_false number cursor (omega (arith, ok.in_x)),
            )
            refl
      | no in_row ↦
          let same : r ≡ s.y = omega arith in
          let line = ap (λ (k : ℕ). k * v.columns) same in
          elim (dec_lt c s.x) [
            | yes left ↦
                rw (lt→ltb number cursor (omega arith), lt→ltb c s.x left, (==_iff r s.y).1 same)
                  (ground arith)
            | no right ↦
                rw
                  (
                    le→ltb_false number cursor (omega arith),
                    le→ltb_false c s.x (omega arith),
                    le→ltb_false r s.y (omega arith),
                    (==_iff r s.y).1 same,
                  )
                  refl
          ]
    ]
  ]

  number_inside : number < v.lines * v.columns
  number_inside = let row = row_below r v.lines v.columns in_r in omega arith

  cursor_inside : cursor ≤ v.lines * v.columns
  cursor_inside = let row = row_below s.y v.lines v.columns ok.in_y in omega (arith, ok.in_x)

  -- A part of the cursor's row, by numbers and by columns.
  row_part :
      (lo hi : ℕ)
      → lo ≤ v.columns
      → hi ≤ v.columns
      → (leb (s.y * v.columns + lo) number && ltb number (s.y * v.columns + hi))
        ≡ (r == s.y && (leb lo c && ltb c hi))
  row_part lo hi low high = elim (dec_lt r s.y) [
    | yes above ↦
        let row = row_below r s.y v.columns above in
        rw
          (
            ne→==_false r s.y (omega arith),
            lt→leb_false (s.y * v.columns + lo) number (omega arith),
          )
          refl
    | no from ↦ elim (dec_lt s.y r) [
      | yes below ↦
          let row = row_below s.y r v.columns below in
          rw
            (
              ne→==_false r s.y (omega arith),
              le→ltb_false number (s.y * v.columns + hi) (omega arith),
            )
            (ground arith)
      | no in_row ↦
          let same : r ≡ s.y = omega arith in
          let line = ap (λ (k : ℕ). k * v.columns) same in rw ((==_iff r s.y).1 same) (ground arith)
    ]
  ]

  from_start :
      (hi : ℕ)
      → hi ≤ v.columns
      → (leb (s.y * v.columns) number && ltb number (s.y * v.columns + hi)) ≡ (r == s.y && ltb c hi)
  from_start hi high =
      let part = row_part 0 hi (omega arith) high in
      subst
        (λ (a : ℕ). (leb a number && ltb number (s.y * v.columns + hi)) ≡ (r == s.y && ltb c hi))
        (omega arith) (part ∙ rw (le→leb 0 c (omega arith)) refl)

  -- csi_J erases the cells from the cursor on for 0, those before the cursor for 1, all for 2, none
  -- for another parameter, and changes no other cell of the screen.
  pub csi_J-grid :
      (par : ℕ)
      → grid v (csi_J v par s) r c ≡ (if screen_erased par s r c then erase else grid v s r c)
  unfolding csi_J
  csi_J-grid par =
      let b = s.origin + r * size_row v + c * 2 in
      let sorted = number_before in
      let inside = number_inside in
      let low = cursor_inside in
      elim (Bool-cases (par == 0)) [
        | inl after ↦
            rw
              (
                after,
                stosw_at ((s.scr_end - s.pos) / 2) cursor number s.origin s.pos b s.mem
                    (omega (arith, ok.at)) (omega arith),
                sorted,
                lt→ltb number (cursor + (s.scr_end - s.pos) / 2) (omega (arith, ok.at, ok.size)),
              )
              (ground arith)
        | inr k ↦ elim (Bool-cases (par == 1)) [
          | inl upto ↦
              let size : (s.pos - s.origin) / 2 ≡ cursor = omega (arith, ok.at) in
              rw
                (
                  k,
                  upto,
                  size,
                  stosw_at cursor 0 number s.origin s.origin b s.mem (omega arith) (omega arith),
                  sorted,
                )
                (ground arith)
          | inr l ↦ elim (Bool-cases (par == 2)) [
            | inl all ↦
                rw
                  (
                    k,
                    l,
                    all,
                    stosw_at (v.columns * v.lines) 0 number s.origin s.origin b s.mem (omega arith)
                        (omega arith),
                    lt→ltb number (0 + v.columns * v.lines) (omega arith),
                  )
                  (ground arith)
            | inr none_of ↦ rw (k, l, none_of) refl
          ]
        ]
      ]

  -- csi_K does the same in the row of the cursor.
  pub csi_K-grid :
      (par : ℕ)
      → grid v (csi_K v par s) r c ≡ (if row_erased par s r c then erase else grid v s r c)
  unfolding csi_K
  csi_K-grid par =
      let b = s.origin + r * size_row v + c * 2 in
      let start = s.y * v.columns in
      elim (Bool-cases (par == 0)) [
        | inl after ↦ elim (Bool-cases (leb v.columns s.x)) [
          | inl outside ↦
              let wide = leb→le v.columns s.x outside in
              rw (after, outside, lt→leb_false s.x c (omega arith)) (ground arith)
          | inr inside ↦
              let size : cursor + (v.columns - s.x) ≡ start + v.columns = omega (arith, ok.in_x) in
              rw
                (
                  after,
                  inside,
                  stosw_at (v.columns - s.x) cursor number s.origin s.pos b s.mem
                      (omega (arith, ok.at)) (omega arith),
                  size,
                  row_part s.x v.columns ok.in_x (omega arith),
                )
                (ground arith)
        ]
        | inr k ↦ elim (Bool-cases (par == 1)) [
          | inl upto ↦
              let cut : (if ltb s.x v.columns then s.x else v.columns) ≡ s.x =
                ground (arith, ok.in_x) in
              rw
                (
                  k,
                  upto,
                  cut,
                  stosw_at s.x start number s.origin (s.pos - s.x * 2) b s.mem
                      (omega (arith, ok.at)) (omega arith),
                  from_start s.x ok.in_x,
                )
                (ground arith)
          | inr l ↦ elim (Bool-cases (par == 2)) [
            | inl all ↦
                rw
                  (
                    k,
                    l,
                    all,
                    stosw_at v.columns start number s.origin (s.pos - s.x * 2) b s.mem
                        (omega (arith, ok.at)) (omega arith),
                    from_start v.columns (omega arith),
                  )
                  (ground arith)
            | inr none_of ↦ rw (k, l, none_of) (ground arith)
          ]
        ]
      ]
