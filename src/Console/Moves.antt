-- ===== src/Console/Moves.antt =====
-- The cursor moves and the erasing and editing sequences keep the screen valid, too.
use hack_linux.Base.{
  ltb, leb, ◌==◌, if◌then◌else◌, ltb→lt, ==_false→ne, Bool-cases, update, ℕ, zero, suc, ◌+◌, ◌-◌,
  ◌*◌, ◌/◌, ◌≤◌, ◌<◌, ◌≡◌, inl, inr, Bool, true, false, arith, refl,
}
use hack_linux.Console.{
  Video, erase, Screen, scrup, scrdown, lf, ri, cr, del, csi_J, csi_K, insert_char, delete_char,
  with_region, insert_line, delete_line, repeat,
}
use hack_linux.Console.Grid.{Fits, Valid, row_below, sub_mul}
use hack_linux.Console.Valid.{
  Tame, Tame-refl, erase-Tame, stosw-Tame, insert_words-Tame, delete_words-Tame,
}
use hack_linux.Console.Kept.{
  Kept, Kept-refl, Kept-trans, Kept-if, Kept-mem, scrup-Kept, scrdown-Kept, scrup_column,
}

module _ (v : Video) (s : Screen) (f : Fits v) (ok : Valid v s) where
  pub lf-Kept : Kept v s (lf v s)
  unfolding lf
  lf-Kept = elim (Bool-cases (ltb (s.y + 1) s.bottom)) [
    | inr last ↦ rw last (scrup-Kept v s f ok)
    | inl more ↦
        let less = ltb→lt (s.y + 1) s.bottom more in
        rw more (record {
          valid = record {
            in_x = ok.in_x;
            in_y = omega (arith, ok.low);
            at = omega (arith, ok.at);
            region = ok.region;
            low = ok.low;
            start = ok.start;
            size = ok.size;
            fits = ok.fits;
          };
          tame = Tame-refl v s.mem;
        })
  ]

  pub ri-Kept : Kept v s (ri v s)
  unfolding ri
  ri-Kept = elim (Bool-cases (ltb s.top s.y)) [
    | inr first ↦ rw first (scrdown-Kept v s f ok)
    | inl more ↦
        let less = ltb→lt s.top s.y more in
        let back = sub_mul 1 s.y v.columns (omega arith) in
        rw more (record {
          valid = record {
            in_x = ok.in_x;
            in_y = omega (arith, ok.in_y);
            at = omega (arith, ok.at);
            region = ok.region;
            low = ok.low;
            start = ok.start;
            size = ok.size;
            fits = ok.fits;
          };
          tame = Tame-refl v s.mem;
        })
  ]

  -- The cursor goes to another column of its row.
  pub column-Kept :
      (pos x : ℕ) (mem : ℕ → ℕ)
      → x ≤ v.columns
      → pos + s.x * 2 ≡ s.pos + x * 2
      → Tame v s.mem mem
      → Kept v s (record s { pos = pos; x = x; mem = mem })
  column-Kept pos x mem h e t = record {
    valid = record {
      in_x = h;
      in_y = ok.in_y;
      at = omega (arith, ok.at);
      region = ok.region;
      low = ok.low;
      start = ok.start;
      size = ok.size;
      fits = ok.fits;
    };
    tame = t;
  }

  pub cr-Kept : Kept v s (cr s)
  unfolding cr
  cr-Kept =
      column-Kept (s.pos - s.x * 2) 0 s.mem (omega arith) (omega (arith, ok.at)) (Tame-refl v s.mem)

  row_end : s.y * v.columns + v.columns ≤ v.lines * v.columns
  row_end = row_below s.y v.lines v.columns ok.in_y

  pub del-Kept : Kept v s (del s)
  unfolding del
  del-Kept = elim (Bool-cases (s.x == 0)) [
    | inl first ↦ rw first (Kept-refl ok)
    | inr more ↦
        let left = ==_false→ne s.x 0 more in
        let row = row_end in
        rw more (
          column-Kept (s.pos - 2) (s.x - 1) (update s.mem (s.pos - 2) erase)
            (omega (arith, ok.in_x)) (omega (arith, ok.at))
            (erase-Tame v s.mem (s.pos - 2) (omega (arith, ok.at, ok.start))
              (omega (arith, ok.at, ok.in_x, ok.size, ok.fits))))
  ]

  pub csi_J-Kept : (par : ℕ) → Kept v s (csi_J v par s)
  unfolding csi_J
  csi_J-Kept par =
      let row = row_end in
      Kept-if (par == 0)
        (Kept-mem v s _ ok (
          stosw-Tame v ((s.scr_end - s.pos) / 2) s.pos s.mem (omega (arith, ok.at, ok.start))
            (omega (arith, ok.at, ok.in_x, ok.size, ok.fits))))
        (Kept-if (par == 1)
          (Kept-mem v s _ ok (
            stosw-Tame v ((s.pos - s.origin) / 2) s.origin s.mem ok.start
              (omega (arith, ok.at, ok.in_x, ok.size, ok.fits))))
          (Kept-if (par == 2)
            (Kept-mem v s _ ok (
              stosw-Tame v (v.columns * v.lines) s.origin s.mem ok.start
                (omega (arith, ok.size, ok.fits))))
            (Kept-refl ok)))

  pub csi_K-Kept : (par : ℕ) → Kept v s (csi_K v par s)
  unfolding csi_K
  csi_K-Kept par =
      let row = row_end in
      Kept-if (par == 0)
        (Kept-if (leb v.columns s.x) (Kept-refl ok) (
          Kept-mem v s _ ok (
            stosw-Tame v (v.columns - s.x) s.pos s.mem (omega (arith, ok.at, ok.start))
              (omega (arith, ok.at, ok.in_x, ok.size, ok.fits)))))
        (Kept-if (par == 1)
          (Kept-mem v s _ ok (
            stosw-Tame v (if ltb s.x v.columns then s.x else v.columns) (s.pos - s.x * 2) s.mem
              (omega (arith, ok.at, ok.start)) (fits_row (ltb s.x v.columns))))
          (Kept-if (par == 2)
            (Kept-mem v s _ ok (
              stosw-Tame v v.columns (s.pos - s.x * 2) s.mem (omega (arith, ok.at, ok.start))
                (omega (arith, ok.at, ok.in_x, ok.size, ok.fits))))
            (Kept-refl ok)))
    where
      fits_row : (b : Bool) → s.pos - s.x * 2 + 2 * (if b then s.x else v.columns) ≤ v.mem_end
      fits_row true = omega (arith, ok.at, ok.in_x, ok.size, ok.fits, row_end)
      fits_row false = omega (arith, ok.at, ok.in_x, ok.size, ok.fits, row_end)

  pub insert_char-Kept : Kept v s (insert_char v s)
  unfolding insert_char
  insert_char-Kept =
      let row = row_end in
      Kept-mem v s _ ok (
        insert_words-Tame v (v.columns - s.x) s.pos s.mem (omega (arith, ok.at, ok.start))
          (omega (arith, ok.at, ok.in_x, ok.size, ok.fits)))

  pub delete_char-Kept : Kept v s (delete_char v s)
  unfolding delete_char
  delete_char-Kept = elim (Bool-cases (leb v.columns s.x)) [
    | inl behind ↦ rw behind (Kept-refl ok)
    | inr before ↦
        let row = row_end in
        let inner : s.x < v.columns = ground (arith, before) in
        rw before (
          Kept-mem v s _ ok (
            delete_words-Tame v (v.columns - s.x - 1) s.pos s.mem (omega (arith, ok.at, ok.start))
              (omega (arith, ok.at, ok.size, ok.fits))))
  ]

  with_region-Kept :
      (g : Screen → Screen)
      → ((t : Screen) → Valid v t → Kept v t (g t))
      → Kept v s (with_region s.y v.lines g s)
  with_region-Kept g keeps =
      let inner : Valid v (record s { top = s.y; bottom = v.lines }) = record {
        in_x = ok.in_x;
        in_y = ok.in_y;
        at = ok.at;
        region = ok.in_y;
        low = omega arith;
        start = ok.start;
        size = ok.size;
        fits = ok.fits;
      } in
      let k = keeps (record s { top = s.y; bottom = v.lines }) inner in
      record {
        valid = record {
          in_x = k.valid.in_x;
          in_y = k.valid.in_y;
          at = k.valid.at;
          region = ok.region;
          low = ok.low;
          start = k.valid.start;
          size = k.valid.size;
          fits = k.valid.fits;
        };
        tame = k.tame;
      }

  pub insert_line-Kept : Kept v s (insert_line v s)
  unfolding insert_line
  insert_line-Kept = with_region-Kept (scrdown v) (λ t o. scrdown-Kept v t f o)

  pub delete_line-Kept : Kept v s (delete_line v s)
  unfolding delete_line
  delete_line-Kept = with_region-Kept (scrup v) (λ t o. scrup-Kept v t f o)

pub repeat-Kept :
    (v : Video) (n : ℕ) (g : Screen → Screen) (s : Screen)
    → ((t : Screen) → Valid v t → Kept v t (g t))
    → Valid v s
    → Kept v s (repeat n g s)
unfolding repeat
repeat-Kept v zero g s keeps ok = Kept-refl ok
repeat-Kept v (suc n) g s keeps ok =
    let k = keeps s ok in Kept-trans k (repeat-Kept v n g (g s) keeps k.valid)

pub lf_column : (v : Video) (s : Screen) → (lf v s).x ≡ s.x
unfolding lf
lf_column v s = elim (Bool-cases (ltb (s.y + 1) s.bottom)) [
  | inl more ↦ rw more refl
  | inr last ↦ rw last (scrup_column v s)
]
