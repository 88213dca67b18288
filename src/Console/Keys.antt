-- ===== src/Console/Keys.antt =====
-- The plain characters of con_write and the scroll region keep the screen valid.
use hack_linux.Base.{
  ltb, leb, ◌==◌, if◌then◌else◌, ltb→lt, ltb_false→le, leb→le, ==_false→ne, Bool-cases, ℕ, ◌+◌, ◌-◌,
  ◌*◌, ◌%◌, ◌≤◌, ◌<◌, ◌≡◌, inl, inr, false, arith,
}
use hack_linux.Console.{Video, size_row, isalpha, Screen}
use hack_linux.Console.Grid.{Fits, Valid, row_below}
use hack_linux.Console.Valid.{Tame, Tame-refl, update-Tame}
use hack_linux.Console.Kept.{Kept, Kept-refl, Kept-trans}
use hack_linux.Console.Moves.{lf-Kept, column-Kept, lf_column}
use hack_linux.Console.Write.{wrap_line, put_char, back_space, tabulate}
use hack_linux.Console.Sequences.{less_one, set_region}

module _ (v : Video) (f : Fits v) where
  pub wrap_line-Kept : (s : Screen) → Valid v s → Kept v s (wrap_line v s)
  unfolding wrap_line
  wrap_line-Kept s ok = elim (Bool-cases (leb v.columns s.x)) [
    | inr inner ↦ rw inner (Kept-refl ok)
    | inl behind ↦
        let back =
          column-Kept v s f ok (s.pos - size_row v) (s.x - v.columns) s.mem (omega (arith, ok.in_x))
            (omega (arith, ok.at, leb→le v.columns s.x behind)) (Tame-refl v s.mem) in
        rw behind (Kept-trans back (lf-Kept v _ f back.valid))
  ]

  pub wrap_line-inner : (s : Screen) → Valid v s → (wrap_line v s).x < v.columns
  unfolding wrap_line
  wrap_line-inner s ok = elim (Bool-cases (leb v.columns s.x)) [
    | inr inner ↦ rw inner (ground (arith, inner))
    | inl behind ↦
        let same = lf_column v (record s { x = s.x - v.columns; pos = s.pos - size_row v }) in
        rw behind (omega (arith, same, ok.in_x, f.wide))
  ]

  -- A character at the cursor, inside the row.
  pub put_char-Valid :
      (s : Screen) (attr c : ℕ) → Valid v s → s.x < v.columns → Valid v (put_char attr c s)
  put_char-Valid s attr c ok inner = record {
    in_x = inner_suc;
    in_y = ok.in_y;
    at = omega (arith, ok.at);
    region = ok.region;
    low = ok.low;
    start = ok.start;
    size = ok.size;
    fits = ok.fits;
  }
    where
      inner_suc : s.x + 1 ≤ v.columns
      inner_suc = omega arith

  pub put_char-Tame :
      (s : Screen) (attr c : ℕ)
      → Valid v s
      → s.x < v.columns
      → isalpha ((attr * 256 + c) % 256) ≡ false
      → Tame v s.mem (put_char attr c s).mem
  put_char-Tame s attr c ok inner dark =
      let row = row_below s.y v.lines v.columns ok.in_y in
      update-Tame v s.mem s.pos (attr * 256 + c) (omega (arith, ok.at, ok.start))
        (omega (arith, ok.at, ok.size, ok.fits)) (λ h. dark)

  pub back_space-Kept : (s : Screen) → Valid v s → Kept v s (back_space s)
  unfolding back_space
  back_space-Kept s ok = elim (Bool-cases (s.x == 0)) [
    | inl first ↦ rw first (Kept-refl ok)
    | inr more ↦
        let left = ==_false→ne s.x 0 more in
        rw more (
          column-Kept v s f ok (s.pos - 2) (s.x - 1) s.mem (omega (arith, ok.in_x))
            (omega (arith, ok.at)) (Tame-refl v s.mem))
  ]

  pub tabulate-Kept : (s : Screen) → Valid v s → Kept v s (tabulate v s)
  unfolding tabulate
  tabulate-Kept s ok =
      let c = 8 - s.x % 8 in
      elim (Bool-cases (ltb v.columns (s.x + c))) [
        | inr inner ↦ rw inner (
            column-Kept v s f ok (s.pos + c * 2) (s.x + c) s.mem
              (ltb_false→le v.columns (s.x + c) inner) (omega arith) (Tame-refl v s.mem))
        | inl behind ↦
            let past = ltb→lt v.columns (s.x + c) behind in
            let back =
              column-Kept v s f ok (s.pos + c * 2 - size_row v) (s.x + c - v.columns) s.mem
                (omega (arith, ok.in_x, f.wide)) (omega (arith, ok.at)) (Tame-refl v s.mem) in
            rw behind (Kept-trans back (lf-Kept v _ f back.valid))
      ]

  pub set_region-Kept :
      (par0 par1 : ℕ) (s : Screen) → Valid v s → Kept v s (set_region v par0 par1 s)
  unfolding set_region
  set_region-Kept par0 par1 s ok =
      let top = less_one par0 in
      let bottom : ℕ = if par1 == 0 then v.lines else par1 in
      elim (Bool-cases (ltb top bottom)) [
        | inr empty ↦ rw empty (Kept-refl ok)
        | inl order ↦ elim (Bool-cases (leb bottom v.lines)) [
          | inr low ↦ rw (order, low) (Kept-refl ok)
          | inl fits ↦
              rw (order, fits)
                (record {
                  valid = record {
                    in_x = ok.in_x;
                    in_y = ok.in_y;
                    at = ok.at;
                    region = ltb→lt top bottom order;
                    low = leb→le bottom v.lines fits;
                    start = ok.start;
                    size = ok.size;
                    fits = ok.fits;
                  };
                  tame = Tame-refl v s.mem;
                })
        ]
      ]
