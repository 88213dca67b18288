-- ===== src/Console/Safe.antt =====
-- con_write as a whole: it keeps the screen valid, writes to the video memory only, and with F12
-- pressed puts no letter on the screen.
use hack_linux.Base.{
  ltb, leb, ◌==◌, Bool-cases, update, ℕ, ◌+◌, ◌-◌, ◌*◌, ◌%◌, ◌<◌, ◌≡◌, refl, inl, inr, true, ◌&&◌,
  Option, none, some, List, [], ◌∷◌, arith,
}
use hack_linux.Console.{Video}
use hack_linux.Console.Grid.{Fits}
use hack_linux.Console.Write.{Console, word}
use hack_linux.Console.Sequences.{
  csi_move, csi_other, move_or, csi_final, csi_param, csi_start, con_char, con_chars, con_write,
}
use hack_linux.Console.Written.{
  Good, Written, Written-refl, Written-trans, Written-if, same-Written, plain-Written, goto-Written,
  escape-Written, csi_other-Written,
}

move_or-Written :
    (v : Video) (f : Fits v) (con other : Console) (o : Option (ℕ × ℕ))
    → Good v con
    → Written v con other
    → Written v con (move_or v o con other)
move_or-Written v f con other none g w = w
move_or-Written v f con other (some (x, y)) g w = goto-Written v f con g x y

module _ (v : Video) (f : Fits v) where
  csi_final-Written : (c : ℕ) (con : Console) → Good v con → Written v con (csi_final v c con)
  unfolding csi_final
  csi_final-Written c con g =
      let quit = record con { state = 0 } in
      let start = same-Written v f con g quit g.par_index refl refl in
      Written-trans start (
        move_or-Written v f quit (csi_other v c quit) (csi_move c con.par con.screen) start.good
          (csi_other-Written v f quit start.good c))

  csi_param-Written : (c : ℕ) (con : Console) → Good v con → Written v con (csi_param v c con)
  unfolding csi_param
  csi_param-Written c con g = elim (Bool-cases (c == b';' && ltb con.npar 15)) [
    | inl more ↦
        rw more (same-Written v f con g (record con { npar = con.npar + 1 }) (next more) refl refl)
    | inr other ↦ rw other (
        Written-if (leb b'0' c && leb c b'9')
          (same-Written v f con g
            (record con {
              par = update con.par con.npar ((10 * con.par con.npar + c - b'0') % word);
            })
            g.par_index refl refl)
          (csi_final-Written c con g))
  ]
    where
      next : (c == b';' && ltb con.npar 15) ≡ true → con.npar + 1 < 16
      next h = ground (arith, h)

  csi_start-Written : (c : ℕ) (con : Console) → Good v con → Written v con (csi_start v c con)
  unfolding csi_start
  csi_start-Written c con g =
      let cleared = record con { par = λ i. 0; npar = 0; state = 3; ques = c == b'?' } in
      let start = same-Written v f con g cleared (omega arith) refl refl in
      Written-if (c == b'?') start (Written-trans start (csi_param-Written c cleared start.good))

  con_char-Written :
      (erase_char c : ℕ) (con : Console) → Good v con → Written v con (con_char v erase_char con c)
  unfolding con_char
  con_char-Written erase_char c con g =
      Written-if (con.state == 0) (plain-Written v f con g erase_char c) (
        Written-if (con.state == 1) (escape-Written v f con g c) (
          Written-if (con.state == 2) (csi_start-Written c con g) (
            Written-if (con.state == 3) (csi_param-Written c con g)
              (Written-if (con.state == 4) (csi_final-Written c con g) (Written-refl v con g)))))

  con_chars-Written :
      (erase_char : ℕ) (cs : List ℕ) (con : Console)
      → Good v con
      → Written v con (con_chars v erase_char cs con)
  unfolding con_chars
  con_chars-Written erase_char [] con g = Written-refl v con g
  con_chars-Written erase_char (c ∷ cs) con g =
      let first = con_char-Written erase_char c con g in
      Written-trans first (con_chars-Written erase_char cs (con_char v erase_char con c) first.good)

  -- con_write, from a valid state, with any characters and in any state of an escape sequence,
  -- keeps the cursor on the screen and `pos` its address, the scroll region not empty and the
  -- screen in the video memory, keeps `npar` below the size of `par`, and changes no word outside
  -- the video memory. With the F12 flag set, a memory without letters is without letters
  -- afterwards.
  pub con_write-Written :
      (erase_char : ℕ) (cs : List ℕ) (con : Console)
      → Good v con
      → Written v con (con_write v erase_char cs con)
  unfolding con_write
  con_write-Written erase_char cs con g =
      let w = con_chars-Written erase_char cs con g in
      record {
        good = record {
          valid = record {
            in_x = w.good.valid.in_x;
            in_y = w.good.valid.in_y;
            at = w.good.valid.at;
            region = w.good.valid.region;
            low = w.good.valid.low;
            start = w.good.valid.start;
            size = w.good.valid.size;
            fits = w.good.valid.fits;
          };
          par_index = w.good.par_index;
        };
        flag = w.flag;
        frame = w.frame;
        obscure = w.obscure;
      }
