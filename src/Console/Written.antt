-- ===== src/Console/Written.antt =====
-- What con_write keeps, for the characters and the escape sequences one by one.
use hack_linux.Base.{
  ltb, ◌==◌, if◌then◌else◌, Bool-cases, ℕ, ◌+◌, ◌*◌, ◌%◌, ◌≤◌, ◌<◌, ◌≡◌, refl, sym, ◌∙◌, subst, ◌⊎◌,
  inl, inr, Bool, true, false, ◌&&◌, ◌||◌, arith,
}
use hack_linux.Console.{
  Video, isalpha, Screen, gotoxy, lf, cr, del, csi_J, csi_K, insert_char, delete_char, insert_line,
  delete_line, repeat, clamp_count,
}
use hack_linux.Console.Grid.{Fits, Valid, row_below}
use hack_linux.Console.Valid.{NoLetters, update-frame}
use hack_linux.Console.Kept.{Kept, Kept-refl, gotoxy-Kept}
use hack_linux.Console.Moves.{
  lf-Kept, ri-Kept, cr-Kept, del-Kept, csi_J-Kept, csi_K-Kept, insert_char-Kept, delete_char-Kept,
  insert_line-Kept, delete_line-Kept, repeat-Kept,
}
use hack_linux.Console.Write.{
  Console, on_screen, obscured, wrap_line, put_char, back_space, tabulate, sysbeep, plain, respond,
  save_cur, add_word, escape,
}
use hack_linux.Console.Sequences.{csi_m, set_region, csi_other}
use hack_linux.Console.Keys.{
  wrap_line-Kept, wrap_line-inner, put_char-Valid, put_char-Tame, back_space-Kept, tabulate-Kept,
  set_region-Kept,
}

-- The screen is valid and `par[npar]` is an element of the array.
pub record Good (v : Video) (con : Console) : Type 0 where
  pub valid : Valid v con.screen
  pub par_index : con.npar < 16

-- What the output of some characters leads to.
pub record Written (v : Video) (con con' : Console) : Type 0 where
  pub good : Good v con'
  pub flag : con'.f12_flag ≡ con.f12_flag
  pub frame : (b : ℕ) → (b < v.mem_start) ⊎ (v.mem_end ≤ b) → con'.screen.mem b ≡ con.screen.mem b
  pub obscure : con.f12_flag ≡ true → NoLetters con.screen.mem → NoLetters con'.screen.mem

pub Written-refl : (v : Video) (con : Console) → Good v con → Written v con con
Written-refl v con g = record { good = g; flag = refl; frame = λ b h. refl; obscure = λ h n. n }

pub Written-trans : {v : Video} {a b c : Console} → Written v a b → Written v b c → Written v a c
Written-trans p q = record {
  good = q.good;
  flag = q.flag ∙ p.flag;
  frame = λ i h. q.frame i h ∙ p.frame i h;
  obscure = λ h n. q.obscure (p.flag ∙ h) (p.obscure h n);
}

pub Written-if :
    {v : Video} {con : Console} (b : Bool) {p q : Console}
    → Written v con p
    → Written v con q
    → Written v con (if b then p else q)
Written-if true k l = k
Written-if false k l = l

-- A change of the screen that no letter depends on.
pub Written-Kept :
    (v : Video) (con con' : Console)
    → con'.npar < 16
    → con'.f12_flag ≡ con.f12_flag
    → Kept v con.screen con'.screen
    → Written v con con'
Written-Kept v con con' index flag k = record {
  good = record { valid = k.valid; par_index = index };
  flag = flag;
  frame = k.tame.frame;
  obscure = λ h n. k.tame.clean n;
}

-- With the flag set, no printable character is shown as a letter.
obscured-dark : (attr c : ℕ) → c < 127 → isalpha ((attr * 256 + obscured true c) % 256) ≡ false
obscured-dark attr c h = elim (Bool-cases (isalpha c)) [
  | inl letter ↦ let star : (attr * 256 + 42) % 256 ≡ 42 = omega arith in rw (letter, star) refl
  | inr other ↦ let same : (attr * 256 + c) % 256 ≡ c = omega arith in rw (other, same) other
]

module _ (v : Video) (f : Fits v) (con : Console) (g : Good v con) where
  print-Written :
      (c : ℕ)
      → c < 127
      → Written v con
          (on_screen (λ s. put_char con.attr (obscured con.f12_flag c) (wrap_line v s)) con)
  print-Written c small =
      let s = wrap_line v con.screen in
      let k = wrap_line-Kept v f con.screen g.valid in
      let inner = wrap_line-inner v f con.screen g.valid in
      let row = row_below s.y v.lines v.columns k.valid.in_y in
      let w = con.attr * 256 + obscured con.f12_flag c in
      record {
        good = record {
          valid = put_char-Valid v f s con.attr (obscured con.f12_flag c) k.valid inner;
          par_index = g.par_index;
        };
        flag = refl;
        frame = λ b h.
            update-frame v s.mem s.pos w b (omega (arith, k.valid.at, k.valid.start))
              (omega (arith, k.valid.at, k.valid.size, k.valid.fits)) h
            ∙ k.tame.frame b h;
        obscure = λ on n.
            (put_char-Tame v f s con.attr (obscured con.f12_flag c) k.valid inner (
                subst (λ b. isalpha ((con.attr * 256 + obscured b c) % 256) ≡ false) (sym on)
                  (obscured-dark con.attr c small))).clean
              (k.tame.clean n);
      }

  screen-Written :
      (h : Screen → Screen) → Kept v con.screen (h con.screen) → Written v con (on_screen h con)
  screen-Written h k = Written-Kept v con (on_screen h con) g.par_index refl k

  -- A change of anything but the screen and the flag.
  pub same-Written :
      (con' : Console)
      → con'.npar < 16
      → con'.f12_flag ≡ con.f12_flag
      → con'.screen ≡ con.screen
      → Written v con con'
  same-Written con' index flag same =
      Written-Kept v con con' index flag
        (subst (λ s. Kept v con.screen s) (sym same) (Kept-refl g.valid))

  pub plain-Written : (erase_char c : ℕ) → Written v con (plain v erase_char c con)
  unfolding plain
  plain-Written erase_char c = elim (Bool-cases (ltb 31 c && ltb c 127)) [
    | inl printable ↦ rw printable (print-Written c (ground arith))
    | inr other ↦ rw other (
        Written-if (c == 27) (same-Written (record con { state = 1 }) g.par_index refl refl) (
          Written-if (c == 10 || c == 11 || c == 12)
            (screen-Written (lf v) (lf-Kept v con.screen f g.valid))
            (Written-if (c == 13) (screen-Written cr (cr-Kept v con.screen f g.valid)) (
              Written-if (ltb c 128 && c == erase_char)
                (screen-Written del (del-Kept v con.screen f g.valid))
                (Written-if (c == 8)
                  (screen-Written back_space (back_space-Kept v f con.screen g.valid))
                  (Written-if (c == 9)
                    (screen-Written (tabulate v) (tabulate-Kept v f con.screen g.valid))
                    (Written-if (c == 7) (same-Written (sysbeep con) g.par_index refl refl)
                      (Written-refl v con g))))))))
  ]

  pub goto-Written : (x y : ℕ) → Written v con (on_screen (gotoxy v x y) con)
  goto-Written x y = screen-Written (gotoxy v x y) (gotoxy-Kept v con.screen f g.valid x y)

  pub escape-Written : (c : ℕ) → Written v con (escape v c con)
  unfolding escape
  escape-Written c =
      let quit = record con { state = 0 } in
      let still = same-Written quit g.par_index refl refl in
      Written-if (c == b'[') (same-Written (record con { state = 2 }) g.par_index refl refl) (
        Written-if (c == b'E')
          (Written-Kept v con _ g.par_index refl
            (gotoxy-Kept v con.screen f g.valid 0 (add_word con.screen.y 1)))
          (Written-if (c == b'M')
            (Written-Kept v con _ g.par_index refl (ri-Kept v con.screen f g.valid))
            (Written-if (c == b'D')
              (Written-Kept v con _ g.par_index refl (lf-Kept v con.screen f g.valid))
              (Written-if (c == b'Z') (same-Written (respond quit) g.par_index refl refl) (
                Written-if (con.screen.x == b'7')
                  (same-Written (save_cur quit) g.par_index refl refl)
                  (Written-if (con.screen.x == b'8')
                    (Written-Kept v con _ g.par_index refl
                      (gotoxy-Kept v con.screen f g.valid con.saved_x con.saved_y))
                    still))))))

  repeated :
      (n : ℕ) (h : Screen → Screen)
      → ((t : Screen) → Valid v t → Kept v t (h t))
      → Written v con (on_screen (repeat n h) con)
  repeated n h keeps = screen-Written (repeat n h) (repeat-Kept v n h con.screen keeps g.valid)

  pub csi_other-Written : (c : ℕ) → Written v con (csi_other v c con)
  unfolding csi_other
  csi_other-Written c =
      let n = con.par 0 in
      Written-if (c == b'J') (screen-Written (csi_J v n) (csi_J-Kept v con.screen f g.valid n)) (
        Written-if (c == b'K') (screen-Written (csi_K v n) (csi_K-Kept v con.screen f g.valid n)) (
          Written-if (c == b'L')
            (repeated (clamp_count v.lines n) (insert_line v) (λ t o. insert_line-Kept v t f o))
            (Written-if (c == b'M')
              (repeated (clamp_count v.lines n) (delete_line v) (λ t o. delete_line-Kept v t f o))
              (Written-if (c == b'P')
                (repeated (clamp_count v.columns n) (delete_char v)
                  (λ t o. delete_char-Kept v t f o))
                (Written-if (c == b'@')
                  (repeated (clamp_count v.columns n) (insert_char v)
                    (λ t o. insert_char-Kept v t f o))
                  (Written-if (c == b'm')
                    (same-Written (record con { attr = csi_m (con.npar + 1) 0 con.par con.attr })
                      g.par_index refl refl)
                    (Written-if (c == b'r')
                      (screen-Written (set_region v n (con.par 1))
                        (set_region-Kept v f n (con.par 1) con.screen g.valid))
                      (Written-if (c == b's') (same-Written (save_cur con) g.par_index refl refl) (
                        Written-if (c == b'u') (goto-Written con.saved_x con.saved_y)
                          (Written-refl v con g))))))))))
