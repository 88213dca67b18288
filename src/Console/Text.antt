-- ===== src/Console/Text.antt =====
-- Text without control characters: kernel/chr_drv/console.c (Lab 7).
use hack_linux.Base.{
  lt→ltb, lt→leb_false, ==_iff, ne→==_false, ==_refl, length, get_elem?, ℕ, zero, suc, ◌+◌, ◌*◌,
  ◌≤◌, ◌<◌, ◌≡◌, refl, ap, ◌∙◌, ◌≢◌, ◌⊎◌, inl, inr, Bool, true, false, Bool-cases, some, List, [],
  ◌∷◌, arith, dec_lt,
}
use hack_linux.Console.{Video, size_row, isalpha, Screen}
use hack_linux.Console.Memory.{Outside}
use hack_linux.Console.Grid.{Valid, grid, row_below}
use hack_linux.Console.Write.{Console, on_screen, obscured, wrap_line, put_char, plain}
use hack_linux.Console.Sequences.{con_char, con_chars, con_write}

-- A text of printable characters.
abbrev pub Printable : List ℕ → Type 0
Printable cs = (i c : ℕ) → get_elem? cs i ≡ some c → (31 < c) × (c < 127)

abbrev pub Letter : ℕ → Type 0
Letter c = ((65 ≤ c) × (c ≤ 90)) ⊎ ((97 ≤ c) × (c ≤ 122))

-- What the screen shows for a character: a star for a letter under the F12 flag, and else itself.
pub data Shown (f12_flag : Bool) (c : ℕ) : ℕ → Type 0 where
  star : f12_flag ≡ true → Letter c → Shown f12_flag c 42
  itself : (f12_flag ≡ false) ⊎ ¬ Letter c → Shown f12_flag c c

obscured-Shown : (f12_flag : Bool) (c : ℕ) → Shown f12_flag c (obscured f12_flag c)
obscured-Shown false c = itself (inl refl)
obscured-Shown true c = elim (Bool-cases (isalpha c)) [
  | inl yes_alpha ↦ rw yes_alpha (star refl (ground arith))
  | inr no_alpha ↦ rw no_alpha (itself (inr (λ l. ground arith)))
]

-- The characters written one after the other, without a look at the end of the row.
abbrev pub write_text : ℕ → Bool → List ℕ → Screen → Screen
write_text attr f12_flag [] s = s
write_text attr f12_flag (c ∷ cs) s =
    write_text attr f12_flag cs (put_char attr (obscured f12_flag c) s)

-- The row of the cursor shows the text from the old column on, the rest of the screen stays, and
-- the cursor stands behind the text.
pub record Printed (v : Video) (cs : List ℕ) (con con' : Console) : Type 0 where
  pub shown :
      (i c : ℕ)
      → get_elem? cs i ≡ some c
      → (g : ℕ) × Shown con.f12_flag c g
        × (grid v con'.screen con.screen.y (con.screen.x + i) ≡ con.attr * 256 + g)
  pub rest :
      (r c : ℕ)
      → r < v.lines
      → c < v.columns
      → (r ≢ con.screen.y) ⊎ ((c < con.screen.x) ⊎ (con.screen.x + length cs ≤ c))
      → grid v con'.screen r c ≡ grid v con.screen r c
  pub column : con'.screen.x ≡ con.screen.x + length cs
  pub row : con'.screen.y ≡ con.screen.y
  pub ground_state : con'.state ≡ 0

module _ (attr : ℕ) (flag : Bool) where
  text-Outside :
      (cs : List ℕ) (s : Screen) (b : ℕ)
      → Outside b s.pos (length cs)
      → (write_text attr flag cs s).mem b ≡ s.mem b
  text-Outside [] s b h = refl
  text-Outside (c ∷ cs) s b h =
      text-Outside cs (put_char attr (obscured flag c) s) b (further h)
      ∙ rw (ne→==_false b s.pos (off h)) refl
    where
      further : Outside b s.pos (suc (length cs)) → Outside b (s.pos + 2) (length cs)
      further (inl p) = inl (omega arith)
      further (inr p) = inr (omega arith)

      off : Outside b s.pos (suc (length cs)) → b ≢ s.pos
      off (inl p) = omega arith
      off (inr p) = omega arith

  text-inside :
      (cs : List ℕ) (s : Screen) (i c : ℕ)
      → get_elem? cs i ≡ some c
      → (write_text attr flag cs s).mem (s.pos + 2 * i) ≡ attr * 256 + obscured flag c
  text-inside [] s i c h = cc
  text-inside (d ∷ cs) s zero c h =
      let same : d ≡ c = cc in
      let at : s.pos + 2 * 0 ≡ s.pos = omega arith in
      rw at (
        text-Outside cs (put_char attr (obscured flag d) s) s.pos (inl (omega arith))
        ∙ rw (==_refl s.pos, same) refl)
  text-inside (d ∷ cs) s (suc i) c h =
      let at : s.pos + 2 * suc i ≡ s.pos + 2 + 2 * i = omega arith in
      rw at (text-inside cs (put_char attr (obscured flag d) s) i c h)

  text_column : (cs : List ℕ) (s : Screen) → (write_text attr flag cs s).x ≡ s.x + length cs
  text_column [] s = omega arith
  text_column (c ∷ cs) s =
      let ih = text_column cs (put_char attr (obscured flag c) s) in omega arith

  text_row : (cs : List ℕ) (s : Screen) → (write_text attr flag cs s).y ≡ s.y
  text_row [] s = refl
  text_row (c ∷ cs) s = text_row cs (put_char attr (obscured flag c) s)

  text_origin : (cs : List ℕ) (s : Screen) → (write_text attr flag cs s).origin ≡ s.origin
  text_origin [] s = refl
  text_origin (c ∷ cs) s = text_origin cs (put_char attr (obscured flag c) s)

con_char-text :
    (v : Video) (erase_char c : ℕ) (con : Console)
    → con.state ≡ 0
    → 31 < c
    → c < 127
    → con.screen.x < v.columns
    → con_char v erase_char con c ≡ on_screen (put_char con.attr (obscured con.f12_flag c)) con
unfolding con_char plain wrap_line
con_char-text v erase_char c con idle low high inner =
    rw
      (
        (==_iff con.state 0).1 idle,
        lt→ltb 31 c low,
        lt→ltb c 127 high,
        lt→leb_false v.columns con.screen.x inner,
      )
      refl

con_chars-text :
    (v : Video) (erase_char : ℕ) (cs : List ℕ) (con : Console)
    → con.state ≡ 0
    → Printable cs
    → con.screen.x + length cs ≤ v.columns
    → con_chars v erase_char cs con ≡ on_screen (write_text con.attr con.f12_flag cs) con
unfolding con_chars
con_chars-text v erase_char [] con idle printable room = refl
con_chars-text v erase_char (c ∷ cs) con idle printable room =
    let first = printable 0 c refl in
    rw (con_char-text v erase_char c con idle first.0 first.1 (omega arith)) (
      con_chars-text v erase_char cs (on_screen (put_char con.attr (obscured con.f12_flag c)) con)
        idle (λ i d h. printable (suc i) d h) (omega arith))

-- con_write of printable characters outside an escape sequence, where the text fits in the rest of
-- the row: the row shows the text in the current attribute, each letter (A to Z, a to z) as a star when
-- the F12 flag is set and every other character as itself, no other place of the screen changes, and the cursor stands behind the text.
pub con_write-Printed :
    (v : Video) (erase_char : ℕ) (cs : List ℕ) (con : Console)
    → Valid v con.screen
    → con.state ≡ 0
    → Printable cs
    → con.screen.x + length cs ≤ v.columns
    → Printed v cs con (con_write v erase_char cs con)
unfolding con_write
con_write-Printed v erase_char cs con ok idle printable room =
    let s = con.screen in
    let attr = con.attr in
    let flag = con.f12_flag in
    let base = text_origin attr flag cs s in
    let mem = (write_text attr flag cs s).mem in
    let from = λ (r c : ℕ). ap (λ (o : ℕ). mem (o + r * size_row v + c * 2)) base in
    rw (con_chars-text v erase_char cs con idle printable room) (record {
      shown = λ i c h.
          let at : s.origin + s.y * size_row v + (s.x + i) * 2 ≡ s.pos + 2 * i =
            omega (arith, ok.at) in
          (
            obscured flag c,
            obscured-Shown flag c,
            from s.y (s.x + i) ∙ (ap mem at ∙ text-inside attr flag cs s i c h),
          );
      rest = λ r c in_r in_c h. from r c ∙ text-Outside attr flag cs s _ (off r c in_c h);
      column = text_column attr flag cs s;
      row = text_row attr flag cs s;
      ground_state = idle;
    })
  where
    off :
        (r c : ℕ)
        → c < v.columns
        → (r ≢ con.screen.y) ⊎ ((c < con.screen.x) ⊎ (con.screen.x + length cs ≤ c))
        → Outside (con.screen.origin + r * size_row v + c * 2) con.screen.pos (length cs)
    off r c in_c h = elim (dec_lt r con.screen.y) [
      | yes above ↦
          let before = row_below r con.screen.y v.columns above in inl (omega (arith, ok.at))
      | no from_row ↦ elim (dec_lt con.screen.y r) [
        | yes below ↦
            let behind = row_below con.screen.y r v.columns below in inr (omega (arith, ok.at))
        | no in_row ↦
            let same : r ≡ con.screen.y = omega arith in
            let line = ap (λ (k : ℕ). k * v.columns) same in
            elim h [
              | inl other ↦ absurd (other same)
              | inr (inl left) ↦ inl (omega (arith, ok.at))
              | inr (inr right) ↦ inr (omega (arith, ok.at))
            ]
      ]
    ]
