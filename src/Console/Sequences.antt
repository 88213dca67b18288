-- ===== src/Console/Sequences.antt =====
-- The control sequences of con_write and its loop: kernel/chr_drv/console.c (Lab 7).
use hack_linux.Base.{
  ltb, leb, ◌==◌, if◌then◌else◌, update, ℕ, zero, suc, ◌+◌, ◌-◌, ◌*◌, ◌%◌, ◌&&◌, ◌||◌, Option, none,
  some, List, [], ◌∷◌,
}
use hack_linux.Console.{
  Video, Screen, gotoxy, set_cursor, csi_J, csi_K, repeat, csi_at, csi_L, csi_P, csi_M,
}
use hack_linux.Console.Write.{
  Console, on_screen, plain, save_cur, restore_cur, word, add_word, sub_word, escape,
}

abbrev pub attribute : ℕ → ℕ → ℕ
attribute par attr =
    if par == 0
    then 0x07
    else if par == 1
    then 0x0f
    else if par == 4
    then 0x0f
    else if par == 7
    then 0x70
    else if par == 27
    then 0x07
    else attr

-- The loop of csi_m, for n rounds from index `i` on.
unfoldable pub csi_m : ℕ → ℕ → (ℕ → ℕ) → ℕ → ℕ
csi_m zero i par attr = attr
csi_m (suc n) i par attr = csi_m n (i + 1) par (attribute (par i) attr)

-- `if (par[0]) par[0]--;` and `if (!par[0]) par[0]++;`. The parameters are cleared before they are
-- read again.
abbrev pub less_one : ℕ → ℕ
less_one n = if n == 0 then 0 else n - 1

abbrev pub at_least_one : ℕ → ℕ
at_least_one n = if n == 0 then 1 else n

unfoldable pub set_region : Video → ℕ → ℕ → Screen → Screen
set_region v par0 par1 s =
    let top = less_one par0 in
    let bottom = if par1 == 0 then v.lines else par1 in
    if ltb top bottom && leb bottom v.lines then record s { top = top; bottom = bottom } else s

-- The sequences of `case 4` that move the cursor; none for another character.
unfoldable pub csi_move : ℕ → (ℕ → ℕ) → Screen → Option (ℕ × ℕ)
csi_move c par s =
    let n = at_least_one (par 0) in
    if c == b'G' || c == b'`'
    then some (less_one (par 0), s.y)
    else if c == b'A'
    then some (s.x, sub_word s.y n)
    else if c == b'B' || c == b'e'
    then some (s.x, add_word s.y n)
    else if c == b'C' || c == b'a'
    then some (add_word s.x n, s.y)
    else if c == b'D'
    then some (sub_word s.x n, s.y)
    else if c == b'E'
    then some (0, add_word s.y n)
    else if c == b'F'
    then some (0, sub_word s.y n)
    else if c == b'd'
    then some (s.x, less_one (par 0))
    else if c == b'H' || c == b'f'
    then some (less_one (par 1), less_one (par 0))
    else none

-- The other sequences of `case 4`.
unfoldable pub csi_other : Video → ℕ → Console → Console
unfolding csi_J csi_K csi_m set_region repeat
csi_other v c con =
    let n = con.par 0 in
    if c == b'J'
    then on_screen (csi_J v n) con
    else if c == b'K'
    then on_screen (csi_K v n) con
    else if c == b'L'
    then on_screen (csi_L v n) con
    else if c == b'M'
    then on_screen (csi_M v n) con
    else if c == b'P'
    then on_screen (csi_P v n) con
    else if c == b'@'
    then on_screen (csi_at v n) con
    else if c == b'm'
    then record con { attr = csi_m (con.npar + 1) 0 con.par con.attr }
    else if c == b'r'
    then on_screen (set_region v n (con.par 1)) con
    else if c == b's'
    then save_cur con
    else if c == b'u'
    then restore_cur v con
    else con

abbrev pub move_or : Video → Option (ℕ × ℕ) → Console → Console → Console
move_or v none con other = other
move_or v (some (x, y)) con other = on_screen (gotoxy v x y) con

-- `case 4`
unfoldable pub csi_final : Video → ℕ → Console → Console
unfolding csi_move csi_other gotoxy
csi_final v c con =
    let quit = record con { state = 0 } in
    move_or v (csi_move c con.par con.screen) quit (csi_other v c quit)

-- `case 3`
unfoldable pub csi_param : Video → ℕ → Console → Console
unfolding csi_final
csi_param v c con =
    if c == b';' && ltb con.npar 15
    then record con { npar = con.npar + 1 }
    else if leb b'0' c && leb c b'9'
    then record con { par = update con.par con.npar ((10 * con.par con.npar + c - b'0') % word) }
    else csi_final v c con

-- `case 2`
unfoldable pub csi_start : Video → ℕ → Console → Console
unfolding csi_param
csi_start v c con =
    let cleared = record con { par = λ i. 0; npar = 0; state = 3; ques = c == b'?' } in
    if c == b'?' then cleared else csi_param v c cleared

-- One round of the loop of con_write.
unfoldable pub con_char : Video → ℕ → Console → ℕ → Console
unfolding plain escape csi_start csi_param csi_final
con_char v erase_char con c =
    if con.state == 0
    then plain v erase_char c con
    else if con.state == 1
    then escape v c con
    else if con.state == 2
    then csi_start v c con
    else if con.state == 3
    then csi_param v c con
    else if con.state == 4
    then csi_final v c con
    else con

unfoldable pub con_chars : Video → ℕ → List ℕ → Console → Console
unfolding con_char
con_chars v erase_char [] con = con
con_chars v erase_char (c ∷ cs) con = con_chars v erase_char cs (con_char v erase_char con c)

-- con_write for the characters of the queue.
unfoldable pub con_write : Video → ℕ → List ℕ → Console → Console
unfolding con_chars
con_write v erase_char cs con = on_screen (set_cursor v) (con_chars v erase_char cs con)
