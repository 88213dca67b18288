-- ===== src/Console/Write.antt =====
-- The plain and the escaped characters of con_write: kernel/chr_drv/console.c (Lab 7). The queue is a
-- list of bytes; a byte from 128 on is a negative `char`.
use hack_linux.Base.{
  ltb, leb, ◌==◌, if◌then◌else◌, update, ℕ, ◌+◌, ◌-◌, ◌*◌, ◌%◌, Bool, not, ◌&&◌, ◌||◌, List, [],
  ◌∷◌, ◌++◌,
}
use hack_linux.Console.{Video, size_row, isalpha, Screen, gotoxy, lf, ri, cr, del}

pub record Console : Type 0 where
  pub screen : Screen
  pub state : ℕ
  pub npar : ℕ
  pub par : ℕ → ℕ
  pub ques : Bool
  pub attr : ℕ
  pub f12_flag : Bool
  pub saved_x : ℕ
  pub saved_y : ℕ
  -- What respond puts into the read queue, and the ticks of the beep.
  pub answers : List ℕ
  pub beepcount : ℕ

abbrev pub on_screen : (Screen → Screen) → Console → Console
on_screen f con = record con { screen = f con.screen }

-- F12_trigger
unfoldable pub f12_trigger : Console → Console
f12_trigger con = record con { f12_flag = not con.f12_flag }

-- `(F12Flag && isalpha(c)) ? '*' : c`
abbrev pub obscured : Bool → ℕ → ℕ
obscured f12_flag c = if f12_flag && isalpha c then b'*' else c

-- The start of a new line when the cursor is behind the row.
unfoldable pub wrap_line : Video → Screen → Screen
unfolding lf
wrap_line v s =
    if leb v.columns s.x
    then lf v (record s { x = s.x - v.columns; pos = s.pos - size_row v })
    else s

abbrev pub put_char : ℕ → ℕ → Screen → Screen
put_char attr c s = record s {
  mem = update s.mem s.pos (attr * 256 + c);
  pos = s.pos + 2;
  x = s.x + 1;
}

unfoldable pub back_space : Screen → Screen
back_space s = if s.x == 0 then s else record s { x = s.x - 1; pos = s.pos - 2 }

unfoldable pub tabulate : Video → Screen → Screen
unfolding lf
tabulate v s =
    let c = 8 - s.x % 8 in
    let t = record s { x = s.x + c; pos = s.pos + c * 2 } in
    if ltb v.columns t.x
    then lf v (record t { x = t.x - v.columns; pos = t.pos - size_row v })
    else t

-- sysbeep, `HZ/8` ticks.
abbrev pub sysbeep : Console → Console
sysbeep con = record con { beepcount = 12 }

-- `case 0`; `erase_char` is `ERASE_CHAR(tty)`.
unfoldable pub plain : Video → ℕ → ℕ → Console → Console
unfolding wrap_line back_space tabulate lf cr del
plain v erase_char c con =
    if ltb 31 c && ltb c 127
    then on_screen (λ s. put_char con.attr (obscured con.f12_flag c) (wrap_line v s)) con
    else if c == 27
    then record con { state = 1 }
    else if c == 10 || c == 11 || c == 12
    then on_screen (lf v) con
    else if c == 13
    then on_screen cr con
    else if ltb c 128 && c == erase_char
    then on_screen del con
    else if c == 8
    then on_screen back_space con
    else if c == 9
    then on_screen (tabulate v) con
    else if c == 7
    then sysbeep con
    else con

-- "\033[?1;2c"
abbrev pub response : List ℕ
response = 27 ∷ b'[' ∷ b'?' ∷ b'1' ∷ b';' ∷ b'2' ∷ b'c' ∷ []

abbrev pub respond : Console → Console
respond con = record con { answers = con.answers ++ response }

abbrev pub save_cur : Console → Console
save_cur con = record con { saved_x = con.screen.x; saved_y = con.screen.y }

abbrev pub restore_cur : Video → Console → Console
restore_cur v con = on_screen (gotoxy v con.saved_x con.saved_y) con

-- `unsigned long` and `unsigned int` have 32 bits.
abbrev pub word : ℕ
word = 4294967296

abbrev pub add_word : ℕ → ℕ → ℕ
add_word a b = (a + b) % word

abbrev pub sub_word : ℕ → ℕ → ℕ
sub_word a b = (a + word - b) % word

-- `case 1`. The code compares `x`, and not `c`, with '7' and '8'.
unfoldable pub escape : Video → ℕ → Console → Console
unfolding ri lf gotoxy
escape v c con =
    let quit = record con { state = 0 } in
    if c == b'['
    then record con { state = 2 }
    else if c == b'E'
    then on_screen (λ s. gotoxy v 0 (add_word s.y 1) s) quit
    else if c == b'M'
    then on_screen (ri v) quit
    else if c == b'D'
    then on_screen (lf v) quit
    else if c == b'Z'
    then respond quit
    else if con.screen.x == b'7'
    then save_cur quit
    else if con.screen.x == b'8'
    then restore_cur v quit
    else quit
