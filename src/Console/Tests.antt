-- ===== src/Console/Tests.antt =====
-- A card with two lines of eight columns and room for a third line.
use hack_linux.Base.{
  ℕ, zero, suc, ◌+◌, ◌*◌, ◌≡◌, refl, inr, Bool, true, false, List, [], ◌∷◌, ◌++◌, map, arith,
}
use hack_linux.Console.{video_type_egac, Video, Screen, set_cursor, scroll_origin, scrup, scrdown}
use hack_linux.Console.Grid.{Fits, Valid, grid, scrolled_up, scrolled_down}
use hack_linux.Console.Scroll.{scrup-grid, scrdown-grid}
use hack_linux.Console.Final.{edited, csi_final-grid}
use hack_linux.Console.Write.{Console, wrap_line, plain, escape, on_screen}
use hack_linux.Console.Sequences.{csi_final, con_char, con_chars, con_write}
use hack_linux.Console.Written.{Good, Written}
use hack_linux.Console.Safe.{con_write-Written}
use hack_linux.Console.Text.{Printable, Printed, con_write-Printed}
use hack_linux.Console.Params.{csi_text}
use hack_linux.Console.Parse.{read_numbers, con_write-sequence}
use hack_linux.Console.Start.{Boot, con_init, Ready, con_init-Ready}

abbrev small_video : Video
small_video = record {
  video_type = video_type_egac;
  columns = 8;
  lines = 2;
  mem_start = 100;
  mem_end = 148;
}

small_video-Fits : Fits small_video
small_video-Fits = record {
  wide = omega arith;
  even = refl;
  tall = omega arith;
  room = omega arith;
}

-- The cursor in the last line, and a scroll region of the whole screen.
abbrev small_screen : Screen
small_screen = record {
  mem = λ a. a;
  origin = 100;
  scr_end = 132;
  pos = 118;
  x = 1;
  y = 1;
  top = 0;
  bottom = 2;
  ports = [];
}

small_screen-Valid : Valid small_video small_screen
small_screen-Valid = record {
  in_x = omega arith;
  in_y = omega arith;
  at = refl;
  region = omega arith;
  low = omega arith;
  start = omega arith;
  size = refl;
  fits = omega arith;
}

abbrev small_console : Bool → Console
small_console f12 = record {
  screen = small_screen;
  state = 0;
  npar = 0;
  par = λ i. 0;
  ques = false;
  attr = 7;
  f12_flag = f12;
  saved_x = 0;
  saved_y = 0;
  answers = [];
  beepcount = 0;
}

small_console-Good : (f12 : Bool) → Good small_video (small_console f12)
small_console-Good f12 = record { valid = small_screen-Valid; par_index = omega arith }

-- A scroll moves the origin by a row and erases the row behind the screen.
scrolls : (scrup small_video small_screen).origin ≡ 116
unfolding scrup scroll_origin
scrolls = refl

-- The text "Hi!" with F12 pressed.
abbrev hi : List ℕ
hi = b'H' ∷ b'i' ∷ b'!' ∷ []

hi-Printable : Printable hi
hi-Printable zero c h = ground (arith, h)
hi-Printable (suc zero) c h = ground (arith, h)
hi-Printable (suc (suc zero)) c h = ground (arith, h)
hi-Printable (suc (suc (suc i))) c h = cc

hides :
    map
      (λ c. grid small_video (con_write small_video 8 hi (small_console true)).screen 1 c)
      (1 ∷ 2 ∷ 3 ∷ [])
    ≡ 1834 ∷ 1834 ∷ 1825 ∷ []
unfolding con_write con_chars con_char plain wrap_line
hides = refl

-- ESC 7 leaves the saved cursor as it was.
escape_seven : (con_write small_video 8 (27 ∷ b'7' ∷ []) (small_console false)).saved_x ≡ 0
unfolding con_write con_chars con_char plain escape
escape_seven = refl

scrup-grid_example :
    grid small_video (scrup small_video small_screen) 0 3
    ≡ scrolled_up 0 2 (grid small_video small_screen) 0 3
scrup-grid_example =
    scrup-grid small_video small_screen small_video-Fits small_screen-Valid 0 3 (omega arith)
      (omega arith)

scrdown-grid_example :
    grid small_video (scrdown small_video small_screen) 1 3
    ≡ scrolled_down 0 2 (grid small_video small_screen) 1 3
scrdown-grid_example =
    scrdown-grid small_video small_screen small_video-Fits small_screen-Valid 1 3 (omega arith)
      (omega arith)

csi_final-grid_example :
    grid small_video (csi_final small_video b'K' (small_console false)).screen 1 3
    ≡ edited small_video b'K' 0 small_screen (grid small_video small_screen) 1 3
csi_final-grid_example =
    csi_final-grid small_video b'K' (small_console false) 1 3 small_video-Fits small_screen-Valid
      (omega arith) (omega arith)

con_write-Written_example :
    Written small_video (small_console true) (con_write small_video 8 hi (small_console true))
con_write-Written_example =
    con_write-Written small_video small_video-Fits 8 hi (small_console true)
      (small_console-Good true)

con_write-Printed_example :
    Printed small_video hi (small_console true) (con_write small_video 8 hi (small_console true))
con_write-Printed_example =
    con_write-Printed small_video 8 hi (small_console true) small_screen-Valid refl hi-Printable
      (omega arith)

-- 80 columns in mode 3 on a card that answers with 0.
abbrev usual : Boot
usual = record { orig_x = 0; orig_y = 7; video_word = 80 * 256 + 3; ega_bx = 0 }

con_init-Ready_example : Ready usual (λ a. 0) (con_init usual (λ a. 0))
con_init-Ready_example =
    con_init-Ready usual (λ a. 0) (omega arith) (omega arith) refl (omega arith) (omega arith)

-- ESC [ 1 ; 12 H.
abbrev goto : List (List ℕ)
goto = (1 ∷ []) ∷ (1 ∷ 2 ∷ []) ∷ []

con_write-sequence_example :
    con_write small_video 8 (27 ∷ b'[' ∷ (csi_text goto ++ (b'H' ∷ []))) (small_console false)
    ≡ on_screen
        (set_cursor small_video)
        (csi_final small_video b'H' (read_numbers goto (small_console false)))
con_write-sequence_example =
    con_write-sequence small_video 8 b'H' goto (small_console false) refl (omega arith)
      (omega arith) (omega arith) (omega arith, (omega arith, inr (omega arith)))
