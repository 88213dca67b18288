-- ===== src/Console/Start.antt =====
-- con_init: kernel/chr_drv/console.c (Lab 7), less the ports of the keyboard.
use hack_linux.Base.{
  ltb, leb, ◌==◌, if◌then◌else◌, le→ltb_false, lt→leb_false, update, length, ℕ, ◌+◌, ◌-◌, ◌*◌, ◌/◌,
  ◌%◌, ◌≤◌, ◌<◌, ◌≡◌, refl, ◌∙◌, ◌⊎◌, Bool, true, false, List, [], ◌∷◌, arith,
}
use hack_linux.Console.{
  VideoType, video_type_mda, video_type_cga, video_type_egam, video_type_egac, Video, size_row,
  Screen, gotoxy,
}
use hack_linux.Console.Grid.{Fits, Valid}
use hack_linux.Console.Valid.{update-frame}

-- What setup.s leaves from 0x90000 on: the cursor, the word at 0x90006 and the one at 0x9000a.
pub record Boot : Type 0 where
  pub orig_x : ℕ
  pub orig_y : ℕ
  pub video_word : ℕ
  pub ega_bx : ℕ

abbrev pub orig_video_mode : Boot → ℕ
orig_video_mode b = b.video_word % 256

abbrev pub orig_video_cols : Boot → ℕ
orig_video_cols b = b.video_word / 256 % 256

abbrev pub orig_video_lines : ℕ
orig_video_lines = 25

-- The type of the card with the start and the end of its memory, and its name.
abbrev pub display : Boot → (VideoType × ℕ × ℕ) × List ℕ
display b =
    if orig_video_mode b == 7
    then if b.ega_bx % 256 == 0x10
      then ((video_type_mda, 0xb0000, 0xb2000), b'*' ∷ b'M' ∷ b'D' ∷ b'A' ∷ [])
      else ((video_type_egam, 0xb0000, 0xb8000), b'E' ∷ b'G' ∷ b'A' ∷ b'm' ∷ [])
    else if b.ega_bx % 256 == 0x10
    then ((video_type_cga, 0xb8000, 0xba000), b'*' ∷ b'C' ∷ b'G' ∷ b'A' ∷ [])
    else ((video_type_egac, 0xb8000, 0xbc000), b'E' ∷ b'G' ∷ b'A' ∷ b'c' ∷ [])

abbrev pub video_of : Boot → (VideoType × ℕ × ℕ) × List ℕ → Video
video_of b ((type, start, end), desc) = record {
  video_type = type;
  columns = orig_video_cols b;
  lines = orig_video_lines;
  mem_start = start;
  mem_end = end;
}

-- The bytes of the name go to the low bytes of words.
unfoldable pub describe : List ℕ → ℕ → (ℕ → ℕ) → ℕ → ℕ
describe [] p mem = mem
describe (c ∷ cs) p mem = describe cs (p + 2) (update mem p (mem p / 256 * 256 + c))

-- The screen before gotoxy; a static variable is 0 before con_init.
abbrev pub first_screen : Video → (ℕ → ℕ) → Screen
first_screen v mem = record {
  mem = mem;
  origin = v.mem_start;
  scr_end = v.mem_start + v.lines * size_row v;
  pos = 0;
  x = 0;
  y = 0;
  top = 0;
  bottom = v.lines;
  ports = [];
}

unfoldable pub con_init : Boot → (ℕ → ℕ) → Video × Screen
unfolding describe gotoxy
con_init b mem =
    let d = display b in
    let v = video_of b d in
    let described = describe d.1 (v.mem_start + size_row v - 8) mem in
    (v, gotoxy v b.orig_x b.orig_y (first_screen v described))

describe-frame :
    (v : Video) (cs : List ℕ) (p : ℕ) (mem : ℕ → ℕ)
    → v.mem_start ≤ p
    → p + 2 * length cs ≤ v.mem_end
    → (b : ℕ) → (b < v.mem_start) ⊎ (v.mem_end ≤ b)
    → describe cs p mem b ≡ mem b
unfolding describe
describe-frame v [] p mem low high b h = refl
describe-frame v (c ∷ cs) p mem low high b h =
    describe-frame v cs (p + 2) (update mem p (mem p / 256 * 256 + c)) (omega arith) (omega arith) b
      h
    ∙ update-frame v mem p (mem p / 256 * 256 + c) b low (omega arith) h

-- A card has at least 0x2000 bytes, and its name has four letters.
abbrev Roomy : (VideoType × ℕ × ℕ) × List ℕ → Type 0
Roomy ((type, start, end), desc) = (start + 0x2000 ≤ end) × (length desc ≡ 4)

Roomy-if :
    (c : Bool) (p q : (VideoType × ℕ × ℕ) × List ℕ) → Roomy p → Roomy q → Roomy (if c then p else q)
Roomy-if true p q h k = h
Roomy-if false p q h k = k

display-Roomy : (b : Boot) → Roomy (display b)
display-Roomy b =
    Roomy-if (orig_video_mode b == 7) _ _
      (Roomy-if (b.ega_bx % 256 == 0x10) _ _ (omega arith, refl) (omega arith, refl))
      (Roomy-if (b.ega_bx % 256 == 0x10) _ _ (omega arith, refl) (omega arith, refl))

gotoxy_inside :
    (v : Video) (x y : ℕ) (s : Screen)
    → ltb v.columns x ≡ false
    → leb v.lines y ≡ false
    → gotoxy v x y s ≡ record s { x = x; y = y; pos = s.origin + y * size_row v + x * 2 }
unfolding gotoxy
gotoxy_inside v x y s in_x in_y = rw (in_x, in_y) refl

-- What the output needs of the screen at the start.
pub record Ready (b : Boot) (mem : ℕ → ℕ) (r : Video × Screen) : Type 0 where
  pub fits : Fits r.0
  pub valid : Valid r.0 r.1
  pub column : r.1.x ≡ b.orig_x
  pub row : r.1.y ≡ b.orig_y
  pub first : r.1.top ≡ 0
  pub last : r.1.bottom ≡ r.0.lines
  pub frame : (i : ℕ) → (i < r.0.mem_start) ⊎ (r.0.mem_end ≤ i) → r.1.mem i ≡ mem i

-- con_init with an even number of columns from 8 to 163 and a cursor on the screen, for each of the
-- four types of card: the screen fits in the video memory and is valid, the cursor stands where
-- setup.s left it, the scroll region is the whole screen, and no word outside the video memory
-- changes.
pub con_init-Ready :
    (b : Boot) (mem : ℕ → ℕ)
    → 8 ≤ orig_video_cols b
    → orig_video_cols b ≤ 163
    → orig_video_cols b ≡ 2 * (orig_video_cols b / 2)
    → b.orig_x ≤ orig_video_cols b
    → b.orig_y < 25
    → Ready b mem (con_init b mem)
unfolding con_init
con_init-Ready b mem wide narrow even in_x in_y = start (display b) (display-Roomy b)
  where
    start :
        (d : (VideoType × ℕ × ℕ) × List ℕ)
        → Roomy d
        → Ready b mem (
          video_of b d,
          gotoxy (video_of b d) b.orig_x b.orig_y (
              first_screen
                (video_of b d)
                (describe d.1 ((video_of b d).mem_start + size_row (video_of b d) - 8) mem)),
        )
    start ((type, low, high), desc) (room, four) =
        let v = video_of b ((type, low, high), desc) in
        let at = low + size_row v - 8 in
        let first = first_screen v (describe desc at mem) in
        rw
          (gotoxy_inside v b.orig_x b.orig_y first (le→ltb_false v.columns b.orig_x in_x)
            (lt→leb_false v.lines b.orig_y in_y))
          (record {
            fits = record { wide = wide; even = even; tall = omega arith; room = omega arith };
            valid = record {
              in_x = in_x;
              in_y = in_y;
              at = refl;
              region = omega arith;
              low = omega arith;
              start = omega arith;
              size = refl;
              fits = omega arith;
            };
            column = refl;
            row = refl;
            first = refl;
            last = refl;
            frame = λ i h. describe-frame v desc at mem (omega arith) (omega arith) i h;
          })
